-- ===== src/Base/Bits.antt =====
-- `|` of fields that do not overlap, and `&` with the masks of a packed date and time. The native
-- operations are defined digit by digit, on fuel; the equations for the lowest digit drop the fuel.
use Prim.Native.Nat.{
  ℕ, zero, suc, ◌+◌, ◌*◌, ◌/◌, ◌%◌, ◌^◌, ◌≤◌, ◌<◌, min, max, bit_and, bit_or, digits,
  bit_and-bitwise, bit_or-bitwise,
}
use mathlib.Core.Path.{◌≡◌, refl, ap}
use native.Mathlib.Omega.{arith}
use native.Mathlib.Nat.{pow-suc}

-- Any fuel that reaches the first number serves.
enough_fuel :
    (end : ℕ → ℕ) (digit : ℕ → ℕ → ℕ) (n m a b : ℕ)
    → a ≤ n
    → a ≤ m
    → digits end digit n a b ≡ digits end digit m a b
enough_fuel end digit zero zero zero b p q = refl
enough_fuel end digit zero zero (suc a) b p q = refl
enough_fuel end digit zero (suc m) zero b p q = refl
enough_fuel end digit zero (suc m) (suc a) b p q = elim p [ ]
enough_fuel end digit (suc n) zero zero b p q = refl
enough_fuel end digit (suc n) zero (suc a) b p q = elim q [ ]
enough_fuel end digit (suc n) (suc m) zero b p q = refl
enough_fuel end digit (suc n) (suc m) (suc a) b p q =
    rw (enough_fuel end digit n m (suc a / 2) (b / 2) (omega arith) (omega arith))

or_digit : (a b : ℕ) → bit_or a b ≡ bit_or (a / 2) (b / 2) * 2 + max (a % 2) (b % 2)
or_digit zero b = omega (arith, bit_or-bitwise 0 b, bit_or-bitwise 0 (b / 2))
or_digit (suc a) b = omega (
  arith,
  bit_or-bitwise (suc a) b,
  bit_or-bitwise (suc a / 2) (b / 2),
  enough_fuel (λ y. y) max a (suc a / 2) (suc a / 2) (b / 2) (omega arith) (omega arith),
)

and_digit : (a b : ℕ) → bit_and a b ≡ bit_and (a / 2) (b / 2) * 2 + min (a % 2) (b % 2)
and_digit zero b = omega (arith, bit_and-bitwise 0 b, bit_and-bitwise 0 (b / 2))
and_digit (suc a) b = omega (
  arith,
  bit_and-bitwise (suc a) b,
  bit_and-bitwise (suc a / 2) (b / 2),
  enough_fuel (λ y. 0) min a (suc a / 2) (suc a / 2) (b / 2) (omega arith) (omega arith),
)

or_nothing : (bound a : ℕ) → a ≤ bound → bit_or a 0 ≡ a
or_nothing bound zero h = refl
or_nothing zero (suc a) h = elim h [ ]
or_nothing (suc bound) (suc a) h =
    omega (arith, or_digit (suc a) 0, or_nothing bound (suc a / 2) (omega arith))

and_nothing : (bound a : ℕ) → a ≤ bound → bit_and a 0 ≡ 0
and_nothing bound zero h = refl
and_nothing zero (suc a) h = elim h [ ]
and_nothing (suc bound) (suc a) h =
    omega (arith, and_digit (suc a) 0, and_nothing bound (suc a / 2) (omega arith))

-- A field of `k` bits below the others.
pub bit_or-disjoint : (k q r : ℕ) → r < 2 ^ k → bit_or (q * 2 ^ k) r ≡ q * 2 ^ k + r
bit_or-disjoint zero q r h = ground (arith, or_nothing q q)
bit_or-disjoint (suc k) q r h = ground (
  arith,
  or_digit (q * 2 ^ suc k) r,
  ap (λ (t : ℕ). q * t) (pow-suc 2 k),
  pow-suc 2 k,
  bit_or-disjoint k q (r / 2),
)

pub and_even : (a m : ℕ) → bit_and a (2 * m) ≡ 2 * bit_and (a / 2) m
and_even a m = ground (arith, and_digit a (2 * m))

pub and_odd : (a m : ℕ) → bit_and a (2 * m + 1) ≡ 2 * bit_and (a / 2) m + a % 2
and_odd a m = ground (arith, and_digit a (2 * m + 1))

and_1 : (a : ℕ) → bit_and a 1 ≡ a % 2
and_1 a = omega (arith, and_odd a 0, and_nothing (a / 2) (a / 2) (omega arith))

and_f : (a : ℕ) → bit_and a 0xf ≡ a % 16
and_f a =
    omega (arith, and_odd a 7, and_odd (a / 2) 3, and_odd (a / 2 / 2) 1, and_1 (a / 2 / 2 / 2))

and_1f : (a : ℕ) → bit_and a 0x1f ≡ a % 32
and_1f a = omega (arith, and_odd a 0xf, and_f (a / 2))

and_3f : (a : ℕ) → bit_and a 0x3f ≡ a % 64
and_3f a = omega (arith, and_odd a 0x1f, and_1f (a / 2))

and_7f : (a : ℕ) → bit_and a 0x7f ≡ a % 128
and_7f a = omega (arith, and_odd a 0x3f, and_3f (a / 2))

-- Five zero digits.
and_shifted : (a m : ℕ) → bit_and a (2 * (2 * (2 * (2 * (2 * m))))) ≡ 32 * bit_and (a / 32) m
and_shifted a m = ground (
  arith,
  and_even a (2 * (2 * (2 * (2 * m)))),
  and_even (a / 2) (2 * (2 * (2 * m))),
  and_even (a / 2 / 2) (2 * (2 * m)),
  and_even (a / 2 / 2 / 2) (2 * m),
  and_even (a / 2 / 2 / 2 / 2) m,
)

pub mask_1f : (a : ℕ) → bit_and a 0x1f ≡ a % 32
mask_1f a = and_1f a

pub mask_1e0 : (a : ℕ) → bit_and a 0x1e0 ≡ 32 * (a / 32 % 16)
mask_1e0 a = omega (arith, and_shifted a 0xf, and_f (a / 32))

pub mask_7e0 : (a : ℕ) → bit_and a 0x7e0 ≡ 32 * (a / 32 % 64)
mask_7e0 a = omega (arith, and_shifted a 0x3f, and_3f (a / 32))

four_even : (a m : ℕ) → bit_and a (2 * (2 * (2 * (2 * m)))) ≡ 16 * bit_and (a / 16) m
four_even a m = ground (
  arith,
  and_even a (2 * (2 * (2 * m))),
  and_even (a / 2) (2 * (2 * m)),
  and_even (a / 2 / 2) (2 * m),
  and_even (a / 2 / 2 / 2) m,
)

pub mask_fe00 : (a : ℕ) → bit_and a 0xfe00 ≡ 512 * (a / 512 % 128)
mask_fe00 a = omega (arith, and_shifted a 0x7f0, four_even (a / 32) 0x7f, and_7f (a / 32 / 16))

pub mask_f800 : (a : ℕ) → bit_and a 0xf800 ≡ 2048 * (a / 2048 % 32)
mask_f800 a = omega (
  arith,
  and_shifted a 0x7c0,
  four_even (a / 32) 0x7c,
  and_even (a / 32 / 16) 0x3e,
  and_even (a / 32 / 16 / 2) 0x1f,
  and_1f (a / 32 / 16 / 2 / 2),
)
