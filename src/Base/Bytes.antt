-- ===== src/Base/Bytes.antt =====
-- Little-endian bytes of an arithmetic type of `k` bytes, as `memcpy` lays them out on the hosts
-- that the program is built for, a byte being a number below 256; and the equality of byte strings.
use Prim.Native.Nat.{ℕ, zero, suc, ◌+◌, ◌*◌, ◌/◌, ◌%◌, ◌^◌, ◌<◌, ◌-◌, min}
use mathlib.Core.Path.{◌≡◌, refl, ap}
use mathlib.Core.Bool.{Bool, true, false, ◌&&◌}
use mathlib.Core.List.{List, [], ◌∷◌, ◌++◌}
use native.Mathlib.Omega.{arith}
use native.Mathlib.Nat.{pow-suc}
use packaged_task.Base.Lists.{length, take, drop, length-append, length-take, length-drop, All}
use packaged_task.Base.Tests.{◌==◌}

abbrev pub IsByte : ℕ → Type 0
IsByte b = b < 256

unfoldable pub le_bytes : ℕ → ℕ → List ℕ
le_bytes zero v = []
le_bytes (suc k) v = (v % 256) ∷ le_bytes k (v / 256)

unfoldable pub from_le : List ℕ → ℕ
from_le [] = 0
from_le (b ∷ bs) = b + 256 * from_le bs

pub length-le_bytes : (k v : ℕ) → length (le_bytes k v) ≡ k
unfolding le_bytes
length-le_bytes zero v = refl
length-le_bytes (suc k) v = ap suc (length-le_bytes k (v / 256))

pub le_bytes-IsByte : (k v : ℕ) → All IsByte (le_bytes k v)
unfolding le_bytes
le_bytes-IsByte zero v = tt
le_bytes-IsByte (suc k) v = (omega arith, le_bytes-IsByte k (v / 256))

div_bound : (v n : ℕ) → v < n * 256 → v / 256 < n
div_bound v n h = omega arith

pub from_le-le_bytes : (k v : ℕ) → v < 256 ^ k → from_le (le_bytes k v) ≡ v
unfolding le_bytes from_le
from_le-le_bytes zero v h = omega arith
from_le-le_bytes (suc k) v h =
    omega (arith, from_le-le_bytes k (v / 256) (div_bound v (256 ^ k) (rw (pow-suc) at h)))

-- `==` on `std::string`.
unfoldable pub bytes_eq : List ℕ → List ℕ → Bool
bytes_eq [] [] = true
bytes_eq [] (b ∷ bs) = false
bytes_eq (a ∷ as') [] = false
bytes_eq (a ∷ as') (b ∷ bs) = a == b && bytes_eq as' bs

pub bytes_eq_refl : (xs : List ℕ) → bytes_eq xs xs ≡ true
unfolding bytes_eq
bytes_eq_refl [] = refl
bytes_eq_refl (x ∷ xs) = ground (arith, bytes_eq_refl xs)

pub bytes_eq→eq : (xs ys : List ℕ) → bytes_eq xs ys ≡ true → xs ≡ ys
unfolding bytes_eq
bytes_eq→eq [] [] e = refl
bytes_eq→eq [] (y ∷ ys) e = cc
bytes_eq→eq (x ∷ xs) [] e = cc
bytes_eq→eq (x ∷ xs) (y ∷ ys) e = ground (arith, bytes_eq→eq xs ys)

-- The numbers of bytes of strings that are joined and cut, for the tactics on numbers.
pub bytes_joined : (xs ys : List ℕ) → length (xs ++ ys) ≡ length xs + length ys
bytes_joined xs ys = length-append xs ys

pub bytes_taken : (n : ℕ) (xs : List ℕ) → length (take n xs) ≡ min n (length xs)
bytes_taken n xs = length-take n xs

pub bytes_dropped : (n : ℕ) (xs : List ℕ) → length (drop n xs) ≡ length xs - n
bytes_dropped n xs = length-drop n xs

pub ruleset byte_sizes = (arith, bytes_joined, bytes_taken, bytes_dropped, length-le_bytes)
