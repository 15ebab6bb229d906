-- ===== src/Base/Text.antt =====
-- What `operator<<` of a stream writes for a text, a number and a newline, and what `std::stoul`
-- reads.
use Prim.Native.Char.{code}
use Prim.Native.Nat.{ℕ, zero, suc, ◌+◌, ◌-◌, ◌*◌, ◌/◌, ◌%◌, ◌^◌, ◌<◌, ◌≤◌}
use Prim.Native.String.{String}
use mathlib.Core.Bool.{Bool, true, false, ◌&&◌, ◌||◌}
use mathlib.Core.Path.{◌≡◌, refl, ap, sym, ◌∙◌}
use mathlib.Core.List.{List, [], ◌∷◌, ◌++◌, append_assoc, append-nil}
use mathlib.Core.Logic.{◌≢◌, inl, inr}
use mathlib.Core.Option.{Option, none, some}
use native.Mathlib.Omega.{arith}
use packaged_task.Base.Lists.{All}
use packaged_task.Base.Tests.{ltb, leb, ◌==◌, ==_ne, if◌then◌else◌, Bool-cases}

-- The bytes of an ASCII literal.
abbrev pub codes : String → List ℕ
codes String.[] = []
codes (String.◌∷◌ c s) = code c ∷ codes s

abbrev pub newline : List ℕ
newline = 10 ∷ []

-- `std::string(n, ' ')`
unfoldable pub spaces : ℕ → List ℕ
spaces zero = []
spaces (suc n) = 32 ∷ spaces n

-- The digits of a number, of which `fuel` is an upper bound.
unfoldable pub digits : (fuel : ℕ) → ℕ → List ℕ
digits zero n = []
digits (suc fuel) n =
    let before = digits fuel (n / 10) in
    if ltb n 10 then (48 + n) ∷ [] else before ++ ((48 + n % 10) ∷ [])

-- An unsigned number.
unfoldable pub unsigned_text : ℕ → List ℕ
unsigned_text n = digits (suc n) n

-- An `int32_t`, given by its bits.
unfoldable pub int_text : ℕ → List ℕ
int_text n = if ltb n (2 ^ 31) then unsigned_text n else b'-' ∷ unsigned_text (2 ^ 32 - n)

int_text-negative : int_text (2 ^ 32 - 15) ≡ codes "-15"
unfolding int_text unsigned_text digits
int_text-negative = refl

abbrev pub is_digit : ℕ → Bool
is_digit c = leb 48 c && leb c 57

-- `isspace` in the C locale.
abbrev pub is_space : ℕ → Bool
is_space c = c == 32 || (leb 9 c && leb c 13)

-- The value of the digits that a text starts with, behind a number; `none` if there are none.
unfoldable pub leading_value : List ℕ → (seen : Bool) → ℕ → Option ℕ
leading_value [] seen n = if seen then some n else none
leading_value (c ∷ cs) seen n =
    if is_digit c then leading_value cs true (n * 10 + (c - 48)) else if seen then some n else none

unfoldable pub skip_spaces : List ℕ → List ℕ
skip_spaces [] = []
skip_spaces (c ∷ cs) = if is_space c then skip_spaces cs else c ∷ cs

pub data Parsed : Type 0 where
  value : ℕ → Parsed
  invalid_argument out_of_range : Parsed

-- An `unsigned long` has 64 bits; a minus sign negates in them.
unfoldable pub in_range : (negative : Bool) → Option ℕ → Parsed
in_range negative none = invalid_argument
in_range negative (some n) =
    if leb (2 ^ 64) n then out_of_range else value (if negative then (2 ^ 64 - n) % 2 ^ 64 else n)

unfoldable pub signed_value : List ℕ → Parsed
signed_value [] = invalid_argument
signed_value (c ∷ cs) =
    if c == b'-'
    then in_range true (leading_value cs false 0)
    else if c == b'+'
    then in_range false (leading_value cs false 0)
    else in_range false (leading_value (c ∷ cs) false 0)

unfoldable pub stoul : List ℕ → Parsed
stoul s = signed_value (skip_spaces s)

stoul-negative : stoul (codes " -2x") ≡ value (2 ^ 64 - 2)
unfolding stoul skip_spaces signed_value in_range leading_value
stoul-negative = refl

-- What stands in front of the null byte that a `const char *` is read up to.
unfoldable pub c_str : List ℕ → List ℕ
c_str [] = []
c_str (b ∷ bs) = let rest = c_str bs in if b == 0 then [] else b ∷ rest

-- No null byte.
abbrev pub IsText : List ℕ → Type 0
IsText = All (λ b. b ≢ 0)

pub IsText-append : (xs ys : List ℕ) → IsText xs → IsText ys → IsText (xs ++ ys)
IsText-append [] ys hx hy = hy
IsText-append (x ∷ xs) ys (h, hx) hy = (h, IsText-append xs ys hx hy)

pub c_str_whole : (bs : List ℕ) → IsText bs → c_str bs ≡ bs
unfolding c_str
c_str_whole [] clean = refl
c_str_whole (b ∷ bs) (here, clean) = rw (==_ne b 0 here) (ap (◌∷◌ b) (c_str_whole bs clean))

-- A text that a null byte ends.
pub c_str-append : (xs rest : List ℕ) → IsText xs → c_str (xs ++ (0 ∷ rest)) ≡ xs
unfolding c_str
c_str-append [] rest clean = refl
c_str-append (b ∷ bs) rest (here, clean) =
    rw (==_ne b 0 here) (ap (◌∷◌ b) (c_str-append bs rest clean))

digits-IsText : (fuel n : ℕ) → IsText (digits fuel n)
unfolding digits
digits-IsText zero n = tt
digits-IsText (suc fuel) n = elim (Bool-cases (ltb n 10)) [
  | inl small ↦ rw small (omega arith, tt)
  | inr large ↦
      rw large
        (IsText-append (digits fuel (n / 10)) _ (digits-IsText fuel (n / 10)) (omega arith, tt))
]

pub int_text-IsText : (n : ℕ) → IsText (int_text n)
unfolding int_text unsigned_text
int_text-IsText n = elim (Bool-cases (ltb n (2 ^ 31))) [
  | inl positive ↦ rw positive (digits-IsText (suc n) n)
  | inr negative ↦ rw negative (omega arith, digits-IsText (suc (2 ^ 32 - n)) (2 ^ 32 - n))
]

digits-head :
    (fuel n : ℕ)
    → n < fuel
    → (c : ℕ) × (cs : List ℕ) × (digits fuel n ≡ c ∷ cs) × (48 ≤ c) × (c ≤ 57)
unfolding digits
digits-head zero n h = absurd (omega arith)
digits-head (suc fuel) n h = elim (Bool-cases (ltb n 10)) [
  | inl small ↦ (48 + n, [], rw small refl, omega arith, ground arith)
  | inr large ↦
      let (c, cs, e, low, high) = digits-head fuel (n / 10) (ground arith) in
      (c, cs ++ ((48 + n % 10) ∷ []), rw (large, e) refl, low, high)
]

leading_value-digits :
    (fuel n : ℕ) (rest : List ℕ) (seen : Bool)
    → n < fuel
    → leading_value (digits fuel n ++ rest) seen 0 ≡ leading_value rest true n
unfolding digits leading_value
leading_value-digits zero n rest seen h = absurd (omega arith)
leading_value-digits (suc fuel) n rest seen h = elim (Bool-cases (ltb n 10)) [
  | inl small ↦ rw small (ground arith)
  | inr large ↦
      rw (large, append_assoc (digits fuel (n / 10)) ((48 + n % 10) ∷ []) rest)
        (leading_value-digits fuel (n / 10) ((48 + n % 10) ∷ rest) seen (ground arith)
          ∙ ground arith)
]

-- A number of 64 bits that is printed is read back.
pub stoul-unsigned_text : (n : ℕ) → n < 2 ^ 64 → stoul (unsigned_text n) ≡ value n
unfolding stoul unsigned_text signed_value skip_spaces in_range
stoul-unsigned_text n h =
    let (c, cs, e, low, high) = digits-head (suc n) n (omega arith) in
    let read : leading_value (c ∷ cs) false 0 ≡ some n =
      ap (λ l. leading_value l false 0) (sym e ∙ sym (append-nil (digits (suc n) n)))
      ∙ leading_value-digits (suc n) n [] false (omega arith)
      ∙ (unfold leading_value in refl) in
    rw e (ground (arith, read))
