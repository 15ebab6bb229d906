-- ===== src/Log/Names.antt =====
-- The names of the severities, printed and read back.
use packaged_task.Base.{
  ℕ, ◌+◌, ◌≤◌, ◌≡◌, refl, ap, List, [], ◌∷◌, map, All, leb, if◌then◌else◌, arith, ◌⊎◌, inl, inr,
}
use packaged_task.Log.{
  SeverityLevel, notification, warning, error, level_name, convert_str_to_severity, warning_text,
  error_text,
}
use packaged_task.Base.Bytes.{bytes_eq}

abbrev IsUpper : ℕ → Type 0
IsUpper c = (65 ≤ c) × (c ≤ 90)

abbrev IsLower : ℕ → Type 0
IsLower c = (97 ≤ c) × (c ≤ 122)

-- `tolower` on ASCII letters.
abbrev ascii_lower : ℕ → ℕ
ascii_lower c = if leb 97 c then c else c + 32

lower_letters :
    (to_lower : ℕ → ℕ) (cs : List ℕ)
    → ((c : ℕ) → 65 ≤ c → c ≤ 90 → to_lower c ≡ c + 32)
    → ((c : ℕ) → 97 ≤ c → c ≤ 122 → to_lower c ≡ c)
    → All (λ c. IsUpper c ⊎ IsLower c) cs
    → map to_lower cs ≡ map ascii_lower cs
lower_letters to_lower [] lowers keeps letters = refl
lower_letters to_lower (c ∷ cs) lowers keeps (inl (low, high), letters) =
    let upper : ascii_lower c ≡ c + 32 = ground (arith, low, high) in
    rw (lowers c low high, upper)
      (ap (λ l. (c + 32) ∷ l) (lower_letters to_lower cs lowers keeps letters))
lower_letters to_lower (c ∷ cs) lowers keeps (inr (low, high), letters) =
    let lower : ascii_lower c ≡ c = ground (arith, low, high) in
    rw (keeps c low high, lower) (ap (λ l. c ∷ l) (lower_letters to_lower cs lowers keeps letters))

level_name-letters : (sl : SeverityLevel) → All (λ c. IsUpper c ⊎ IsLower c) (level_name sl)
unfolding level_name
level_name-letters notification = search arith
level_name-letters warning = search arith
level_name-letters error = search arith

abbrev severity_of : List ℕ → SeverityLevel
severity_of txt =
    let sl = if bytes_eq txt warning_text then warning else notification in
    if bytes_eq txt error_text then error else sl

convert_lowered :
    (sl : SeverityLevel) (to_lower : ℕ → ℕ)
    → map to_lower (level_name sl) ≡ map ascii_lower (level_name sl)
    → convert_str_to_severity to_lower (level_name sl) ≡ sl
unfolding convert_str_to_severity level_name bytes_eq
convert_lowered notification to_lower e = ap severity_of e
convert_lowered warning to_lower e = ap severity_of e
convert_lowered error to_lower e = ap severity_of e

-- The name that is printed for a severity is read back as that severity, where `tolower` maps the
-- capital letters of ASCII to the small ones and keeps these.
pub convert_str_to_severity-level_name :
    (to_lower : ℕ → ℕ) (sl : SeverityLevel)
    → ((c : ℕ) → 65 ≤ c → c ≤ 90 → to_lower c ≡ c + 32)
    → ((c : ℕ) → 97 ≤ c → c ≤ 122 → to_lower c ≡ c)
    → convert_str_to_severity to_lower (level_name sl) ≡ sl
convert_str_to_severity-level_name to_lower sl lowers keeps =
    convert_lowered sl to_lower
      (lower_letters to_lower (level_name sl) lowers keeps (level_name-letters sl))
