-- ===== src/Log/Printf.antt =====
-- `cstr_log` of src/log/log.cpp. `vsnprintf` and `vswprintf` are parameters, over what a format and
-- its arguments are.
use packaged_task.Base.{
  ℕ, zero, suc, ◌-◌, ◌<◌, ◌≡◌, ap, ◌∙◌, List, [], ◌∷◌, ◌++◌, length, take, length-take, replicate,
  drop, arith, ◌*◌, ltb, if◌then◌else◌, Option, none, some, length-append, length-drop, refl,
}
use packaged_task.Base.Text.{c_str, c_str-append, IsText}

-- `LOG_MAX_STRING`
abbrev pub log_max_string : ℕ
log_max_string = 1024

-- A call of `vsnprintf` or `vswprintf`: a buffer of a size, before and after.
abbrev pub Printf : Type 0 → Type 0
Printf F = (size : ℕ) → F → List ℕ → List ℕ

-- `char buffer[LOG_MAX_STRING] = {}`
unfoldable pub cleared : List ℕ
cleared = replicate log_max_string 0

take-IsText : (n : ℕ) (xs : List ℕ) → IsText xs → IsText (take n xs)
take-IsText zero xs clean = tt
take-IsText (suc n) [] clean = tt
take-IsText (suc n) (x ∷ xs) (here, clean) = (here, take-IsText n xs clean)

module _ {F : Type 0} (printf : Printf F) where
  -- `cstr_log` for `char`: what stands in the buffer up to the null character.
  unfoldable pub cstr_log : F → List ℕ
  cstr_log format = c_str (printf log_max_string format cleared)

  -- What the documentation says of a formatted text: as much of it as fits, and a null character.
  abbrev pub Prints : (text : F → List ℕ) → F → Type 0
  Prints text f =
      (size : ℕ) (buffer : List ℕ)
      → 0 < size
      → (rest : List ℕ) × (printf size f buffer ≡ take (size - 1) (text f) ++ (0 ∷ rest))

  -- `cstr_log` gives the formatted text, of which it keeps the first 1023 characters. The text has
  -- no null character.
  pub cstr_log_lem :
      (text : F → List ℕ) (format : F)
      → Prints text format
      → IsText (text format)
      → (cstr_log format ≡ take 1023 (text format)) × (length (cstr_log format) < log_max_string)
  unfolding cstr_log
  cstr_log_lem text format prints clean =
      let (rest, printed) = prints log_max_string cleared (omega arith) in
      let kept : cstr_log format ≡ take 1023 (text format) =
        ap c_str printed
        ∙ c_str-append (take 1023 (text format)) rest (take-IsText 1023 (text format) clean) in
      (kept, let size = ap length kept in let cut = length-take 1023 (text format) in omega arith)

-- `sizeof(buffer)` of the wide overload: that many bytes, which are passed on as a number of wide
-- characters. `wchar_size` is `sizeof(wchar_t)`.
abbrev pub wide_size : (wchar_size : ℕ) → ℕ
wide_size wchar_size = log_max_string * wchar_size

module _ {F : Type 0} (printf : Printf F) (wchar_size : ℕ) where
  -- `cstr_log` for `wchar_t`: `none` is a write beyond the buffer.
  unfoldable pub cstr_log_wide : F → Option (List ℕ)
  cstr_log_wide format =
      let buffer = printf (wide_size wchar_size) format cleared in
      if ltb log_max_string (length buffer) then none else some (c_str buffer)

  -- What the documentation says of a formatted text that is shorter than the size: the text, a null
  -- character, and what else was in the buffer.
  abbrev pub PrintsAll : (text : F → List ℕ) → F → Type 0
  PrintsAll text f =
      (size : ℕ) (buffer : List ℕ)
      → length (text f) < size
      → printf size f buffer ≡ text f ++ (0 ∷ drop (suc (length (text f))) buffer)

  length-replicate : (n a : ℕ) → length (replicate n a) ≡ n
  length-replicate zero a = refl
  length-replicate (suc n) a = ap suc (length-replicate n a)

  wide_written :
      (n : ℕ) (text : List ℕ)
      → n ≡ log_max_string
      → length (text ++ (0 ∷ drop (suc (length text)) (replicate n 0)))
        ≡ (if ltb (length text) log_max_string then log_max_string else suc (length text))
  wide_written n text e = ground (
    arith,
    length-append text (0 ∷ drop (suc (length text)) (replicate n 0)),
    length-drop {A = ℕ} (suc (length text)) (replicate n 0),
    length-replicate n 0,
  )

  -- The wide overload gives a formatted text of fewer than 1024 characters whole. It writes beyond
  -- its buffer for every longer one that is shorter than the size that it passes on, the number of
  -- bytes of the buffer. The text has no null character.
  pub cstr_log_wide_lem :
      (text : F → List ℕ) (format : F)
      → PrintsAll text format
      → IsText (text format)
      → length (text format) < wide_size wchar_size
      → cstr_log_wide format
        ≡ (if ltb (length (text format)) log_max_string then some (text format) else none)
  unfolding cstr_log_wide cleared
  cstr_log_wide_lem text format prints clean short =
      let buffer = printf (wide_size wchar_size) format (replicate log_max_string 0) in
      let printed = prints (wide_size wchar_size) (replicate log_max_string 0) short in
      let kept : c_str buffer ≡ text format =
        ap c_str printed
        ∙ c_str-append (text format)
            (drop (suc (length (text format))) (replicate log_max_string 0)) clean in
      let size : length buffer ≡ (
          if ltb (length (text format)) log_max_string
          then log_max_string
          else suc (length (text format))) =
        ap length printed ∙ wide_written log_max_string (text format) refl in
      ground (arith, size, kept)

-- `cstr_log` for `char` gives the formatted text, of which it keeps the first 1023 characters. For
-- `wchar_t` it gives a text of fewer than 1024 characters whole, and writes beyond its buffer for
-- every longer one that is shorter than the size that it passes on, the number of bytes of the
-- buffer. The texts have no null character.
pub cstr_log-cstr_log_wide :
    {F G : Type 0} (printf : Printf F) (wprintf : Printf G) (wchar_size : ℕ) (text : F → List ℕ)
    (wtext : G → List ℕ) (format : F) (wformat : G)
    → Prints printf text format
    → IsText (text format)
    → PrintsAll wprintf wchar_size wtext wformat
    → IsText (wtext wformat)
    → length (wtext wformat) < wide_size wchar_size
    → (cstr_log printf format ≡ take 1023 (text format))
      × (cstr_log_wide wprintf wchar_size wformat
          ≡ (if ltb (length (wtext wformat)) log_max_string then some (wtext wformat) else none))
cstr_log-cstr_log_wide printf wprintf wchar_size text wtext format wformat prints clean wprints
      wclean short =
    (
      (cstr_log_lem printf text format prints clean).0,
      cstr_log_wide_lem wprintf wchar_size wtext wformat wprints wclean short,
    )
