-- ===== src/Fs/Stream/Reading.antt =====
-- Reads within the bytes of a stream that has not failed.
use packaged_task.Base.{
  ℕ, zero, suc, ◌+◌, ◌<◌, ◌≤◌, ◌≡◌, refl, ap, sym, ◌∙◌, List, [], ◌∷◌, ◌++◌, length, take, drop,
  replicate, take-append, drop-append, arith, append-nil, true, le→ltb,
}
use packaged_task.Base.Bytes.{byte_sizes}
use packaged_task.Fs.Stream.{FileStream, seek, read_into}

-- A stream that has not failed.
abbrev pub at : List ℕ → ℕ → FileStream
at bytes position = record { bytes = bytes; position = position; good = true }

pub drop-nil : (n : ℕ) → drop {A = ℕ} n [] ≡ []
drop-nil zero = refl
drop-nil (suc n) = refl

pub drop-all : (n : ℕ) (xs : List ℕ) → length xs ≡ n → drop n xs ≡ []
drop-all n xs e = rw (sym e) (ap (drop (length xs)) (sym (append-nil xs)) ∙ drop-append xs [])

pub drop-drop : (p n : ℕ) (bytes : List ℕ) → drop (p + n) bytes ≡ drop n (drop p bytes)
drop-drop zero n bytes = ap (λ k. drop k bytes) (omega arith)
drop-drop (suc p) n [] = drop-nil (suc p + n) ∙ sym (drop-nil n)
drop-drop (suc p) n (b ∷ bs) =
    let further : suc p + n ≡ suc (p + n) = omega arith in
    ap (λ k. drop k (b ∷ bs)) further ∙ drop-drop p n bs

pub read_whole :
    (count p : ℕ) (old bytes data' rest : List ℕ)
    → drop p bytes ≡ data' ++ rest
    → length data' ≡ count
    → 0 < count
    → read_into count old (at bytes p) ≡ (data' ++ drop count old, at bytes (p + count))
unfolding read_into
read_whole count p old bytes data' rest here size some_bytes =
    let enough : p + count ≤ length bytes = omega (byte_sizes, ap length here) in
    let there : take count (drop p bytes) ≡ data' = rw (here, sym size) (take-append data' rest) in
    rw (le→ltb _ _ enough, there) refl

pub behind :
    (count p : ℕ) (bytes data' rest : List ℕ)
    → drop p bytes ≡ data' ++ rest
    → length data' ≡ count
    → drop (p + count) bytes ≡ rest
behind count p bytes data' rest here size =
    drop-drop p count bytes ∙ rw (here, sym size) (drop-append data' rest)

pub length-replicate : (n b : ℕ) → length (replicate n b) ≡ n
length-replicate zero b = refl
length-replicate (suc n) b = ap suc (length-replicate n b)

pub seek_lem : (n p : ℕ) (bytes : List ℕ) → seek n (at bytes p) ≡ at bytes n
unfolding seek
seek_lem n p bytes = refl
