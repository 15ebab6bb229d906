-- ===== src/Fs/Files/Opening.antt =====
-- `addZippedDir` finds the end record and the directory of an archive that `createZIP` has written.
use packaged_task.Base.{
  ℕ, suc, ◌+◌, ◌-◌, ◌%◌, ◌^◌, ◌<◌, ◌≡◌, refl, ap, sym, ◌∙◌, List, [], ◌∷◌, ◌++◌, length, drop,
  replicate, All, drop-append, length-append, arith, append_assoc, append-nil, true, false, ◌==◌,
  ==_ne,
}
use packaged_task.Base.Bytes.{le_bytes, from_le, byte_sizes}
use packaged_task.Fs.ZipFormat.{Eocd, eocd_bytes, eocd_of, size_of_eocd, size_of_central}
use packaged_task.Fs.ZipFormat.Codec.{eocd_of-eocd_bytes}
use packaged_task.Fs.Stream.{seek, tell, read_into}
use packaged_task.Fs.Archive.{Zlib, File, uncompressed_data, eocd_signature, end_record, create_zip}
use packaged_task.Fs.Archive.Layout.{records_of, directory_of, create_zip_lem}
use packaged_task.Fs.Files.{find_eocd, read_directory, read_from_eocd, add_zipped_dir}
use packaged_task.Fs.Stream.Reading.{at, read_whole, drop-drop, length-replicate}
use packaged_task.Fs.Files.Listing.{listed, read_directory_lem, directory_entry-size}

eocd_bytes-size : (h : Eocd) → length (eocd_bytes h) ≡ size_of_eocd
unfolding eocd_bytes le_bytes
eocd_bytes-size h = refl

module _ (bytes : List ℕ) where
  -- A round of the backward search, at four bytes that are not the signature, and at the signature.
  search_on :
      (m p b₀ b₁ b₂ b₃ : ℕ) (rest : List ℕ)
      → drop (suc m) bytes ≡ b₀ ∷ b₁ ∷ b₂ ∷ b₃ ∷ rest
      → (from_le (b₀ ∷ b₁ ∷ b₂ ∷ b₃ ∷ []) == eocd_signature) ≡ false
      → find_eocd (suc m) (at bytes p) ≡ find_eocd m (at bytes (suc m + 4))
  unfolding find_eocd seek tell
  search_on m p b₀ b₁ b₂ b₃ rest here other =
      rw
        (
          read_whole 4 (suc m) (0 ∷ 0 ∷ 0 ∷ 0 ∷ []) bytes (b₀ ∷ b₁ ∷ b₂ ∷ b₃ ∷ []) rest here refl
              (omega arith),
          other,
        )
        refl

  search_ends :
      (m p b₀ b₁ b₂ b₃ : ℕ) (rest : List ℕ)
      → drop (suc m) bytes ≡ b₀ ∷ b₁ ∷ b₂ ∷ b₃ ∷ rest
      → (from_le (b₀ ∷ b₁ ∷ b₂ ∷ b₃ ∷ []) == eocd_signature) ≡ true
      → find_eocd (suc m) (at bytes p) ≡ (suc m + 4, at bytes (suc m + 4))
  unfolding find_eocd seek tell
  search_ends m p b₀ b₁ b₂ b₃ rest here same =
      rw
        (
          read_whole 4 (suc m) (0 ∷ 0 ∷ 0 ∷ 0 ∷ []) bytes (b₀ ∷ b₁ ∷ b₂ ∷ b₃ ∷ []) rest here refl
              (omega arith),
          same,
        )
        refl

-- An end record without disks and comment, and the bytes of it and its signature.
abbrev pub eocd_with : (count total place : ℕ) → Eocd
eocd_with count total place = record {
  disk_number = 0;
  start_disk_number = 0;
  number_central_directory_record = count;
  total_central_directory_record = count;
  size_of_central_directory = total;
  central_directory_offset = place;
  comment_length = 0;
}

abbrev pub ending : (count total place : ℕ) → List ℕ
ending count total place = le_bytes 4 eocd_signature ++ eocd_bytes (eocd_with count total place)

pub length-ending : (count total place : ℕ) → length (ending count total place) ≡ 22
unfolding le_bytes eocd_bytes
length-ending count total place = refl

-- Such an end record behind `m + 1` bytes.
module _ (front : List ℕ) (m : ℕ) (size : length front ≡ suc m) (count total place : ℕ) where
  abbrev whole : List ℕ
  whole = front ++ ending count total place

  at_ending : (n k : ℕ) → n ≡ suc m + k → drop n whole ≡ drop k (ending count total place)
  at_ending n k e =
      ap (λ i. drop i whole) e
      ∙ drop-drop (suc m) k whole
      ∙ ap (drop k)
          (ap (λ i. drop i whole) (sym size) ∙ drop-append front (ending count total place))

  -- The search from 18 bytes before the end takes five rounds.
  find_eocd_lem :
      find_eocd (suc (suc (suc (suc (suc m))))) (at whole 0) ≡ (suc m + 4, at whole (suc m + 4))
  unfolding le_bytes from_le eocd_bytes
  find_eocd_lem =
      search_on whole (suc (suc (suc (suc m)))) 0 0 0 0 0 _
        (at_ending (suc (suc (suc (suc (suc m))))) 4 (omega arith)) refl
      ∙ search_on whole (suc (suc (suc m))) _ 6 0 0 0 _
          (at_ending (suc (suc (suc (suc m)))) 3 (omega arith)) refl
      ∙ search_on whole (suc (suc m)) _ 5 6 0 0 _ (at_ending (suc (suc (suc m))) 2 (omega arith))
          refl
      ∙ search_on whole (suc m) _ 75 5 6 0 _ (at_ending (suc (suc m)) 1 (omega arith)) refl
      ∙ search_ends whole m _ 80 75 5 6 _ (at_ending (suc m) 0 (omega arith)) refl

  pub eocd_found :
      suc m + 22 < 2 ^ 64
      → find_eocd ((length whole + 2 ^ 64 - size_of_eocd) % 2 ^ 64) (at whole 0)
        ≡ (suc m + 4, at whole (suc m + 4))
  eocd_found room =
      let long : length whole ≡ suc m + 22 =
        omega (byte_sizes, length-ending count total place, size) in
      let start : (length whole + 2 ^ 64 - size_of_eocd) % 2 ^ 64 ≡ suc (suc (suc (suc (suc m)))) =
        omega (arith, long) in
      ap (λ n. find_eocd n (at whole 0)) start ∙ find_eocd_lem

  eocd_here : drop (suc m + 4) whole ≡ eocd_bytes (eocd_with count total place) ++ []
  unfolding le_bytes
  eocd_here =
      at_ending (suc m + 4) 4 refl ∙ sym (append-nil (eocd_bytes (eocd_with count total place)))

  pub eocd_read :
      read_into size_of_eocd (replicate size_of_eocd 0) (at whole (suc m + 4))
      ≡ (eocd_bytes (eocd_with count total place) ++ [], at whole (suc m + 4 + size_of_eocd))
  eocd_read =
      read_whole size_of_eocd (suc m + 4) (replicate size_of_eocd 0) whole
        (eocd_bytes (eocd_with count total place)) [] eocd_here
        (eocd_bytes-size (eocd_with count total place)) (omega arith)

pub eocd_known :
    (count total place : ℕ)
    → count < 2 ^ 16
    → total < 2 ^ 32
    → place < 2 ^ 32
    → eocd_of (eocd_bytes (eocd_with count total place) ++ []) ≡ eocd_with count total place
eocd_known count total place few small near =
    eocd_of-eocd_bytes (eocd_with count total place) [] (record {
      disks = (omega arith, omega arith);
      counts = (few, few);
      directory = (small, near);
      comment = omega arith;
    })

-- Where the pieces of an archive of at least one file lie.
module _ (z : Zlib) (f : File) (fs : List File) where
  -- The records and the directory.
  abbrev pub front_of : List ℕ
  front_of = records_of z (f ∷ fs) ++ directory_of z 0 (f ∷ fs)

  abbrev pub count_of : ℕ
  count_of = length (f ∷ fs) % 2 ^ 16

  abbrev pub total_of : ℕ
  total_of = (length front_of % 2 ^ 32 + 2 ^ 32 - length (records_of z (f ∷ fs)) % 2 ^ 32) % 2 ^ 32

  abbrev pub place_of : ℕ
  place_of = length (records_of z (f ∷ fs)) % 2 ^ 32

  pub create_zip-ending : create_zip z (f ∷ fs) ≡ front_of ++ ending count_of total_of place_of
  unfolding end_record
  create_zip-ending =
      create_zip_lem z (f ∷ fs)
      ∙ sym (append_assoc (records_of z (f ∷ fs)) (directory_of z 0 (f ∷ fs)) _)

  -- What the size of the archive bounds.
  pub front_size :
      (length front_of ≡ suc (length front_of - 1))
      × (length (create_zip z (f ∷ fs)) ≡ length front_of + 22)
      × (length front_of ≡ length (records_of z (f ∷ fs)) + length (directory_of z 0 (f ∷ fs)))
  front_size =
      let split = length-append (records_of z (f ∷ fs)) (directory_of z 0 (f ∷ fs)) in
      (
        omega (byte_sizes, split, directory_entry-size z 0 f),
        ap length create_zip-ending ∙ omega (byte_sizes, length-ending count_of total_of place_of),
        split,
      )

  pub directory_here :
      drop (length (records_of z (f ∷ fs))) (front_of ++ ending count_of total_of place_of)
      ≡ directory_of z 0 (f ∷ fs) ++ ending count_of total_of place_of
  directory_here =
      ap (drop (length (records_of z (f ∷ fs))))
        (append_assoc (records_of z (f ∷ fs)) (directory_of z 0 (f ∷ fs)) _)
      ∙ drop-append (records_of z (f ∷ fs)) _

  add_zipped_dir_opens :
      (archive : List ℕ)
      → length (create_zip z (f ∷ fs)) < 2 ^ 32
      → add_zipped_dir archive (front_of ++ ending count_of total_of place_of)
        ≡ read_directory archive count_of
            (replicate size_of_central 0)
            (at (front_of ++ ending count_of total_of place_of) place_of)
  unfolding add_zipped_dir read_from_eocd seek
  add_zipped_dir_opens archive room =
      let m = length front_of - 1 in
      let (size, long, split) = front_size in
      rw
        (
          eocd_found front_of m size count_of total_of place_of (omega (arith, long, size, room)),
          eocd_read front_of m size count_of total_of place_of,
          eocd_known count_of total_of place_of (omega arith) (omega arith) (omega arith),
          ==_ne (suc m + 4) 0 (λ e. omega (arith, e)),
        )
        refl

-- What `createZIP` writes for at least one file, `addZippedDir` reads: it lists each file, in order,
-- with its name up to the first null byte, its sizes, and the position of its record. The archive has
-- to be below 2 ^ 32 bytes with fewer than 2 ^ 16 files, and a checksum to fit 32 bits.
pub add_zipped_dir-create_zip :
    (z : Zlib) (archive : List ℕ) (f : File) (fs : List File)
    → All (λ g. z.crc32 (uncompressed_data g) < 2 ^ 32) (f ∷ fs)
    → length (f ∷ fs) < 2 ^ 16
    → length (create_zip z (f ∷ fs)) < 2 ^ 32
    → add_zipped_dir archive (create_zip z (f ∷ fs)) ≡ listed z archive 0 (f ∷ fs)
add_zipped_dir-create_zip z archive f fs sums few room =
    let (size, long, split) = front_size z f fs in
    let bytes = front_of z f fs ++ ending (count_of z f fs) (total_of z f fs) (place_of z f fs) in
    let buffer : List ℕ = replicate size_of_central 0 in
    let first = length (records_of z (f ∷ fs)) in
    let few' : count_of z f fs ≡ length (f ∷ fs) = omega (arith, few) in
    let near : place_of z f fs ≡ first = omega (arith, room, long, split) in
    ap (add_zipped_dir archive) (create_zip-ending z f fs)
    ∙ add_zipped_dir_opens z f fs archive room
    ∙ ap (λ n. read_directory archive n buffer (at bytes (place_of z f fs))) few'
    ∙ ap (λ n. read_directory archive (length (f ∷ fs)) buffer (at bytes n)) near
    ∙ read_directory_lem z archive (f ∷ fs) 0 first buffer bytes
        (ending (count_of z f fs) (total_of z f fs) (place_of z f fs)) sums
        (length-replicate size_of_central 0) (directory_here z f fs)
