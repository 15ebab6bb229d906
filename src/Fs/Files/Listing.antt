-- ===== src/Fs/Files/Listing.antt =====
-- What `addZippedDir` lists of an archive that `createZIP` has written.
use packaged_task.Base.{
  ℕ, zero, suc, ◌+◌, ◌%◌, ◌^◌, ◌<◌, ◌≡◌, refl, ap, sym, ◌∙◌, List, [], ◌∷◌, ◌++◌, length, take,
  drop, replicate, All, arith, append_assoc, append-nil, Bool-cases, false, ◌⊎◌, inl, inr, leb,
}
use packaged_task.Base.Bytes.{le_bytes, byte_sizes}
use packaged_task.Fs.DosTime.{get_dos_time}
use packaged_task.Fs.ZipFormat.{
  CentralDirectoryFileHeader, central_bytes, central_of, size_of_central,
}
use packaged_task.Fs.ZipFormat.Codec.{FitsCentral, central_of-central_bytes}
use packaged_task.Fs.Stream.{FileStream, skip, read_into}
use packaged_task.Fs.Stream.Reading.{at, drop-all, read_whole, behind, length-replicate}
use packaged_task.Fs.Archive.{
  Zlib, File, stored_size, stored_method, uncompressed_data, local_record, file_info,
  central_header, deflated_method,
}
use packaged_task.Fs.Archive.Layout.{directory_entry, directory_of}
use packaged_task.Fs.Files.{
  FileData, c_string, zipped_file, read_name, refuses, unsupported, read_directory,
}

pub read_name_lem :
    (n p : ℕ) (bytes name rest : List ℕ)
    → drop p bytes ≡ name ++ rest
    → length name ≡ n
    → read_name n (at bytes p) ≡ (c_string name, at bytes (p + n))
unfolding read_name c_string
read_name_lem zero p bytes [] rest here size = ap (λ k. ([], at bytes k)) (omega arith)
read_name_lem zero p bytes (b ∷ name) rest here size = absurd (omega (arith, size))
read_name_lem (suc n) p bytes name rest here size =
    rw
      (
        read_whole (suc n) p (replicate (suc n) 0) bytes name rest here size (omega arith),
        drop-all (suc n) (replicate (suc n) 0) (length-replicate (suc n) 0),
        append-nil name,
      )
      refl

pub skip_none : (p : ℕ) (bytes : List ℕ) → skip 0 (at bytes p) ≡ at bytes p
unfolding skip
skip_none p bytes = ap (at bytes) (omega arith)

pub central_bytes-size :
    (h : CentralDirectoryFileHeader) → length (central_bytes h) ≡ size_of_central
unfolding central_bytes le_bytes
central_bytes-size h = refl

pub name_size : (f : File) → length (take (length f.name % 2 ^ 16) f.name) ≡ length f.name % 2 ^ 16
name_size f = omega byte_sizes

-- A round of the loop at a header that is accepted.
directory_step :
    (archive : List ℕ) (count : ℕ) (buffer : List ℕ) (s : FileStream)
    (h : CentralDirectoryFileHeader) {bytes name : List ℕ} {s₁ s₂ : FileStream}
    → read_into size_of_central buffer s ≡ (bytes, s₁)
    → central_of bytes ≡ h
    → read_name h.filename_length s₁ ≡ (name, s₂)
    → refuses h ≡ false
    → unsupported h ≡ false
    → skip h.file_comment_length (skip h.extra_field_length s₂) ≡ s₂
    → read_directory archive (suc count) buffer s
      ≡ zipped_file archive name h ++ read_directory archive count bytes s₂
unfolding read_directory
directory_step archive count buffer s h read header name_read accepted supported skipped =
    rw (read, header, name_read, accepted, supported, skipped) refl

module _ (z : Zlib) where
  pub stored_size-IsU32 : (f : File) → stored_size z f < 2 ^ 32
  unfolding stored_size
  stored_size-IsU32 f = ground arith

  pub stored_method_cases :
      (f : File) → (stored_method z f ≡ 0) ⊎ (stored_method z f ≡ deflated_method)
  unfolding stored_method
  stored_method_cases f =
      elim (Bool-cases
        (leb (length f.contents % 2 ^ 32) (length (z.deflated (uncompressed_data f))))) [
          | inl e ↦ inl (rw e refl)
          | inr e ↦ inr (rw e refl)
        ]

  pub central_header-FitsCentral :
      (offset : ℕ) (f : File)
      → z.crc32 (uncompressed_data f) < 2 ^ 32
      → FitsCentral (central_header f (file_info z offset f))
  unfolding central_header file_info get_dos_time
  central_header-FitsCentral offset f sum =
      let size = stored_size-IsU32 f in
      let method : stored_method z f < 2 ^ 16 = elim (stored_method_cases f) [
        | inl e ↦ omega (arith, e)
        | inr e ↦ omega (arith, e)
      ] in
      record {
        signature = omega arith;
        versions = (omega arith, omega arith);
        method = (omega arith, method);
        moment = (omega arith, omega arith);
        sum = sum;
        sizes = (size, omega arith);
        lengths = (omega arith, omega arith, omega arith);
        place = (omega arith, omega arith, omega arith, omega arith);
      }

  central_header-refuses :
      (offset : ℕ) (f : File) → refuses (central_header f (file_info z offset f)) ≡ false
  unfolding central_header refuses
  central_header-refuses offset f = refl

  central_header-unsupported :
      (offset : ℕ) (f : File) → unsupported (central_header f (file_info z offset f)) ≡ false
  unfolding central_header file_info unsupported
  central_header-unsupported offset f = elim (stored_method_cases f) [
    | inl e ↦ rw e refl
    | inr e ↦ rw e refl
  ]

  -- What the directory's entries of the files give.
  abbrev pub listed : (archive : List ℕ) → (offset : ℕ) → List File → List FileData
  listed archive offset [] = []
  listed archive offset (f ∷ fs) =
      zipped_file archive (c_string (take (length f.name % 2 ^ 16) f.name))
        (central_header f (file_info z offset f))
      ++ listed archive (offset + length (local_record z f)) fs

  -- What the reads of a round give at the entry of a file: the header and the name.
  pub entry_read :
      (offset p : ℕ) (buffer bytes rest : List ℕ) (f : File)
      → z.crc32 (uncompressed_data f) < 2 ^ 32
      → length buffer ≡ size_of_central
      → drop p bytes ≡ directory_entry z offset f ++ rest
      → (read_into size_of_central buffer (at bytes p) ≡ (
        central_bytes (central_header f (file_info z offset f)),
        at bytes (p + size_of_central),
      ))
        × (central_of (central_bytes (central_header f (file_info z offset f)))
            ≡ central_header f (file_info z offset f))
        × (read_name (length f.name % 2 ^ 16) (at bytes (p + size_of_central)) ≡ (
          c_string (take (length f.name % 2 ^ 16) f.name),
          at bytes (p + size_of_central + length f.name % 2 ^ 16),
        ))
  entry_read offset p buffer bytes rest f sum long here =
      let h = central_header f (file_info z offset f) in
      let name = take (length f.name % 2 ^ 16) f.name in
      let here' : drop p bytes ≡ central_bytes h ++ (name ++ rest) =
        here ∙ append_assoc (central_bytes h) name rest in
      let head_size : length (central_bytes h) ≡ size_of_central = central_bytes-size h in
      (
        read_whole size_of_central p buffer bytes (central_bytes h) (name ++ rest) here' head_size
              (omega arith)
            ∙ ap (λ b. (b, at bytes (p + size_of_central)))
                (ap (λ b. central_bytes h ++ b) (drop-all size_of_central buffer long)
                  ∙ append-nil (central_bytes h)),
        ap central_of (sym (append-nil (central_bytes h)))
            ∙ central_of-central_bytes h [] (central_header-FitsCentral offset f sum),
        read_name_lem (length f.name % 2 ^ 16) (p + size_of_central) bytes name rest
            (behind size_of_central p bytes (central_bytes h) (name ++ rest) here' head_size)
            (name_size f),
      )

  -- A round of the loop at the entry of a file.
  directory_round :
      (archive : List ℕ) (count offset p : ℕ) (buffer bytes rest : List ℕ) (f : File)
      → z.crc32 (uncompressed_data f) < 2 ^ 32
      → length buffer ≡ size_of_central
      → drop p bytes ≡ directory_entry z offset f ++ rest
      → read_directory archive (suc count) buffer (at bytes p)
        ≡ zipped_file archive
            (c_string (take (length f.name % 2 ^ 16) f.name))
            (central_header f (file_info z offset f))
          ++ read_directory archive count
              (central_bytes (central_header f (file_info z offset f)))
              (at bytes (p + size_of_central + length f.name % 2 ^ 16))
  unfolding central_header
  directory_round archive count offset p buffer bytes rest f sum long here =
      let (read, header, name_read) = entry_read offset p buffer bytes rest f sum long here in
      let behind_name = p + size_of_central + length f.name % 2 ^ 16 in
      directory_step archive count buffer (at bytes p) (central_header f (file_info z offset f))
        read header name_read (central_header-refuses offset f)
        (central_header-unsupported offset f)
        (ap (skip 0) (skip_none behind_name bytes) ∙ skip_none behind_name bytes)

  pub directory_entry-size :
      (offset : ℕ) (f : File)
      → length (directory_entry z offset f) ≡ size_of_central + length f.name % 2 ^ 16
  directory_entry-size offset f =
      let h = central_header f (file_info z offset f) in
      omega (byte_sizes, central_bytes-size h, name_size f)

  -- The first entry of a directory, and what stands behind it.
  pub next_entry :
      (offset p : ℕ) (bytes rest : List ℕ) (f : File) (fs : List File)
      → drop p bytes ≡ directory_of z offset (f ∷ fs) ++ rest
      → (drop p bytes
          ≡ directory_entry z offset f
            ++ (directory_of z (offset + length (local_record z f)) fs ++ rest))
        × (drop (p + size_of_central + length f.name % 2 ^ 16) bytes
            ≡ directory_of z (offset + length (local_record z f)) fs ++ rest)
  next_entry offset p bytes rest f fs here =
      let further = directory_of z (offset + length (local_record z f)) fs ++ rest in
      let here' : drop p bytes ≡ directory_entry z offset f ++ further =
        here ∙ append_assoc (directory_entry z offset f) _ rest in
      let place : p + (size_of_central + length f.name % 2 ^ 16)
          ≡ p + size_of_central + length f.name % 2 ^ 16 =
        omega arith in
      (
        here',
        ap (λ k. drop k bytes) (sym place)
            ∙ behind (size_of_central + length f.name % 2 ^ 16) p bytes (directory_entry z offset f)
                further here' (directory_entry-size offset f),
      )

  -- The loop over a directory that lies in the stream.
  pub read_directory_lem :
      (archive : List ℕ) (fs : List File) (offset p : ℕ) (buffer bytes rest : List ℕ)
      → All (λ f. z.crc32 (uncompressed_data f) < 2 ^ 32) fs
      → length buffer ≡ size_of_central
      → drop p bytes ≡ directory_of z offset fs ++ rest
      → read_directory archive (length fs) buffer (at bytes p) ≡ listed archive offset fs
  unfolding read_directory
  read_directory_lem archive [] offset p buffer bytes rest sums long here = refl
  read_directory_lem archive (f ∷ fs) offset p buffer bytes rest sums long here =
      let h = central_header f (file_info z offset f) in
      let (here', there) = next_entry offset p bytes rest f fs here in
      directory_round archive (length fs) offset p buffer bytes _ f sums.0 long here'
      ∙ ap (λ l. zipped_file archive (c_string (take (length f.name % 2 ^ 16) f.name)) h ++ l)
          (read_directory_lem archive fs (offset + length (local_record z f))
            (p + size_of_central + length f.name % 2 ^ 16) (central_bytes h) bytes rest sums.1
            (central_bytes-size h) there)
