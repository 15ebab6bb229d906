-- ===== src/Fs/Extend/Names.antt =====
-- The names that `addFileToZIP` reads from the directory of an archive that `createZIP` has written.
use packaged_task.Base.{
  ℕ, suc, ◌+◌, ◌%◌, ◌^◌, ◌<◌, ◌≡◌, refl, List, [], ◌∷◌, ◌++◌, length, take, drop, replicate, All,
  true, ◌==◌, some, if◌then◌else◌,
}
use packaged_task.Fs.Stream.{FileStream, read_into}
use packaged_task.Fs.Stream.Reading.{at, length-replicate}
use packaged_task.Fs.ZipFormat.{CentralDirectoryFileHeader, central_of, size_of_central}
use packaged_task.Fs.Archive.{
  Zlib, File, uncompressed_data, central_signature, local_record, file_info, central_header,
}
use packaged_task.Fs.Archive.Layout.{directory_entry, directory_of}
use packaged_task.Fs.Files.{c_string, read_name}
use packaged_task.Fs.Files.Listing.{entry_read, next_entry}
use packaged_task.Fs.Extend.{keep_name, read_names}

-- The names under which the files are listed; a name of no bytes is not.
abbrev pub names_of : List File → List (List ℕ)
names_of [] = []
names_of (f ∷ fs) =
    if length f.name % 2 ^ 16 == 0
    then names_of fs
    else c_string (take (length f.name % 2 ^ 16) f.name) ∷ names_of fs

-- A round of the loop at a header with the signature.
names_step :
    (count : ℕ) (s : FileStream) (h : CentralDirectoryFileHeader) (names : List (List ℕ))
    {bytes name : List ℕ} {s₁ s₂ s₃ : FileStream}
    → read_into size_of_central (replicate size_of_central 0) s ≡ (bytes, s₁)
    → central_of bytes ≡ h
    → read_name h.filename_length s₁ ≡ (name, s₂)
    → (h.signature == central_signature) ≡ true
    → read_names count s₂ ≡ some (names, s₃)
    → read_names (suc count) s ≡ some ((if h.filename_length == 0 then names else name ∷ names), s₃)
unfolding read_names keep_name
names_step count s h names read header name_read signed rest =
    rw (read, header, name_read, signed, rest) refl

module _ (z : Zlib) where
  -- A round at the entry of a file.
  names_round :
      (count offset p : ℕ) (bytes rest : List ℕ) (f : File) (names : List (List ℕ)) (s : FileStream)
      → z.crc32 (uncompressed_data f) < 2 ^ 32
      → drop p bytes ≡ directory_entry z offset f ++ rest
      → read_names count (at bytes (p + size_of_central + length f.name % 2 ^ 16)) ≡ some (names, s)
      → read_names (suc count) (at bytes p)
        ≡ some (
          (if length f.name % 2 ^ 16 == 0
              then names
              else c_string (take (length f.name % 2 ^ 16) f.name) ∷ names),
          s,
        )
  unfolding central_header
  names_round count offset p bytes rest f names s sum here others =
      let (header_read, header, name_read) =
        entry_read z offset p (replicate size_of_central 0) bytes rest f sum
          (length-replicate size_of_central 0) here in
      names_step count (at bytes p) (central_header f (file_info z offset f)) names header_read
        header name_read refl others

  -- The loop over a directory that lies in the stream ends behind it.
  pub read_names_lem :
      (fs : List File) (offset p : ℕ) (bytes rest : List ℕ)
      → All (λ f. z.crc32 (uncompressed_data f) < 2 ^ 32) fs
      → drop p bytes ≡ directory_of z offset fs ++ rest
      → (q : ℕ) × (read_names (length fs) (at bytes p) ≡ some (names_of fs, at bytes q))
  unfolding read_names
  read_names_lem [] offset p bytes rest sums here = (p, refl)
  read_names_lem (f ∷ fs) offset p bytes rest sums here =
      let (here', there) = next_entry z offset p bytes rest f fs here in
      let (q, others) =
        read_names_lem fs (offset + length (local_record z f))
          (p + size_of_central + length f.name % 2 ^ 16) bytes rest sums.1 there in
      (q, names_round (length fs) offset p bytes _ f (names_of fs) (at bytes q) sums.0 here' others)
