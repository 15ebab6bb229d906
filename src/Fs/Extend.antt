-- ===== src/Fs/Extend.antt =====
-- `FileSystem::addFileToZIP` (src/fs/file_system.cpp): a record and a directory entry are put into an
-- archive, over the old directory. The stream is opened for reading and writing.
pub mod Names
pub mod Pieces
pub mod Rewritten
pub mod Appended
use packaged_task.Base.{
  ℕ, zero, suc, ◌+◌, ◌-◌, ◌%◌, ◌^◌, List, [], ◌∷◌, length, take, replicate, Bool, true, false, not,
  ◌==◌, Option, none, some, if◌then◌else◌,
}
use packaged_task.Base.Bytes.{le_bytes, bytes_eq}
use packaged_task.Fs.Stream.{FileStream, opened, seek, tell, read_into, put_all}
use packaged_task.Fs.ZipFormat.{
  Eocd, eocd_of, eocd_bytes, central_of, central_bytes, local_bytes, size_of_eocd, size_of_central,
}
use packaged_task.Fs.Archive.{
  Zlib, File, eocd_signature, central_signature, stored_data, local_header, file_info,
  central_header,
}
use packaged_task.Fs.Files.{find_eocd, read_name}

-- A name is pushed if its header has a length.
unfoldable pub keep_name :
    (filename_length : ℕ) (name : List ℕ)
    → Option (List (List ℕ) × FileStream)
    → Option (List (List ℕ) × FileStream)
keep_name filename_length name none = none
keep_name filename_length name (some (names, s)) =
    some ((if filename_length == 0 then names else name ∷ names), s)

-- The names in the directory, and the stream behind it; `none` at a wrong signature. Each round has a
-- cleared header, and skips neither an extra field nor a comment. A name that is cut short by the end
-- of the file is filled with zeros here; the source leaves that memory as it was.
unfoldable pub read_names : (count : ℕ) → FileStream → Option (List (List ℕ) × FileStream)
read_names zero s = some ([], s)
read_names (suc count) s =
    let (buffer, s₁) = read_into size_of_central (replicate size_of_central 0) s in
    let h = central_of buffer in
    let (name, s₂) = read_name h.filename_length s₁ in
    let rest = read_names count s₂ in
    if not (h.signature == central_signature) then none else keep_name h.filename_length name rest

-- `std::find_if` over `zip_fnames`.
unfoldable pub has_name : List ℕ → List (List ℕ) → Bool
has_name name [] = false
has_name name (n ∷ ns) = if bytes_eq name n then true else has_name name ns

-- The end record with one more file and the new place and size of the directory.
unfoldable pub extended_eocd : Eocd → (first last : ℕ) → Eocd
extended_eocd eocd first last = record eocd {
  central_directory_offset = first;
  number_central_directory_record = (eocd.number_central_directory_record + 1) % 2 ^ 16;
  total_central_directory_record = (eocd.total_central_directory_record + 1) % 2 ^ 16;
  size_of_central_directory = (last + 2 ^ 32 - first) % 2 ^ 32;
}

-- The writes, from `lfhOffset` on. The local header is filled in as in `createZIP`.
unfoldable pub write_extended : Zlib → File → Eocd → (directory : List ℕ) → FileStream → FileStream
write_extended z f eocd directory s =
    let h = central_header f (file_info z (tell s) f) in
    let s₁ = put_all (local_bytes (local_header z f) ∷ f.name ∷ stored_data z f ∷ []) s in
    let s₂ = put_all (directory ∷ central_bytes h ∷ take h.filename_length f.name ∷ []) s₁ in
    let s₃ =
      put_all
        (le_bytes 4 eocd_signature
          ∷ eocd_bytes (extended_eocd eocd (tell s₁ % 2 ^ 32) (tell s₂ % 2 ^ 32))
          ∷ [])
        s₂ in
    s₃

-- The search for the name, and the writes.
unfoldable pub write_if_new :
    Zlib
    → File
    → (bytes : List ℕ) → Eocd
    → (directory : List ℕ) → Option (List (List ℕ) × FileStream)
    → List ℕ × Bool
write_if_new z f bytes eocd directory none = (bytes, false)
write_if_new z f bytes eocd directory (some (zip_fnames, s)) =
    if has_name f.name zip_fnames
    then (bytes, false)
    else ((write_extended z f eocd directory (seek eocd.central_directory_offset s)).bytes, true)

-- What is left when the end record has been found: the directory is read as it is, then name by name.
unfoldable pub extend_at :
    Zlib → File → (bytes : List ℕ) → (eocd_offset : ℕ) → FileStream → List ℕ × Bool
extend_at z f bytes eocd_offset s =
    let (buffer, s₁) = read_into size_of_eocd (replicate size_of_eocd 0) (seek eocd_offset s) in
    let eocd = eocd_of buffer in
    let (directory, s₂) =
      read_into eocd.size_of_central_directory (replicate eocd.size_of_central_directory 0)
        (seek eocd.central_directory_offset s₁) in
    write_if_new z f bytes eocd directory
      (read_names eocd.number_central_directory_record (seek eocd.central_directory_offset s₂))

-- `addFileToZIP` on an archive that could be opened: what it then holds, and the value returned.
unfoldable pub add_file_to_zip : Zlib → File → (bytes : List ℕ) → List ℕ × Bool
add_file_to_zip z f bytes =
    let start = (length bytes + 2 ^ 64 - size_of_eocd) % 2 ^ 64 in
    let (eocd_offset, s) = find_eocd start (opened bytes) in
    if eocd_offset == 0 then (bytes, false) else extend_at z f bytes eocd_offset s
