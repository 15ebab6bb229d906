-- ===== src/Fs/Files.antt =====
-- The list of files of `FileSystem` (src/fs/file_system.h, src/fs/file_system.cpp): how an archive
-- is entered into it, and how a name is looked up and written. A name is a list of bytes.
pub mod Lookup
pub mod Listing
pub mod Opening
pub mod Entered
use Prim.Native.Nat.{bit_and}
use packaged_task.Base.{
  ℕ, zero, suc, ◌+◌, ◌-◌, ◌%◌, ◌^◌, List, [], ◌∷◌, ◌++◌, length, replicate, ltb, ◌==◌, Bool, true,
  false, not, ◌&&◌, ◌||◌, Option, none, some, if◌then◌else◌,
}
use packaged_task.Base.Bytes.{from_le, bytes_eq}
use packaged_task.Fs.Stream.{FileStream, opened, seek, skip, tell, read_into}
use packaged_task.Fs.ZipFormat.{
  Eocd, CentralDirectoryFileHeader, eocd_of, central_of, size_of_eocd, size_of_central,
}
use packaged_task.Fs.Archive.{eocd_signature, central_signature, deflated_method}

-- `file_data` with its `ZFileData`.
pub record FileData : Type 0 where
  pub is_zip : Bool
  pub compressed : Bool
  pub compressed_size : ℕ
  pub uncompressed_size : ℕ
  pub lfh_offset : ℕ
  pub zip_fname : List ℕ
  pub fname : List ℕ

-- A plain file of the root directory.
abbrev pub plain_file : List ℕ → FileData
plain_file name = record {
  is_zip = false;
  compressed = false;
  compressed_size = 0;
  uncompressed_size = 0;
  lfh_offset = 0;
  zip_fname = [];
  fname = name;
}

-- `std::string(filename.get())` ends at the first null byte.
unfoldable pub c_string : List ℕ → List ℕ
c_string [] = []
c_string (b ∷ bs) = if b == 0 then [] else b ∷ c_string bs

-- The backward search for the end record, from an offset down to 1; the result is `EOCD_offset`,
-- 0 if there is none.
unfoldable pub find_eocd : (offset : ℕ) → FileStream → ℕ × FileStream
find_eocd zero s = (0, s)
find_eocd (suc offset) s =
    let (signature, s') = read_into 4 (0 ∷ 0 ∷ 0 ∷ 0 ∷ []) (seek (suc offset) s) in
    let rest = find_eocd offset s' in
    if from_le signature == eocd_signature then (tell s', s') else rest

-- What `addZippedDir` enters for a header, if anything.
unfoldable pub zipped_file : (archive name : List ℕ) → CentralDirectoryFileHeader → List FileData
zipped_file archive name h =
    if h.uncompressed_size == 0 && not (h.compression_method == deflated_method)
    then []
    else record {
      is_zip = true;
      compressed = h.compression_method == deflated_method;
      compressed_size = h.compressed_size;
      uncompressed_size = h.uncompressed_size;
      lfh_offset = h.local_file_header_offset;
      zip_fname = name;
      fname = archive;
    }
      ∷ []

-- The name behind a header; without a length none is read.
unfoldable pub read_name : (len : ℕ) → FileStream → List ℕ × FileStream
read_name zero s = ([], s)
read_name (suc n) s =
    let (name, s') = read_into (suc n) (replicate (suc n) 0) s in (c_string name, s')

-- Whether the loop gives up at a header: a wrong signature, encryption, or a data descriptor.
unfoldable pub refuses : CentralDirectoryFileHeader → Bool
refuses h =
    not (h.signature == central_signature)
    || (not (bit_and h.general_purpose_bit_flag 1 == 0)
        || not (bit_and h.general_purpose_bit_flag 8 == 0))

-- `compressionMethod != 0 && compressionMethod != Z_DEFLATED`: `continue`, before the extra field and
-- the comment are skipped.
unfoldable pub unsupported : CentralDirectoryFileHeader → Bool
unsupported h = not (h.compression_method == 0) && not (h.compression_method == deflated_method)

-- The loop over the directory. `buffer` is `cdfh`, which a short read leaves partly as it was.
unfoldable pub read_directory :
    (archive : List ℕ) → (count : ℕ) → (buffer : List ℕ) → FileStream → List FileData
read_directory archive zero buffer s = []
read_directory archive (suc count) buffer s =
    let (buffer', s₁) = read_into size_of_central buffer s in
    let h = central_of buffer' in
    let (name, s₂) = read_name h.filename_length s₁ in
    let s₃ =
      if unsupported h then s₂ else skip h.file_comment_length (skip h.extra_field_length s₂) in
    let rest = read_directory archive count buffer' s₃ in
    if refuses h then [] else if unsupported h then rest else zipped_file archive name h ++ rest

unfoldable pub read_from_eocd : (archive : List ℕ) → (eocd_offset : ℕ) → FileStream → List FileData
read_from_eocd archive eocd_offset s =
    let (buffer, s₁) = read_into size_of_eocd (replicate size_of_eocd 0) (seek eocd_offset s) in
    let eocd = eocd_of buffer in
    if eocd_offset == 0
    then []
    else read_directory archive eocd.number_central_directory_record (replicate size_of_central 0)
        (seek eocd.central_directory_offset s₁)

-- `addZippedDir`: what it appends to `m_files`, where the archive could be opened.
unfoldable pub add_zipped_dir : (archive : List ℕ) → (bytes : List ℕ) → List FileData
add_zipped_dir archive bytes =
    let start = (length bytes + 2 ^ 64 - size_of_eocd) % 2 ^ 64 in
    let (eocd_offset, s) = find_eocd start (opened bytes) in read_from_eocd archive eocd_offset s

-- The name under which a file is looked up.
abbrev pub shown_name : FileData → List ℕ
shown_name f = if f.is_zip then f.zip_fname else f.fname

-- `isExist` and the search of `getFile`; an empty name fails an assertion before both.
unfoldable pub is_exist : List FileData → List ℕ → Bool
is_exist [] name = false
is_exist (f ∷ fs) name = if bytes_eq name (shown_name f) then true else is_exist fs name

-- The first file of that name, which `getFile` loads; `none` is its exception.
unfoldable pub find_file : List FileData → List ℕ → Option FileData
find_file [] name = none
find_file (f ∷ fs) name = if bytes_eq name (shown_name f) then some f else find_file fs name

-- The path that `writeFile` writes to, below the root directory. b'/' joins path and name.
unfoldable pub file_name : (path name : List ℕ) → List ℕ
file_name [] name = name
file_name (p ∷ ps) name = (p ∷ ps) ++ (b'/' ∷ name)

-- `writeFile`: `opens` tells whether the stream could be opened. The result is `m_files` and the
-- value returned.
unfoldable pub write_file :
    (opens : Bool) → (path name : List ℕ) → List FileData → List FileData × Bool
write_file opens path name files =
    let filename = file_name path name in
    if opens
    then ((if is_exist files filename then files else files ++ (plain_file filename ∷ [])), true)
    else (files, false)
