-- ===== src/Fs/Archive.antt =====
-- `FileSystem::createZIP` (src/fs/file_system.cpp): the bytes of the archive. zlib's `crc32` and
-- `deflate` are parameters.
pub mod Layout
pub mod Format
use packaged_task.Base.{
  ℕ, zero, suc, ◌+◌, ◌-◌, ◌%◌, ◌^◌, ◌≤◌, List, [], ◌∷◌, ◌++◌, length, take, ltb, leb, if◌then◌else◌,
}
use packaged_task.Base.Bytes.{le_bytes}
use packaged_task.Fs.DosTime.{Tm, DosTime, get_dos_time}
use packaged_task.Fs.ZipFormat.{
  Eocd, CentralDirectoryFileHeader, LocalFileHeader, eocd_bytes, central_bytes, local_bytes,
}

abbrev pub local_signature : ℕ
local_signature = 0x04034b50

abbrev pub central_signature : ℕ
central_signature = 0x02014b50

abbrev pub eocd_signature : ℕ
eocd_signature = 0x06054b50

-- `Z_DEFLATED`
abbrev pub deflated_method : ℕ
deflated_method = 8

-- What zlib does. `deflated data` are the bytes that one call of `deflate` with `Z_FINISH` leaves in
-- an output buffer as long as `data`, whose number is `total_out`; `inflated n data` those that one
-- call of `inflate` with `Z_FINISH` leaves in an output buffer of `n` bytes.
pub record Zlib : Type 0 where
  pub crc32 : List ℕ → ℕ
  pub deflated : List ℕ → List ℕ
  pub inflated : (avail_out : ℕ) → List ℕ → List ℕ

-- A file of the list: `getName()`, `getData()` with `getFileSize()`, and `localtime` of
-- `timeStamp()`.
pub record File : Type 0 where
  pub name : List ℕ
  pub contents : List ℕ
  pub stamp : Tm

pub record FileInfo : Type 0 where
  pub compressed_size : ℕ
  pub uncompressed_size : ℕ
  pub compression_method : ℕ
  pub crc32 : ℕ
  pub offset : ℕ

-- The part of the data that zlib is given and that is stored: the size is a `uint32_t`.
abbrev pub uncompressed_data : File → List ℕ
uncompressed_data f = take (length f.contents % 2 ^ 32) f.contents

module _ (z : Zlib) where
  -- The size and the method of the stored data, and the data: compressed if that is shorter.
  unfoldable pub stored_size : File → ℕ
  stored_size f =
      let uncompressed_size = length f.contents % 2 ^ 32 in
      let total_out = length (z.deflated (uncompressed_data f)) in
      if leb uncompressed_size total_out then uncompressed_size else total_out

  unfoldable pub stored_method : File → ℕ
  stored_method f =
      if leb (length f.contents % 2 ^ 32) (length (z.deflated (uncompressed_data f)))
      then 0
      else deflated_method

  unfoldable pub stored_data : File → List ℕ
  stored_data f =
      if leb (length f.contents % 2 ^ 32) (length (z.deflated (uncompressed_data f)))
      then uncompressed_data f
      else z.deflated (uncompressed_data f)

  unfoldable pub local_header : File → LocalFileHeader
  local_header f = record {
    signature = local_signature;
    version_to_extract = 0;
    general_purpose_bit_flag = 0;
    compression_method = stored_method f;
    modification_time = (get_dos_time f.stamp).time;
    modification_date = (get_dos_time f.stamp).date;
    crc32 = z.crc32 (uncompressed_data f);
    compressed_size = stored_size f;
    uncompressed_size = length f.contents % 2 ^ 32;
    filename_length = length f.name % 2 ^ 16;
    extra_field_length = 0;
  }

  unfoldable pub local_record : File → List ℕ
  local_record f = local_bytes (local_header f) ++ (f.name ++ stored_data f)

  -- `offset` is `tellp()` before the record.
  unfoldable pub file_info : (offset : ℕ) → File → FileInfo
  file_info offset f = record {
    compressed_size = stored_size f;
    uncompressed_size = length f.contents % 2 ^ 32;
    compression_method = stored_method f;
    crc32 = z.crc32 (uncompressed_data f);
    offset = offset % 2 ^ 32;
  }

  -- The first loop: the records behind what is written, and the list of infos.
  unfoldable pub write_records : List ℕ → List File → List ℕ × List FileInfo
  write_records out [] = (out, [])
  write_records out (f ∷ fs) =
      let (out', infos) = write_records (out ++ local_record f) fs in
      (out', file_info (length out) f ∷ infos)

unfoldable pub central_header : File → FileInfo → CentralDirectoryFileHeader
central_header f info = record {
  signature = central_signature;
  version_made_by = 0;
  version_to_extract = 0;
  general_purpose_bit_flag = 0;
  compression_method = info.compression_method;
  modification_time = (get_dos_time f.stamp).time;
  modification_date = (get_dos_time f.stamp).date;
  crc32 = info.crc32;
  compressed_size = info.compressed_size;
  uncompressed_size = info.uncompressed_size;
  filename_length = length f.name % 2 ^ 16;
  extra_field_length = 0;
  file_comment_length = 0;
  disk_number = 0;
  internal_file_attributes = 0;
  external_file_attributes = 0;
  local_file_header_offset = info.offset;
}

-- The second loop takes the infos by the index of the file; there is one for each.
unfoldable pub write_directory : List ℕ → List File → List FileInfo → List ℕ
write_directory out [] infos = out
write_directory out (f ∷ fs) [] = out
write_directory out (f ∷ fs) (info ∷ infos) =
    write_directory
      (out ++ (central_bytes (central_header f info) ++ take (length f.name % 2 ^ 16) f.name)) fs
      infos

-- The end record of `count` files whose directory lies between two positions.
unfoldable pub end_record : (count first last : ℕ) → Eocd
end_record count first last = record {
  disk_number = 0;
  start_disk_number = 0;
  number_central_directory_record = count % 2 ^ 16;
  total_central_directory_record = count % 2 ^ 16;
  size_of_central_directory = (last % 2 ^ 32 + 2 ^ 32 - first % 2 ^ 32) % 2 ^ 32;
  central_directory_offset = first % 2 ^ 32;
  comment_length = 0;
}

-- `createZIP`, where the file could be opened: what it then holds.
unfoldable pub create_zip : Zlib → List File → List ℕ
create_zip z files =
    let (records, infos) = write_records z [] files in
    let directory = write_directory records files infos in
    directory
    ++ (le_bytes 4 eocd_signature
        ++ eocd_bytes (end_record (length files) (length records) (length directory)))
