-- ===== src/Fs/ZipFormat.antt =====
-- src/fs/zip.h: the packed headers of a zip archive, and their bytes.
pub mod Codec
use packaged_task.Base.{ℕ, List, ◌++◌, take, drop}
use packaged_task.Base.Bytes.{le_bytes, from_le}

-- End of central directory record, behind its signature.
pub record Eocd : Type 0 where
  pub disk_number : ℕ
  pub start_disk_number : ℕ
  pub number_central_directory_record : ℕ
  pub total_central_directory_record : ℕ
  pub size_of_central_directory : ℕ
  pub central_directory_offset : ℕ
  pub comment_length : ℕ

pub record CentralDirectoryFileHeader : Type 0 where
  pub signature : ℕ
  pub version_made_by : ℕ
  pub version_to_extract : ℕ
  pub general_purpose_bit_flag : ℕ
  pub compression_method : ℕ
  pub modification_time : ℕ
  pub modification_date : ℕ
  pub crc32 : ℕ
  pub compressed_size : ℕ
  pub uncompressed_size : ℕ
  pub filename_length : ℕ
  pub extra_field_length : ℕ
  pub file_comment_length : ℕ
  pub disk_number : ℕ
  pub internal_file_attributes : ℕ
  pub external_file_attributes : ℕ
  pub local_file_header_offset : ℕ

pub record LocalFileHeader : Type 0 where
  pub signature : ℕ
  pub version_to_extract : ℕ
  pub general_purpose_bit_flag : ℕ
  pub compression_method : ℕ
  pub modification_time : ℕ
  pub modification_date : ℕ
  pub crc32 : ℕ
  pub compressed_size : ℕ
  pub uncompressed_size : ℕ
  pub filename_length : ℕ
  pub extra_field_length : ℕ

abbrev pub size_of_eocd : ℕ
size_of_eocd = 18

abbrev pub size_of_central : ℕ
size_of_central = 46

abbrev pub size_of_local : ℕ
size_of_local = 30

-- The field of `size` bytes at an offset.
abbrev pub field : (offset size : ℕ) → List ℕ → ℕ
field offset size bytes = from_le (take size (drop offset bytes))

unfoldable pub eocd_bytes : Eocd → List ℕ
eocd_bytes h =
    le_bytes 2 h.disk_number
    ++ (le_bytes 2 h.start_disk_number
        ++ (le_bytes 2 h.number_central_directory_record
            ++ (le_bytes 2 h.total_central_directory_record
                ++ (le_bytes 4 h.size_of_central_directory
                    ++ (le_bytes 4 h.central_directory_offset ++ le_bytes 2 h.comment_length)))))

unfoldable pub eocd_of : List ℕ → Eocd
eocd_of b = record {
  disk_number = field 0 2 b;
  start_disk_number = field 2 2 b;
  number_central_directory_record = field 4 2 b;
  total_central_directory_record = field 6 2 b;
  size_of_central_directory = field 8 4 b;
  central_directory_offset = field 12 4 b;
  comment_length = field 16 2 b;
}

unfoldable pub central_bytes : CentralDirectoryFileHeader → List ℕ
central_bytes h =
    le_bytes 4 h.signature
    ++ (le_bytes 2 h.version_made_by
        ++ (le_bytes 2 h.version_to_extract
            ++ (le_bytes 2 h.general_purpose_bit_flag
                ++ (le_bytes 2 h.compression_method
                    ++ (le_bytes 2 h.modification_time
                        ++ (le_bytes 2 h.modification_date
                            ++ (le_bytes 4 h.crc32
                                ++ (le_bytes 4 h.compressed_size
                                    ++ (le_bytes 4 h.uncompressed_size
                                        ++ (le_bytes 2 h.filename_length
                                            ++ (le_bytes 2 h.extra_field_length
                                                ++ (le_bytes 2 h.file_comment_length
                                                    ++ (le_bytes 2 h.disk_number
                                                        ++ (le_bytes 2 h.internal_file_attributes
                                                            ++ (le_bytes 4
                                                            h.external_file_attributes
                                                            ++ le_bytes 4
                                                            h.local_file_header_offset)))))))))))))))

unfoldable pub central_of : List ℕ → CentralDirectoryFileHeader
central_of b = record {
  signature = field 0 4 b;
  version_made_by = field 4 2 b;
  version_to_extract = field 6 2 b;
  general_purpose_bit_flag = field 8 2 b;
  compression_method = field 10 2 b;
  modification_time = field 12 2 b;
  modification_date = field 14 2 b;
  crc32 = field 16 4 b;
  compressed_size = field 20 4 b;
  uncompressed_size = field 24 4 b;
  filename_length = field 28 2 b;
  extra_field_length = field 30 2 b;
  file_comment_length = field 32 2 b;
  disk_number = field 34 2 b;
  internal_file_attributes = field 36 2 b;
  external_file_attributes = field 38 4 b;
  local_file_header_offset = field 42 4 b;
}

unfoldable pub local_bytes : LocalFileHeader → List ℕ
local_bytes h =
    le_bytes 4 h.signature
    ++ (le_bytes 2 h.version_to_extract
        ++ (le_bytes 2 h.general_purpose_bit_flag
            ++ (le_bytes 2 h.compression_method
                ++ (le_bytes 2 h.modification_time
                    ++ (le_bytes 2 h.modification_date
                        ++ (le_bytes 4 h.crc32
                            ++ (le_bytes 4 h.compressed_size
                                ++ (le_bytes 4 h.uncompressed_size
                                    ++ (le_bytes 2 h.filename_length
                                        ++ le_bytes 2 h.extra_field_length)))))))))

unfoldable pub local_of : List ℕ → LocalFileHeader
local_of b = record {
  signature = field 0 4 b;
  version_to_extract = field 4 2 b;
  general_purpose_bit_flag = field 6 2 b;
  compression_method = field 8 2 b;
  modification_time = field 10 2 b;
  modification_date = field 12 2 b;
  crc32 = field 14 4 b;
  compressed_size = field 18 4 b;
  uncompressed_size = field 22 4 b;
  filename_length = field 26 2 b;
  extra_field_length = field 28 2 b;
}
