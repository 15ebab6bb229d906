-- ===== src/Fs/ZipFormat/Codec.antt =====
-- The headers are read back from their bytes.
use packaged_task.Base.{ℕ, ◌^◌, ◌<◌, ◌≡◌, refl, List, ◌++◌, length, arith}
use packaged_task.Base.Bytes.{le_bytes, from_le}
use packaged_task.Fs.ZipFormat.{
  Eocd, CentralDirectoryFileHeader, LocalFileHeader, eocd_bytes, eocd_of, central_bytes, central_of,
  local_bytes, local_of, size_of_eocd, size_of_central, size_of_local,
}

-- Each field fits its width.
pub record FitsEocd (h : Eocd) : Type 0 where
  pub disks : (h.disk_number < 2 ^ 16) × (h.start_disk_number < 2 ^ 16)
  pub counts :
      (h.number_central_directory_record < 2 ^ 16) × (h.total_central_directory_record < 2 ^ 16)
  pub directory : (h.size_of_central_directory < 2 ^ 32) × (h.central_directory_offset < 2 ^ 32)
  pub comment : h.comment_length < 2 ^ 16

-- An end record is read back from its bytes, whatever follows.
pub eocd_of-eocd_bytes :
    (h : Eocd) (rest : List ℕ) → FitsEocd h → eocd_of (eocd_bytes h ++ rest) ≡ h
unfolding eocd_of eocd_bytes le_bytes from_le
eocd_of-eocd_bytes h rest v = ground arith

pub record FitsCentral (h : CentralDirectoryFileHeader) : Type 0 where
  pub signature : h.signature < 2 ^ 32
  pub versions : (h.version_made_by < 2 ^ 16) × (h.version_to_extract < 2 ^ 16)
  pub method : (h.general_purpose_bit_flag < 2 ^ 16) × (h.compression_method < 2 ^ 16)
  pub moment : (h.modification_time < 2 ^ 16) × (h.modification_date < 2 ^ 16)
  pub sum : h.crc32 < 2 ^ 32
  pub sizes : (h.compressed_size < 2 ^ 32) × (h.uncompressed_size < 2 ^ 32)
  pub lengths :
      (h.filename_length < 2 ^ 16)
      × (h.extra_field_length < 2 ^ 16)
      × (h.file_comment_length < 2 ^ 16)
  pub place :
      (h.disk_number < 2 ^ 16)
      × (h.internal_file_attributes < 2 ^ 16)
      × (h.external_file_attributes < 2 ^ 32)
      × (h.local_file_header_offset < 2 ^ 32)

pub record FitsLocal (h : LocalFileHeader) : Type 0 where
  pub signature : h.signature < 2 ^ 32
  pub version : h.version_to_extract < 2 ^ 16
  pub method : (h.general_purpose_bit_flag < 2 ^ 16) × (h.compression_method < 2 ^ 16)
  pub moment : (h.modification_time < 2 ^ 16) × (h.modification_date < 2 ^ 16)
  pub sum : h.crc32 < 2 ^ 32
  pub sizes : (h.compressed_size < 2 ^ 32) × (h.uncompressed_size < 2 ^ 32)
  pub lengths : (h.filename_length < 2 ^ 16) × (h.extra_field_length < 2 ^ 16)

-- A central header whose fields fit their widths is read back from its bytes, whatever follows.
pub central_of-central_bytes :
    (h : CentralDirectoryFileHeader) (rest : List ℕ)
    → FitsCentral h
    → central_of (central_bytes h ++ rest) ≡ h
unfolding central_of central_bytes le_bytes from_le
central_of-central_bytes h rest v = ground arith

-- A local header whose fields fit their widths is read back from its bytes, whatever follows.
pub local_of-local_bytes :
    (h : LocalFileHeader) (rest : List ℕ) → FitsLocal h → local_of (local_bytes h ++ rest) ≡ h
unfolding local_of local_bytes le_bytes from_le
local_of-local_bytes h rest v = ground arith

-- The headers are as long as `sizeof` says.
pub length-headers :
    (e : Eocd) (c : CentralDirectoryFileHeader) (l : LocalFileHeader)
    → (length (eocd_bytes e) ≡ size_of_eocd)
      × (length (central_bytes c) ≡ size_of_central)
      × (length (local_bytes l) ≡ size_of_local)
unfolding eocd_bytes central_bytes local_bytes le_bytes
length-headers e c l = (refl, refl, refl)
