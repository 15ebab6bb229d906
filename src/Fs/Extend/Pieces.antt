-- ===== src/Fs/Extend/Pieces.antt =====
-- The bytes that the writes of `addFileToZIP` leave, piece by piece.
use packaged_task.Base.{ℕ, ◌%◌, ◌^◌, ◌≡◌, refl, List, [], ◌∷◌, ◌++◌, length, take, drop}
use packaged_task.Base.Bytes.{le_bytes}
use packaged_task.Fs.Stream.{tell}
use packaged_task.Fs.Stream.Reading.{at}
use packaged_task.Fs.Stream.Writing.{joined, put_all_lem}
use packaged_task.Fs.ZipFormat.{Eocd, eocd_bytes, central_bytes, local_bytes}
use packaged_task.Fs.Archive.{
  Zlib, File, eocd_signature, stored_data, local_header, file_info, central_header,
}
use packaged_task.Fs.Extend.{extended_eocd, write_extended}

-- The pieces that the writes put behind the records, with the new record's file.
module _ (z : Zlib) (new : File) (records directory : List ℕ) where
  abbrev pub record_piece : List ℕ
  record_piece = joined (local_bytes (local_header z new) ∷ new.name ∷ stored_data z new ∷ [])

  abbrev pub directory_piece : List ℕ
  directory_piece = joined (
      directory
      ∷ central_bytes (central_header new (file_info z (length records) new))
      ∷ take (central_header new (file_info z (length records) new)).filename_length new.name
      ∷ [])

  abbrev pub ending_piece : Eocd → List ℕ
  ending_piece eocd = joined (
      le_bytes 4 eocd_signature
      ∷ eocd_bytes (
          extended_eocd eocd (length (records ++ record_piece) % 2 ^ 32)
            (length ((records ++ record_piece) ++ directory_piece) % 2 ^ 32))
      ∷ [])

  pub write_extended-pieces :
      (eocd : Eocd) (tail : List ℕ)
      → (write_extended z new eocd directory (at (records ++ tail) (length records))).bytes
        ≡ (((records ++ record_piece) ++ directory_piece) ++ ending_piece eocd)
          ++ drop
              (length (ending_piece eocd))
              (drop (length directory_piece) (drop (length record_piece) tail))
  unfolding write_extended tell
  write_extended-pieces eocd tail =
      rw
        (
          put_all_lem (local_bytes (local_header z new) ∷ new.name ∷ stored_data z new ∷ []) records
              tail,
          put_all_lem
              (directory
                ∷ central_bytes (central_header new (file_info z (length records) new))
                ∷ take (central_header new (file_info z (length records) new)).filename_length
                    new.name
                ∷ [])
              (records ++ record_piece) (drop (length record_piece) tail),
          put_all_lem
              (le_bytes 4 eocd_signature
                ∷ eocd_bytes (
                    extended_eocd eocd (length (records ++ record_piece) % 2 ^ 32)
                      (length ((records ++ record_piece) ++ directory_piece) % 2 ^ 32))
                ∷ [])
              ((records ++ record_piece) ++ directory_piece)
              (drop (length directory_piece) (drop (length record_piece) tail)),
        )
        refl
