-- ===== src/Fs/Extend/Rewritten.antt =====
-- The writes of `addFileToZIP` over the directory of an archive that `createZIP` has written.
use packaged_task.Base.{
  ℕ, zero, suc, ◌+◌, ◌%◌, ◌^◌, ◌≤◌, ◌≡◌, refl, ap, sym, ◌∙◌, List, [], ◌∷◌, ◌++◌, length, take,
  drop, length-append, arith, append_assoc, append-nil,
}
use packaged_task.Base.Bytes.{le_bytes, byte_sizes}
use packaged_task.Fs.Stream.Reading.{at, drop-nil}
use packaged_task.Fs.Stream.Writing.{joined}
use packaged_task.Fs.ZipFormat.{Eocd, eocd_bytes, central_bytes, local_bytes}
use packaged_task.Fs.Archive.{
  Zlib, File, eocd_signature, stored_data, local_header, local_record, file_info, central_header,
  end_record, create_zip,
}
use packaged_task.Fs.Archive.Layout.{
  records_of, directory_of, directory_entry, records-append, directory-append, create_zip_lem,
}
use packaged_task.Fs.Files.Opening.{eocd_with, ending, length-ending, count_of, total_of, place_of}
use packaged_task.Fs.Files.Listing.{directory_entry-size}
use packaged_task.Fs.Extend.{extended_eocd, write_extended}
use packaged_task.Fs.Extend.Pieces.{
  record_piece, directory_piece, ending_piece, write_extended-pieces,
}

drop_far : (n : ℕ) (xs : List ℕ) → length xs ≤ n → drop n xs ≡ []
drop_far n [] few = drop-nil n
drop_far zero (x ∷ xs) few = absurd (omega (arith, few))
drop_far (suc n) (x ∷ xs) few = drop_far n xs (omega (arith, few))

-- Behind the archive of some files.
module _ (z : Zlib) (f : File) (fs : List File) (new : File) where
  abbrev records : List ℕ
  records = records_of z (f ∷ fs)

  abbrev directory : List ℕ
  directory = directory_of z 0 (f ∷ fs)

  abbrev extended : List File
  extended = (f ∷ fs) ++ (new ∷ [])

  record_piece_lem : record_piece z new records directory ≡ local_record z new
  unfolding local_record
  record_piece_lem =
      ap (λ b. local_bytes (local_header z new) ++ (new.name ++ b)) (append-nil (stored_data z new))

  records-extended : records ++ record_piece z new records directory ≡ records_of z extended
  records-extended =
      ap (λ r. records ++ r) (record_piece_lem ∙ sym (append-nil (local_record z new)))
      ∙ sym (records-append z (f ∷ fs) (new ∷ []))

  directory_piece_lem :
      directory_piece z new records directory ≡ directory ++ directory_entry z (length records) new
  unfolding central_header
  directory_piece_lem =
      ap
        (λ b.
          directory ++ (central_bytes (central_header new (file_info z (length records) new)) ++ b))
        (append-nil (take (length new.name % 2 ^ 16) new.name))

  directory-extended : directory_piece z new records directory ≡ directory_of z 0 extended
  directory-extended =
      let place : length records ≡ 0 + length records = omega arith in
      directory_piece_lem
      ∙ ap (λ e. directory ++ e) (sym (append-nil (directory_entry z (length records) new)))
      ∙ ap (λ n. directory ++ directory_of z n (new ∷ [])) place
      ∙ sym (directory-append z 0 (f ∷ fs) (new ∷ []))

  -- The end record of the extended archive.
  extended_eocd_lem :
      extended_eocd
        (eocd_with (count_of z f fs) (total_of z f fs) (place_of z f fs))
        (length (records_of z extended) % 2 ^ 32)
        (length (records_of z extended ++ directory_of z 0 extended) % 2 ^ 32)
      ≡ end_record
          (length extended)
          (length (records_of z extended))
          (length (records_of z extended ++ directory_of z 0 extended))
  unfolding extended_eocd end_record
  extended_eocd_lem =
      let more : (count_of z f fs + 1) % 2 ^ 16 ≡ length extended % 2 ^ 16 =
        omega (arith, length-append (f ∷ fs) (new ∷ [])) in
      rw more refl

  tail_overwritten :
      (eocd : Eocd)
      → drop (length (ending_piece z new records directory eocd)) (
          drop (length (directory_piece z new records directory)) (
            drop
              (length (record_piece z new records directory))
              (directory ++ ending (count_of z f fs) (total_of z f fs) (place_of z f fs))))
        ≡ []
  tail_overwritten eocd =
      let tail = directory ++ ending (count_of z f fs) (total_of z f fs) (place_of z f fs) in
      let first = length (record_piece z new records directory) in
      let second = length (directory_piece z new records directory) in
      drop_far (length (ending_piece z new records directory eocd)) (drop second (drop first tail))
        (omega (
          byte_sizes,
          length-ending (count_of z f fs) (total_of z f fs) (place_of z f fs),
          ap length directory_piece_lem,
          directory_entry-size z (length records) new,
        ))

  -- Two pieces with the end record that fits them.
  abbrev ended : (front back : List ℕ) → List ℕ
  ended front back =
      (front ++ back)
      ++ joined (
          le_bytes 4 eocd_signature
          ∷ eocd_bytes (
              extended_eocd (eocd_with (count_of z f fs) (total_of z f fs) (place_of z f fs))
                (length front % 2 ^ 32) (length (front ++ back) % 2 ^ 32))
          ∷ [])

  ended_lem : ended (records_of z extended) (directory_of z 0 extended) ≡ create_zip z extended
  ended_lem =
      ap
        (λ e.
          (records_of z extended ++ directory_of z 0 extended) ++ (le_bytes 4 eocd_signature ++ e))
        (append-nil _ ∙ ap eocd_bytes extended_eocd_lem)
      ∙ append_assoc (records_of z extended) (directory_of z 0 extended) _
      ∙ sym (create_zip_lem z extended)

  pub write_extended-archive :
      (write_extended z new
        (eocd_with (count_of z f fs) (total_of z f fs) (place_of z f fs))
        directory
        (at
          (records ++ (directory ++ ending (count_of z f fs) (total_of z f fs) (place_of z f fs)))
          (length records))).bytes
      ≡ create_zip z extended
  write_extended-archive =
      let eocd = eocd_with (count_of z f fs) (total_of z f fs) (place_of z f fs) in
      let whole =
        ended (records ++ record_piece z new records directory)
          (directory_piece z new records directory) in
      write_extended-pieces z new records directory eocd
        (directory ++ ending (count_of z f fs) (total_of z f fs) (place_of z f fs))
      ∙ ap (λ t. whole ++ t) (tail_overwritten eocd)
      ∙ append-nil whole
      ∙ ap (λ r. ended r (directory_piece z new records directory)) records-extended
      ∙ ap (ended (records_of z extended)) directory-extended
      ∙ ended_lem
