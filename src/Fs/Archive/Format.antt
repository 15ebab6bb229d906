-- ===== src/Fs/Archive/Format.antt =====
-- The bytes of an archive, written out field by field, beside what `createZIP` writes.
use packaged_task.Base.{
  ℕ, ◌+◌, ◌-◌, ◌%◌, ◌^◌, ◌≡◌, refl, ap, sym, ◌∙◌, List, [], ◌∷◌, ◌++◌, length, take, ltb, Bool,
  Bool-cases, inl, inr, if◌then◌else◌, arith, length-append,
}
use packaged_task.Base.Bytes.{le_bytes, byte_sizes}
use packaged_task.Fs.DosTime.{get_dos_time}
use packaged_task.Fs.ZipFormat.{eocd_bytes, central_bytes, local_bytes}
use packaged_task.Fs.Archive.{
  Zlib, File, stored_size, stored_method, stored_data, local_header, local_record, file_info,
  central_header, end_record, create_zip,
}
use packaged_task.Fs.Archive.Layout.{records_of, directory_entry, directory_of, create_zip_lem}

-- Fields of some widths, least significant byte first.
abbrev pub fields : List (ℕ × ℕ) → List ℕ
fields [] = []
fields ((width, value) ∷ rest) = le_bytes width value ++ fields rest

-- The contents, as far as a 32-bit size reaches.
abbrev pub plain : File → List ℕ
plain f = take (length f.contents % 2 ^ 32) f.contents

abbrev pub name_length : File → ℕ
name_length f = length f.name % 2 ^ 16

pub length-plain : (f : File) → length (plain f) ≡ length f.contents % 2 ^ 32
length-plain f = omega byte_sizes

module _ (z : Zlib) where
  -- Whether compression gains anything, and what stands for the contents then.
  abbrev pub gains : File → Bool
  gains f = ltb (length (z.deflated (plain f))) (length (plain f))

  abbrev pub packed : File → List ℕ
  packed f = if gains f then z.deflated (plain f) else plain f

  -- A local header, the name and the packed contents.
  abbrev pub record_format : File → List ℕ
  record_format f =
      fields (
        (4, 67324752)
        ∷ (2, 0)
        ∷ (2, 0)
        ∷ (2, if gains f then 8 else 0)
        ∷ (2, (get_dos_time f.stamp).time)
        ∷ (2, (get_dos_time f.stamp).date)
        ∷ (4, z.crc32 (plain f))
        ∷ (4, length (packed f))
        ∷ (4, length (plain f))
        ∷ (2, name_length f)
        ∷ (2, 0)
        ∷ [])
      ++ (f.name ++ packed f)

  -- An entry of the directory for a record at a position.
  abbrev pub entry_format : (position : ℕ) → File → List ℕ
  entry_format position f =
      fields (
        (4, 33639248)
        ∷ (2, 0)
        ∷ (2, 0)
        ∷ (2, 0)
        ∷ (2, if gains f then 8 else 0)
        ∷ (2, (get_dos_time f.stamp).time)
        ∷ (2, (get_dos_time f.stamp).date)
        ∷ (4, z.crc32 (plain f))
        ∷ (4, length (packed f))
        ∷ (4, length (plain f))
        ∷ (2, name_length f)
        ∷ (2, 0)
        ∷ (2, 0)
        ∷ (2, 0)
        ∷ (2, 0)
        ∷ (4, 0)
        ∷ (4, position % 2 ^ 32)
        ∷ [])
      ++ take (name_length f) f.name

  abbrev pub records_format : List File → List ℕ
  records_format [] = []
  records_format (f ∷ fs) = record_format f ++ records_format fs

  abbrev pub directory_format : (position : ℕ) → List File → List ℕ
  directory_format position [] = []
  directory_format position (f ∷ fs) =
      entry_format position f ++ directory_format (position + length (record_format f)) fs

  abbrev pub archive_format : List File → List ℕ
  archive_format files =
      records_format files
      ++ (directory_format 0 files
          ++ fields (
              (4, 101010256)
              ∷ (2, 0)
              ∷ (2, 0)
              ∷ (2, length files % 2 ^ 16)
              ∷ (2, length files % 2 ^ 16)
              ∷ (4, length (directory_format 0 files) % 2 ^ 32)
              ∷ (4, length (records_format files) % 2 ^ 32)
              ∷ (2, 0)
              ∷ []))

  -- What the code chooses to store.
  pub stored_lem :
      (f : File)
      → (stored_data z f ≡ packed f)
        × (stored_size z f ≡ length (packed f))
        × (stored_method z f ≡ (if gains f then 8 else 0))
  unfolding stored_data stored_size stored_method
  stored_lem f = elim (Bool-cases (gains f)) [
    | inl shorter ↦ let size = length-plain f in ground (arith, size, shorter)
    | inr longer ↦ let size = length-plain f in ground (arith, size, longer)
  ]

  -- The record with any choice of what is stored.
  abbrev record_with : (method size whole : ℕ) → (content : List ℕ) → File → List ℕ
  record_with method size whole content f =
      fields (
        (4, 67324752)
        ∷ (2, 0)
        ∷ (2, 0)
        ∷ (2, method)
        ∷ (2, (get_dos_time f.stamp).time)
        ∷ (2, (get_dos_time f.stamp).date)
        ∷ (4, z.crc32 (plain f))
        ∷ (4, size)
        ∷ (4, whole)
        ∷ (2, name_length f)
        ∷ (2, 0)
        ∷ [])
      ++ (f.name ++ content)

  pub record_format_lem : (f : File) → local_record z f ≡ record_format f
  unfolding local_record local_header local_bytes le_bytes
  record_format_lem f =
      let (content, size, method) = stored_lem f in
      let whole = length-plain f in
      ap (λ m. record_with m (stored_size z f) (length f.contents % 2 ^ 32) (stored_data z f) f)
        method
      ∙ ap
          (λ n.
            record_with (if gains f then 8 else 0) n (length f.contents % 2 ^ 32) (stored_data z f)
              f)
          size
      ∙ ap
          (λ c.
            record_with (if gains f then 8 else 0) (length (packed f)) (length f.contents % 2 ^ 32)
              c f)
          content
      ∙ ap (λ n. record_with (if gains f then 8 else 0) (length (packed f)) n (packed f) f)
          (sym whole)

  abbrev entry_with : (method size whole position : ℕ) → File → List ℕ
  entry_with method size whole position f =
      fields (
        (4, 33639248)
        ∷ (2, 0)
        ∷ (2, 0)
        ∷ (2, 0)
        ∷ (2, method)
        ∷ (2, (get_dos_time f.stamp).time)
        ∷ (2, (get_dos_time f.stamp).date)
        ∷ (4, z.crc32 (plain f))
        ∷ (4, size)
        ∷ (4, whole)
        ∷ (2, name_length f)
        ∷ (2, 0)
        ∷ (2, 0)
        ∷ (2, 0)
        ∷ (2, 0)
        ∷ (4, 0)
        ∷ (4, position % 2 ^ 32)
        ∷ [])
      ++ take (name_length f) f.name

  entry_format_lem :
      (position : ℕ) (f : File) → directory_entry z position f ≡ entry_format position f
  unfolding central_header file_info central_bytes le_bytes
  entry_format_lem position f =
      let (content, size, method) = stored_lem f in
      let whole = length-plain f in
      ap (λ m. entry_with m (stored_size z f) (length f.contents % 2 ^ 32) position f) method
      ∙ ap (λ n. entry_with (if gains f then 8 else 0) n (length f.contents % 2 ^ 32) position f)
          size
      ∙ ap (λ n. entry_with (if gains f then 8 else 0) (length (packed f)) n position f) (sym whole)

  pub records_format_lem : (fs : List File) → records_of z fs ≡ records_format fs
  records_format_lem [] = refl
  records_format_lem (f ∷ fs) =
      ap (λ r. r ++ records_of z fs) (record_format_lem f)
      ∙ ap (λ r. record_format f ++ r) (records_format_lem fs)

  directory_format_lem :
      (position : ℕ) (fs : List File) → directory_of z position fs ≡ directory_format position fs
  directory_format_lem position [] = refl
  directory_format_lem position (f ∷ fs) =
      ap (λ e. e ++ directory_of z (position + length (local_record z f)) fs)
        (entry_format_lem position f)
      ∙ ap (λ r. entry_format position f ++ directory_of z (position + length r) fs)
          (record_format_lem f)
      ∙ ap (λ d. entry_format position f ++ d)
          (directory_format_lem (position + length (record_format f)) fs)

  -- The end record of some records and a directory.
  abbrev end_format : (count size place : ℕ) → List ℕ
  end_format count size place = fields (
      (4, 101010256)
      ∷ (2, 0)
      ∷ (2, 0)
      ∷ (2, count % 2 ^ 16)
      ∷ (2, count % 2 ^ 16)
      ∷ (4, size)
      ∷ (4, place % 2 ^ 32)
      ∷ (2, 0)
      ∷ [])

  directory_size :
      (records directory : List ℕ)
      → (length (records ++ directory) % 2 ^ 32 + 2 ^ 32 - length records % 2 ^ 32) % 2 ^ 32
        ≡ length directory % 2 ^ 32
  directory_size records directory = omega (arith, length-append records directory)

  end_format_lem :
      (count : ℕ) (records directory : List ℕ)
      → le_bytes 4 101010256
          ++ eocd_bytes (end_record count (length records) (length (records ++ directory)))
        ≡ end_format count (length directory % 2 ^ 32) (length records)
  unfolding eocd_bytes end_record le_bytes
  end_format_lem count records directory =
      ap (λ n. end_format count n (length records)) (directory_size records directory)

  -- The archive of a list of files is, byte for byte, a record for each file with its header, its
  -- name and its contents, compressed where that makes them shorter; a directory whose entry for a
  -- file has the position at which its record begins; and an end record with the number of files and
  -- the size and the position of the directory. Sizes, positions and numbers are cut to the widths
  -- of their fields.
  pub create_zip-archive_format : (files : List File) → create_zip z files ≡ archive_format files
  create_zip-archive_format files =
      create_zip_lem z files
      ∙ ap (λ e. records_of z files ++ (directory_of z 0 files ++ e))
          (end_format_lem (length files) (records_of z files) (directory_of z 0 files))
      ∙ ap
          (λ r.
            r
            ++ (directory_of z 0 files
                ++ end_format (length files) (length (directory_of z 0 files) % 2 ^ 32) (length r)))
          (records_format_lem files)
      ∙ ap
          (λ d.
            records_format files
            ++ (d ++ end_format (length files) (length d % 2 ^ 32) (length (records_format files))))
          (directory_format_lem 0 files)
