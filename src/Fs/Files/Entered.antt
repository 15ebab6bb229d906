-- ===== src/Fs/Files/Entered.antt =====
-- The list that `addZippedDir` makes of an archive, said from the files alone.
use packaged_task.Base.{
  ℕ, ◌+◌, ◌%◌, ◌^◌, ◌<◌, ◌≡◌, refl, ap, ◌∙◌, List, [], ◌∷◌, ◌++◌, length, take, All, Bool-cases,
  inl, inr, true, ◌==◌, if◌then◌else◌, arith,
}
use packaged_task.Fs.Archive.{
  Zlib, File, uncompressed_data, local_record, file_info, central_header, create_zip,
}
use packaged_task.Fs.Archive.Format.{
  plain, name_length, length-plain, gains, packed, record_format, stored_lem, record_format_lem,
}
use packaged_task.Fs.Files.{FileData, c_string, zipped_file, add_zipped_dir}
use packaged_task.Fs.Files.Listing.{listed}
use packaged_task.Fs.Files.Opening.{add_zipped_dir-create_zip}

module _ (z : Zlib) (archive : List ℕ) where
  -- A file whose record begins at a position.
  abbrev pub entered_file : (position : ℕ) → File → FileData
  entered_file position f = record {
    is_zip = true;
    compressed = gains z f;
    compressed_size = length (packed z f);
    uncompressed_size = length (plain f);
    lfh_offset = position % 2 ^ 32;
    zip_fname = c_string (take (name_length f) f.name);
    fname = archive;
  }

  -- The files that have contents, each with the position of its record.
  abbrev pub entered : (position : ℕ) → List File → List FileData
  entered position [] = []
  entered position (f ∷ fs) =
      (if length (plain f) == 0 then [] else entered_file position f ∷ [])
      ++ entered (position + length (record_format z f)) fs

  entered_one :
      (position : ℕ) (f : File)
      → zipped_file archive
          (c_string (take (name_length f) f.name))
          (central_header f (file_info z position f))
        ≡ (if length (plain f) == 0 then [] else entered_file position f ∷ [])
  unfolding zipped_file central_header file_info
  entered_one position f =
      let (content, size, method) = stored_lem z f in
      let whole = length-plain f in
      elim (Bool-cases (gains z f)) [
        | inl shorter ↦ rw (method, size, whole) (ground arith)
        | inr longer ↦ rw (method, size, whole) (ground arith)
      ]

  entered_lem : (position : ℕ) (fs : List File) → listed z archive position fs ≡ entered position fs
  entered_lem position [] = refl
  entered_lem position (f ∷ fs) =
      ap (λ e. e ++ listed z archive (position + length (local_record z f)) fs)
        (entered_one position f)
      ∙ ap
          (λ r.
            (if length (plain f) == 0 then [] else entered_file position f ∷ [])
            ++ listed z archive (position + length r) fs)
          (record_format_lem z f)
      ∙ ap (λ l. (if length (plain f) == 0 then [] else entered_file position f ∷ []) ++ l)
          (entered_lem (position + length (record_format z f)) fs)

-- What `createZIP` writes for at least one file, `addZippedDir` reads: it lists each file that has
-- contents, in order, with its name up to the first null byte, its sizes, whether it is compressed,
-- and the position at which its record begins; a file without contents is not listed. The archive
-- has to be below 2 ^ 32 bytes with fewer than 2 ^ 16 files, and a checksum to fit 32 bits.
pub add_zipped_dir-entered :
    (z : Zlib) (archive : List ℕ) (f : File) (fs : List File)
    → All (λ g. z.crc32 (uncompressed_data g) < 2 ^ 32) (f ∷ fs)
    → length (f ∷ fs) < 2 ^ 16
    → length (create_zip z (f ∷ fs)) < 2 ^ 32
    → add_zipped_dir archive (create_zip z (f ∷ fs)) ≡ entered z archive 0 (f ∷ fs)
add_zipped_dir-entered z archive f fs sums few room =
    add_zipped_dir-create_zip z archive f fs sums few room ∙ entered_lem z archive 0 (f ∷ fs)
