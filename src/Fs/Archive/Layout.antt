-- ===== src/Fs/Archive/Layout.antt =====
-- The layout of the archive that `createZIP` writes: the records, the directory and the end record,
-- and that the directory's offsets lead to the records.
use packaged_task.Base.{
  ℕ, ◌+◌, ◌%◌, ◌^◌, ◌≡◌, refl, ap, sym, ◌∙◌, List, [], ◌∷◌, ◌++◌, length, take, drop, take-append,
  drop-append, length-append, arith, append_assoc, append-nil,
}
use packaged_task.Base.Bytes.{le_bytes}
use packaged_task.Fs.ZipFormat.{eocd_bytes, central_bytes}
use packaged_task.Fs.Archive.{
  eocd_signature, Zlib, File, FileInfo, local_record, file_info, write_records, central_header,
  write_directory, end_record, create_zip,
}

next_offset :
    (offset : ℕ) (first rest : List ℕ)
    → offset + length first + length rest ≡ offset + length (first ++ rest)
next_offset offset first rest = rw (length-append first rest) (omega arith)

-- The bytes of an archive from a position on, as many as asked for.
abbrev pub slice : (offset size : ℕ) → List ℕ → List ℕ
slice offset size bytes = take size (drop offset bytes)

module _ (z : Zlib) where
  -- The records of the files, one behind another.
  abbrev pub records_of : List File → List ℕ
  records_of [] = []
  records_of (f ∷ fs) = local_record z f ++ records_of fs

  abbrev pub directory_entry : (offset : ℕ) → File → List ℕ
  directory_entry offset f =
      central_bytes (central_header f (file_info z offset f))
      ++ take (length f.name % 2 ^ 16) f.name

  -- The directory of files whose first record lies at `offset`.
  abbrev pub directory_of : (offset : ℕ) → List File → List ℕ
  directory_of offset [] = []
  directory_of offset (f ∷ fs) =
      directory_entry offset f ++ directory_of (offset + length (local_record z f)) fs

  -- The archive as the ZIP format describes it.
  abbrev pub archive_of : List File → List ℕ
  archive_of files =
      records_of files
      ++ (directory_of 0 files
          ++ (le_bytes 4 eocd_signature
              ++ eocd_bytes (
                  end_record (length files) (length (records_of files))
                    (length (records_of files ++ directory_of 0 files)))))

  abbrev infos_from : (offset : ℕ) → List File → List FileInfo
  infos_from offset [] = []
  infos_from offset (f ∷ fs) =
      file_info z offset f ∷ infos_from (offset + length (local_record z f)) fs

  write_records_lem :
      (out : List ℕ) (fs : List File)
      → write_records z out fs ≡ (out ++ records_of fs, infos_from (length out) fs)
  unfolding write_records
  write_records_lem out [] = ap (λ r. (r, [])) (sym (append-nil out))
  write_records_lem out (f ∷ fs) =
      ap (λ r. (r.0, file_info z (length out) f ∷ r.1))
        (write_records_lem (out ++ local_record z f) fs)
      ∙ ap (λ r. (r, file_info z (length out) f ∷ infos_from (length (out ++ local_record z f)) fs))
          (append_assoc out (local_record z f) (records_of fs))
      ∙ ap
          (λ n. (
            out ++ (local_record z f ++ records_of fs),
            file_info z (length out) f ∷ infos_from n fs,
          ))
          (length-append out (local_record z f))

  write_directory_lem :
      (out : List ℕ) (offset : ℕ) (fs : List File)
      → write_directory out fs (infos_from offset fs) ≡ out ++ directory_of offset fs
  unfolding write_directory
  write_directory_lem out offset [] = sym (append-nil out)
  write_directory_lem out offset (f ∷ fs) =
      write_directory_lem (out ++ directory_entry offset f) (offset + length (local_record z f)) fs
      ∙ append_assoc out (directory_entry offset f)
          (directory_of (offset + length (local_record z f)) fs)

  -- The end of `createZIP`.
  abbrev finished : List File → (records directory : List ℕ) → List ℕ
  finished files records directory =
      directory
      ++ (le_bytes 4 eocd_signature
          ++ eocd_bytes (end_record (length files) (length records) (length directory)))

  -- The archive of a list of files is laid out as the format says: the records, a directory with
  -- each record's position, and an end record that counts the files and has the directory's place
  -- and size.
  pub create_zip_lem : (files : List File) → create_zip z files ≡ archive_of files
  unfolding create_zip
  create_zip_lem files =
      ap (λ r. finished files r.0 (write_directory r.0 files r.1)) (write_records_lem [] files)
      ∙ ap (finished files (records_of files)) (write_directory_lem (records_of files) 0 files)
      ∙ append_assoc (records_of files) (directory_of 0 files) _

  pub records-append :
      (before after : List File)
      → records_of (before ++ after) ≡ records_of before ++ records_of after
  records-append [] after = refl
  records-append (f ∷ fs) after =
      ap (λ r. local_record z f ++ r) (records-append fs after)
      ∙ sym (append_assoc (local_record z f) (records_of fs) (records_of after))

  pub directory-append :
      (offset : ℕ) (before after : List File)
      → directory_of offset (before ++ after)
        ≡ directory_of offset before ++ directory_of (offset + length (records_of before)) after
  directory-append offset [] after = ap (λ n. directory_of n after) (omega arith)
  directory-append offset (f ∷ fs) after =
      ap (λ d. directory_entry offset f ++ d)
        (directory-append (offset + length (local_record z f)) fs after)
      ∙ sym (append_assoc (directory_entry offset f) _ _)
      ∙ ap (λ n. directory_of offset (f ∷ fs) ++ directory_of n after)
          (next_offset offset (local_record z f) (records_of fs))

  slice_middle :
      (bytes front middle back : List ℕ)
      → bytes ≡ front ++ (middle ++ back)
      → slice (length front) (length middle) bytes ≡ middle
  slice_middle bytes front middle back e =
      rw (e, drop-append front (middle ++ back)) (take-append middle back)

  -- What stands behind the records, and behind the directory.
  abbrev end_of : List File → List ℕ
  end_of files =
      le_bytes 4 eocd_signature
      ++ eocd_bytes (
          end_record (length files) (length (records_of files))
            (length (records_of files ++ directory_of 0 files)))

  pub around_record :
      (before after : List File) (f : File)
      → create_zip z (before ++ (f ∷ after))
        ≡ records_of before
          ++ (local_record z f
              ++ (records_of after
                  ++ (directory_of 0 (before ++ (f ∷ after)) ++ end_of (before ++ (f ∷ after)))))
  around_record before after f =
      let files = before ++ (f ∷ after) in
      create_zip_lem files
      ∙ ap (λ r. r ++ (directory_of 0 files ++ end_of files)) (records-append before (f ∷ after))
      ∙ append_assoc (records_of before) _ _
      ∙ ap (λ r. records_of before ++ r) (append_assoc (local_record z f) _ _)

  around_entry :
      (before after : List File) (f : File)
      → create_zip z (before ++ (f ∷ after))
        ≡ (records_of (before ++ (f ∷ after)) ++ directory_of 0 before)
          ++ (directory_entry (length (records_of before)) f
              ++ (directory_of (length (records_of before) + length (local_record z f)) after
                  ++ end_of (before ++ (f ∷ after))))
  around_entry before after f =
      let files = before ++ (f ∷ after) in
      let entry = directory_entry (length (records_of before)) f in
      create_zip_lem files
      ∙ ap (λ d. records_of files ++ (d ++ end_of files))
          (directory-append 0 before (f ∷ after)
            ∙ ap (λ n. directory_of 0 before ++ directory_of n (f ∷ after)) (omega arith))
      ∙ ap (λ d. records_of files ++ d) (append_assoc (directory_of 0 before) _ _)
      ∙ sym (append_assoc (records_of files) (directory_of 0 before) _)
      ∙ ap (λ d. (records_of files ++ directory_of 0 before) ++ d) (append_assoc entry _ _)

  -- Each file's record lies in the archive behind the records of the files before it, where the
  -- directory's entry for the file says: that entry stands behind those of the files before it.
  pub local_record-create_zip :
      (before after : List File) (f : File)
      → (slice
            (length (records_of before))
            (length (local_record z f))
            (create_zip z (before ++ (f ∷ after)))
          ≡ local_record z f)
        × (slice
              (length (records_of (before ++ (f ∷ after)) ++ directory_of 0 before))
              (length (directory_entry (length (records_of before)) f))
              (create_zip z (before ++ (f ∷ after)))
            ≡ directory_entry (length (records_of before)) f)
  local_record-create_zip before after f = (
    slice_middle _ (records_of before) (local_record z f) _ (around_record before after f),
    slice_middle _ (records_of (before ++ (f ∷ after)) ++ directory_of 0 before)
        (directory_entry (length (records_of before)) f) _ (around_entry before after f),
  )
