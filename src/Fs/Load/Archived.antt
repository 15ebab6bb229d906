-- ===== src/Fs/Load/Archived.antt =====
-- `getFile` on a file system whose root directory holds an archive that `createZIP` has written.
use packaged_task.Base.{
  ℕ, ◌+◌, ◌%◌, ◌^◌, ◌<◌, ◌≡◌, refl, ap, sym, ◌∙◌, List, [], ◌∷◌, ◌++◌, length, take, drop, All,
  take-append, drop-append, arith, append-nil, Bool-cases, true, false, not, ◌&&◌, inl, inr, ◌==◌,
  ==_ne, some,
}
use packaged_task.Base.Bytes.{bytes_eq_refl, bytes_eq, byte_sizes}
use packaged_task.Fs.ZipFormat.{CentralDirectoryFileHeader}
use packaged_task.Fs.Archive.{
  Zlib, File, uncompressed_data, stored_size, stored_method, local_record, file_info,
  central_header, deflated_method, create_zip,
}
use packaged_task.Fs.Archive.Layout.{records_of, around_record}
use packaged_task.Fs.Files.{FileData, c_string, zipped_file, add_zipped_dir, find_file}
use packaged_task.Fs.Files.Listing.{listed}
use packaged_task.Fs.Files.Opening.{add_zipped_dir-create_zip}
use packaged_task.Fs.Load.{
  Host, Entry, scan, add_if_opened, add_archives, file_system, load_member, load_zip_file,
  load_found, get_file, get_file_lem,
}
use packaged_task.Fs.Load.Member.{loaded, load_member-record}

-- The name under which a file is listed.
abbrev pub listed_name : File → List ℕ
listed_name f = c_string (take (length f.name % 2 ^ 16) f.name)

-- What is listed for a file whose record lies at `offset`.
abbrev member_at : Zlib → (archive : List ℕ) → (offset : ℕ) → File → FileData
member_at z archive offset f = record {
  is_zip = true;
  compressed = stored_method z f == deflated_method;
  compressed_size = stored_size z f;
  uncompressed_size = length f.contents % 2 ^ 32;
  lfh_offset = offset % 2 ^ 32;
  zip_fname = listed_name f;
  fname = archive;
}

passed_over :
    (archive member name : List ℕ) (h : CentralDirectoryFileHeader) (rest : List FileData)
    → bytes_eq name member ≡ false
    → find_file (zipped_file archive member h ++ rest) name ≡ find_file rest name
unfolding zipped_file find_file
passed_over archive member name h rest differs =
    elim (Bool-cases (h.uncompressed_size == 0 && not (h.compression_method == deflated_method))) [
      | inl e ↦ rw e refl
      | inr e ↦ rw (e, differs) refl
    ]

found_first :
    (archive member name : List ℕ) (h : CentralDirectoryFileHeader) (rest : List FileData)
    → bytes_eq name member ≡ true
    → (h.uncompressed_size == 0) ≡ false
    → find_file (zipped_file archive member h ++ rest) name
      ≡ some (record {
        is_zip = true;
        compressed = h.compression_method == deflated_method;
        compressed_size = h.compressed_size;
        uncompressed_size = h.uncompressed_size;
        lfh_offset = h.local_file_header_offset;
        zip_fname = member;
        fname = archive;
      })
unfolding zipped_file find_file
found_first archive member name h rest same full = rw (full, same) refl

module _ (z : Zlib) (archive : List ℕ) (f : File) (after : List File) where
  -- The first file of that name is found.
  find_file-listed :
      (name : List ℕ) (before : List File) (offset : ℕ)
      → name ≡ listed_name f
      → All (λ g. bytes_eq name (listed_name g) ≡ false) before
      → 0 < length f.contents
      → length f.contents < 2 ^ 32
      → find_file (listed z archive offset (before ++ (f ∷ after))) name
        ≡ some (member_at z archive (offset + length (records_of z before)) f)
  unfolding central_header file_info
  find_file-listed name [] offset same differ full small =
      let here : offset ≡ offset + 0 = omega arith in
      found_first archive (listed_name f) name (central_header f (file_info z offset f))
        (listed z archive (offset + length (local_record z f)) after)
        (ap (bytes_eq name) (sym same) ∙ bytes_eq_refl name)
        (==_ne (length f.contents % 2 ^ 32) 0 (λ e. omega (arith, e, full, small)))
      ∙ ap (λ n. some (member_at z archive n f)) here
  find_file-listed name (g ∷ before) offset same differ full small =
      let further : offset + length (local_record z g) + length (records_of z before)
          ≡ offset + length (local_record z g ++ records_of z before) =
        omega byte_sizes in
      passed_over archive (listed_name g) name (central_header g (file_info z offset g))
        (listed z archive (offset + length (local_record z g)) (before ++ (f ∷ after))) differ.0
      ∙ find_file-listed name before (offset + length (local_record z g)) same differ.1 full small
      ∙ ap (λ n. some (member_at z archive n f)) further

-- The list of an archive of at least one file.
listed_whole :
    (z : Zlib) (archive : List ℕ) (before : List File) (f : File) (after : List File)
    → All (λ g. z.crc32 (uncompressed_data g) < 2 ^ 32) (before ++ (f ∷ after))
    → length (before ++ (f ∷ after)) < 2 ^ 16
    → length (create_zip z (before ++ (f ∷ after))) < 2 ^ 32
    → add_zipped_dir archive (create_zip z (before ++ (f ∷ after)))
      ≡ listed z archive 0 (before ++ (f ∷ after))
listed_whole z archive [] f after = add_zipped_dir-create_zip z archive f after
listed_whole z archive (g ∷ before) f after =
    add_zipped_dir-create_zip z archive g (before ++ (f ∷ after))

All-middle :
    (P : File → Type 0) (before : List File) (f : File) (after : List File)
    → All P (before ++ (f ∷ after))
    → P f
All-middle P [] f after all = all.0
All-middle P (g ∷ before) f after all = All-middle P before f after all.1

-- The root directory that holds one archive.
abbrev pub archive_entry : (archive : List ℕ) → Entry
archive_entry archive = record { path = archive; is_regular_file = true; is_zip_extension = true }

only_archive :
    (host : Host) (root archive bytes : List ℕ)
    → host.open_file archive ≡ some bytes
    → (file_system host root (some (archive_entry archive ∷ []))).files
      ≡ add_zipped_dir archive bytes
unfolding file_system scan add_archives add_if_opened
only_archive host root archive bytes opens = rw opens (append-nil (add_zipped_dir archive bytes))

whole_name : (f : File) → length f.name < 2 ^ 16 → c_string f.name ≡ listed_name f
whole_name f named =
    let size : length f.name ≡ length f.name % 2 ^ 16 = omega (arith, named) in
    ap c_string (
      sym (take-append f.name [])
      ∙ ap (take (length f.name)) (append-nil f.name)
      ∙ ap (λ n. take n f.name) size)

load_found-member :
    (host : Host) (z : Zlib) (root : List ℕ) (zf : FileData) (bytes : List ℕ)
    → zf.is_zip ≡ true
    → host.open_file zf.fname ≡ some bytes
    → load_found host z root (some zf) ≡ load_member host z zf (some bytes)
unfolding load_found load_zip_file
load_found-member host z root zf bytes zipped opens = rw (zipped, opens) refl

-- A file that `createZIP` has put into an archive is what `getFile` loads under its name from a file
-- system whose root directory holds the archive alone: its contents, all of them, with the moment
-- that the packed date gives, under the archive's name. The file is not empty and is the first of
-- its name (up to a null byte), which is not empty; the name is below 2 ^ 16 bytes, contents and
-- archive below 2 ^ 32 bytes, the files are fewer than 2 ^ 16; a checksum fits 32 bits, and
-- `inflate` gives back the contents where `deflate` has made them shorter.
pub get_file-create_zip :
    (host : Host) (z : Zlib) (root archive : List ℕ) (before : List File) (f : File)
    (after : List File)
    → host.open_file archive ≡ some (create_zip z (before ++ (f ∷ after)))
    → All (λ g. z.crc32 (uncompressed_data g) < 2 ^ 32) (before ++ (f ∷ after))
    → length (before ++ (f ∷ after)) < 2 ^ 16
    → length (create_zip z (before ++ (f ∷ after))) < 2 ^ 32
    → All (λ g. bytes_eq (c_string f.name) (listed_name g) ≡ false) before
    → 0 < length (c_string f.name)
    → length f.name < 2 ^ 16
    → 0 < length f.contents
    → length f.contents < 2 ^ 32
    → (length (z.deflated f.contents) < length f.contents
        → z.inflated (length f.contents) (z.deflated f.contents) ≡ f.contents)
    → get_file host z (file_system host root (some (archive_entry archive ∷ []))) (c_string f.name)
      ≡ some (loaded host archive f)
get_file-create_zip host z root archive before f after opens sums few room differ there named full
      small restores =
    let bytes = create_zip z (before ++ (f ∷ after)) in
    let place = length (records_of z before) in
    let zf = member_at z archive (0 + place) f in
    let data_dir = (file_system host root (some (archive_entry archive ∷ []))).data_dir in
    let around = around_record z before after f in
    let near : (0 + place) % 2 ^ 32 ≡ place = omega (byte_sizes, room, ap length around) in
    get_file_lem host z (file_system host root (some (archive_entry archive ∷ [])))
      (c_string f.name) there
    ∙ ap (λ fs. load_found host z data_dir (find_file fs (c_string f.name)))
        (only_archive host root archive bytes opens
          ∙ listed_whole z archive before f after sums few room)
    ∙ ap (load_found host z data_dir) (
        find_file-listed z archive f after (c_string f.name) before 0 (whole_name f named) differ
          full small)
    ∙ load_found-member host z data_dir zf bytes refl opens
    ∙ load_member-record host z zf bytes _ f (All-middle _ before f after sums) named small restores
        (ap (λ n. drop n bytes) near ∙ ap (drop place) around ∙ drop-append (records_of z before) _)
        refl
