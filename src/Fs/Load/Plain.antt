-- ===== src/Fs/Load/Plain.antt =====
-- Plain files of the root directory: found by the constructor, loaded, written.
use packaged_task.Base.{
  ℕ, ◌+◌, ◌<◌, ◌≡◌, refl, ap, sym, ◌∙◌, List, [], ◌∷◌, ◌++◌, length, take, drop, drop-append,
  take-append, length-append, append_assoc, append-nil, arith, Bool-cases, true, false, inl, inr,
  ==_refl, le→ltb, replicate, some, if◌then◌else◌,
}
use packaged_task.Base.Bytes.{bytes_eq_refl, bytes_eq→eq, bytes_eq}
use packaged_task.Fs.Stream.{seek, tell, read_into}
use packaged_task.Fs.Stream.Reading.{drop-all, length-replicate}
use packaged_task.Fs.Archive.{Zlib}
use packaged_task.Fs.Files.{
  FileData, plain_file, shown_name, is_exist, find_file, file_name, write_file,
}
use packaged_task.Fs.Files.Lookup.{find_file-is_exist}
use packaged_task.Fs.Memory.{BufferedFile, IFile, get_name, contents_of}
use packaged_task.Fs.Load.{
  Host, FileSystem, Entry, below, scan, add_archives, file_system, load_opened, load_permanent_file,
  load_found, get_file, get_file_lem, stored_at, write_to_disk,
}

-- What is loaded of a plain file with these bytes.
abbrev plainly : (name bytes : List ℕ) → (time : ℕ) → BufferedFile
plainly name bytes time = record {
  name = name;
  file_size = length bytes;
  data_bytes = bytes;
  last_write_time = time;
}

take-all : (bytes : List ℕ) → take (length bytes) bytes ≡ bytes
take-all bytes = ap (take (length bytes)) (sym (append-nil bytes)) ∙ take-append bytes []

-- A file that could be opened is loaded whole: the read cannot come up short.
load_opened_lem :
    (host : Host) (data_dir bytes : List ℕ) (f : FileData)
    → load_opened host data_dir f (some bytes)
      ≡ some (plainly f.fname bytes (host.last_write_time (below data_dir f.fname)))
unfolding load_opened seek tell read_into
load_opened_lem host data_dir bytes f =
    rw
      (
        le→ltb (length bytes) (0 + length bytes) (omega arith),
        take-all bytes,
        ==_refl (length bytes),
      )
      (ap
        (λ d. some (record {
          name = f.fname;
          file_size = length bytes;
          data_bytes = d;
          last_write_time = host.last_write_time (below data_dir f.fname);
        }))
        (ap (λ r. bytes ++ r)
            (drop-all (length bytes) (replicate (length bytes) 0)
              (length-replicate (length bytes) 0))
          ∙ append-nil bytes))

load_found-plain :
    (host : Host) (z : Zlib) (data_dir bytes : List ℕ) (f : FileData)
    → f.is_zip ≡ false
    → host.open_file (below data_dir f.fname) ≡ some bytes
    → load_found host z data_dir (some f)
      ≡ some (plainly f.fname bytes (host.last_write_time (below data_dir f.fname)))
unfolding load_found load_permanent_file load_opened
load_found-plain host z data_dir bytes f plain opens =
    rw (plain, opens) (load_opened_lem host data_dir bytes f)

root_erased : (root name : List ℕ) → drop (length root + 1) (below root name) ≡ name
root_erased root name =
    let prefix : length (root ++ (b'/' ∷ [])) ≡ length root + 1 = length-append root (b'/' ∷ []) in
    ap (λ n. drop n (below root name)) (sym prefix)
    ∙ ap (drop (length (root ++ (b'/' ∷ [])))) (sym (append_assoc root (b'/' ∷ []) name))
    ∙ drop-append (root ++ (b'/' ∷ [])) name

plain_found :
    (name m : List ℕ) (files : List FileData)
    → find_file files name ≡ some (plain_file name)
    → find_file (plain_file m ∷ files) name ≡ some (plain_file name)
unfolding find_file
plain_found name m files later = elim (Bool-cases (bytes_eq name m)) [
  | inl same ↦ rw same (ap (λ n. some (plain_file n)) (sym (bytes_eq→eq name m same)))
  | inr differs ↦ rw differs later
]

-- Plain files are listed in front of every archive.
find_file-scan :
    (root name : List ℕ) (before : List Entry) (e : Entry) (after : List Entry)
    (archived : List FileData)
    → e.is_regular_file ≡ true
    → e.is_zip_extension ≡ false
    → e.path ≡ below root name
    → find_file ((scan root (before ++ (e ∷ after))).1 ++ archived) name ≡ some (plain_file name)
unfolding scan find_file
find_file-scan root name [] e after archived regular plain here =
    let erased : drop (length root + 1) e.path ≡ name =
      ap (drop (length root + 1)) here ∙ root_erased root name in
    rw (regular, plain, erased, bytes_eq_refl name) refl
find_file-scan root name (d ∷ before) e after archived regular plain here =
    let later = find_file-scan root name before e after archived regular plain here in
    elim (Bool-cases d.is_regular_file) [
      | inl r ↦ elim (Bool-cases d.is_zip_extension) [
        | inl zip ↦ rw (r, zip) later
        | inr other ↦ rw (r, other) (plain_found name (drop (length root + 1) d.path) _ later)
      ]
      | inr other ↦ rw other later
    ]

-- A regular file below the root directory that is no archive is found by the constructor, and
-- `getFile` loads it whole under its path without the root, with the time of its last write, whatever
-- else the directory holds; the file can be opened, and the name is not empty.
pub get_file-file_system :
    (host : Host) (z : Zlib) (root name bytes : List ℕ) (before : List Entry) (e : Entry)
    (after : List Entry)
    → 0 < length name
    → e.is_regular_file ≡ true
    → e.is_zip_extension ≡ false
    → e.path ≡ below root name
    → host.open_file (below root name) ≡ some bytes
    → get_file host z (file_system host root (some (before ++ (e ∷ after)))) name
      ≡ some (record {
        name = name;
        file_size = length bytes;
        data_bytes = bytes;
        last_write_time = host.last_write_time (below root name);
      })
unfolding file_system
get_file-file_system host z root name bytes before e after named regular plain here opens =
    get_file_lem host z (file_system host root (some (before ++ (e ∷ after)))) name named
    ∙ ap (load_found host z root) (
        find_file-scan root name before e after
          (add_archives host (scan root (before ++ (e ∷ after))).0) regular plain here)
    ∙ load_found-plain host z root bytes (plain_file name) refl opens

appended_found :
    (files : List FileData) (name : List ℕ)
    → is_exist files name ≡ false
    → find_file (files ++ (plain_file name ∷ [])) name ≡ some (plain_file name)
unfolding is_exist find_file
appended_found [] name absent = rw (bytes_eq_refl name) refl
appended_found (f ∷ files) name absent = elim (Bool-cases (bytes_eq name (shown_name f))) [
  | inl same ↦ absurd (ground (arith, absent, same))
  | inr differs ↦ rw differs (appended_found files name (ground (arith, absent, differs)))
]

-- What is found under the name of a file that has just been written.
module _ (path name : List ℕ) (files : List FileData) where
  written_found :
      ((f : FileData) → find_file files (file_name path name) ≡ some f → f.is_zip ≡ false)
      → (g : FileData) × (find_file (write_file true path name files).0 (file_name path name)
          ≡ some g)
        × (g.is_zip ≡ false)
        × (g.fname ≡ file_name path name)
  unfolding write_file
  written_found shadowed = elim (Bool-cases (is_exist files (file_name path name))) [
    | inl there ↦
        let (g, found, named) = (find_file-is_exist files (file_name path name)).0 there in
        let plain = shadowed g found in (g, rw there found, plain, sym (rw plain at named))
    | inr absent ↦ (
      plain_file (file_name path name),
      rw absent (appended_found files (file_name path name) absent),
      refl,
      refl,
    )
  ]

-- After a file has been written, `getFile` gives its contents under its path, with the time of the
-- write, and the result is true; unless an archive has a file of that path listed first. The stream
-- could be opened, and the path is not empty.
pub get_file-write_to_disk :
    (host : Host) (z : Zlib) (now : ℕ) (path : List ℕ) (file : IFile) (fs : FileSystem)
    → 0 < length (file_name path (get_name file))
    → ((f : FileData)
        → find_file fs.files (file_name path (get_name file)) ≡ some f
        → f.is_zip ≡ false)
    → (get_file
          (write_to_disk true now path file fs host).0.1
          z
          (write_to_disk true now path file fs host).0.0
          (file_name path (get_name file))
        ≡ some (record {
          name = file_name path (get_name file);
          file_size = length (contents_of file);
          data_bytes = contents_of file;
          last_write_time = now;
        }))
      × ((write_to_disk true now path file fs host).1 ≡ true)
unfolding write_to_disk stored_at write_file
get_file-write_to_disk host z now path file fs named shadowed =
    let filename = file_name path (get_name file) in
    let host' = stored_at (below fs.data_dir filename) (contents_of file) now host in
    let (g, found, plain, same) = written_found path (get_name file) fs.files shadowed in
    let written : (p : List ℕ)
        → p ≡ filename
        → bytes_eq (below fs.data_dir p) (below fs.data_dir filename) ≡ true =
      λ p e. rw e (bytes_eq_refl (below fs.data_dir filename)) in
    (
      get_file_lem host' z (write_to_disk true now path file fs host).0.0 filename named
          ∙ ap (load_found host' z fs.data_dir) found
          ∙ load_found-plain host' z fs.data_dir (contents_of file) g plain (
              ap
                (λ b.
                  if b then some (contents_of file) else host.open_file (below fs.data_dir g.fname))
                (written g.fname same))
          ∙ ap
              (λ b. some (
                plainly g.fname (contents_of file)
                  (if b then now else host.last_write_time (below fs.data_dir g.fname))))
              (written g.fname same)
          ∙ ap (λ n. some (plainly n (contents_of file) now)) same,
      refl,
    )
