-- ===== src/Tests/Loads.antt =====
-- An archive on a disk that is read and extended, and plain files on a disk.
use packaged_task.Base.{
  ◌≡◌, refl, ℕ, List, [], ◌∷◌, ◌++◌, none, some, true, false, if◌then◌else◌, arith,
}
use packaged_task.Base.Bytes.{bytes_eq}
use packaged_task.Fs.Archive.{File, create_zip}
use packaged_task.Fs.Files.{FileData, c_string, plain_file, find_file, file_name}
use packaged_task.Fs.Extend.{has_name, add_file_to_zip}
use packaged_task.Fs.Extend.Names.{names_of}
use packaged_task.Fs.Extend.Appended.{add_file_to_zip-create_zip}
use packaged_task.Fs.Memory.{IFile, memory_file, get_name, contents_of, get_data, get_file_size}
use packaged_task.Fs.Load.{Host, FileSystem, Entry, file_system, get_file, write_to_disk}
use packaged_task.Fs.Load.Member.{loaded}
use packaged_task.Fs.Load.Archived.{archive_entry, get_file-create_zip}
use packaged_task.Fs.Load.Plain.{get_file-file_system, get_file-write_to_disk}
use packaged_task.Tests.Archives.{moment, stores, file_a, file_b, two-small}

abbrev file_c : File
file_c = record { name = 99 ∷ []; contents = 4 ∷ []; stamp = moment }

add_file_to_zip-create_zip_example :
    add_file_to_zip stores file_c (create_zip stores (file_a ∷ file_b ∷ [])) ≡ (
      if has_name (99 ∷ []) (names_of (file_a ∷ file_b ∷ []))
      then (create_zip stores (file_a ∷ file_b ∷ []), false)
      else (create_zip stores ((file_a ∷ file_b ∷ []) ++ (file_c ∷ [])), true))
add_file_to_zip-create_zip_example =
    add_file_to_zip-create_zip stores file_a (file_b ∷ []) file_c (omega arith, (omega arith, tt))
      (omega arith) two-small

-- A disk with an archive, and one with a text.
abbrev archive_name : List ℕ
archive_name = 122 ∷ []

abbrev archive_disk : Host
archive_disk = record {
  open_file = λ p.
      if bytes_eq p archive_name then some (create_zip stores (file_a ∷ file_b ∷ [])) else none;
  last_write_time = λ p. 5;
  mktime = λ t. t.tm_year;
}

archive_disk_opens :
    archive_disk.open_file archive_name ≡ some (create_zip stores (file_a ∷ file_b ∷ []))
unfolding bytes_eq
archive_disk_opens = refl

get_file-create_zip_example :
    get_file archive_disk stores
      (file_system archive_disk (114 ∷ []) (some (archive_entry archive_name ∷ [])))
      (98 ∷ [])
    ≡ some (loaded archive_disk archive_name file_b)
unfolding c_string bytes_eq
get_file-create_zip_example =
    get_file-create_zip archive_disk stores (114 ∷ []) archive_name (file_a ∷ []) file_b []
      archive_disk_opens (omega arith, (omega arith, tt)) (omega arith) two-small (refl, tt)
      (omega arith) (omega arith) (omega arith) (omega arith) (λ shorter. refl)

abbrev pub text_entry : Entry
text_entry = record {
  path = 114 ∷ b'/' ∷ 97 ∷ [];
  is_regular_file = true;
  is_zip_extension = false;
}

abbrev pub text_disk : Host
text_disk = record {
  open_file = λ p. if bytes_eq p (114 ∷ b'/' ∷ 97 ∷ []) then some (1 ∷ 2 ∷ 3 ∷ []) else none;
  last_write_time = λ p. 5;
  mktime = λ t. 0;
}

pub text_disk_opens : text_disk.open_file (114 ∷ b'/' ∷ 97 ∷ []) ≡ some (1 ∷ 2 ∷ 3 ∷ [])
unfolding bytes_eq
text_disk_opens = refl

get_file-file_system_example :
    get_file text_disk stores
      (file_system text_disk (114 ∷ []) (some (archive_entry archive_name ∷ text_entry ∷ [])))
      (97 ∷ [])
    ≡ some
        (record { name = 97 ∷ []; file_size = 3; data_bytes = 1 ∷ 2 ∷ 3 ∷ []; last_write_time = 5 })
get_file-file_system_example =
    get_file-file_system text_disk stores (114 ∷ []) (97 ∷ []) (1 ∷ 2 ∷ 3 ∷ [])
      (archive_entry archive_name ∷ []) text_entry [] (omega arith) refl refl refl text_disk_opens

abbrev note : IFile
note = memory_file (record { name = 98 ∷ []; data_bytes = 7 ∷ 8 ∷ []; last_write_time = 2 })

abbrev text_files : FileSystem
text_files = record { data_dir = 114 ∷ []; files = plain_file (97 ∷ []) ∷ [] }

nothing_archived :
    (f : FileData) → find_file (plain_file (97 ∷ []) ∷ []) (98 ∷ []) ≡ some f → f.is_zip ≡ false
unfolding find_file bytes_eq
nothing_archived f found = cc

get_file-write_to_disk_example :
    (get_file
        (write_to_disk true 9 [] note text_files text_disk).0.1
        stores
        (write_to_disk true 9 [] note text_files text_disk).0.0
        (98 ∷ [])
      ≡ some
          (record { name = 98 ∷ []; file_size = 2; data_bytes = 7 ∷ 8 ∷ []; last_write_time = 9 }))
    × ((write_to_disk true 9 [] note text_files text_disk).1 ≡ true)
unfolding file_name get_name contents_of get_data get_file_size
get_file-write_to_disk_example =
    get_file-write_to_disk text_disk stores 9 [] note text_files (omega arith) nothing_archived
