-- ===== src/Fs/Load.antt =====
-- `FileSystem` on a disk (src/fs/file_system.cpp): the constructor, `getFile` with the two ways to
-- load a file, and `writeFile`. The streams, the clock, `mktime` and zlib are parameters.
pub mod Member
pub mod Archived
pub mod Plain
use packaged_task.Base.{
  ℕ, ◌+◌, ◌<◌, ◌≡◌, refl, arith, ==_ne, List, [], ◌∷◌, ◌++◌, length, take, drop, replicate, Bool,
  true, false, not, ◌==◌, ◌&&◌, Option, none, some, if◌then◌else◌,
}
use packaged_task.Base.Bytes.{bytes_eq}
use packaged_task.Fs.DosTime.{Tm, unpack_dos_time}
use packaged_task.Fs.ZipFormat.{local_of, size_of_local}
use packaged_task.Fs.Stream.{FileStream, opened, seek, skip, tell, read_into}
use packaged_task.Fs.Archive.{Zlib, local_signature}
use packaged_task.Fs.Files.{FileData, plain_file, add_zipped_dir, find_file, file_name, write_file}
use packaged_task.Fs.Memory.{BufferedFile, IFile, get_name, contents_of}

-- The operating system and the C library: the bytes of a file that can be opened, the time of its
-- last write, and `mktime`.
pub record Host : Type 0 where
  pub open_file : (path : List ℕ) → Option (List ℕ)
  pub last_write_time : (path : List ℕ) → ℕ
  pub mktime : Tm → ℕ

-- `m_data_dir` and `m_files`.
pub record FileSystem : Type 0 where
  pub data_dir : List ℕ
  pub files : List FileData

-- What the recursive directory iterator yields: `generic_string`, and what std::filesystem says of
-- it.
pub record Entry : Type 0 where
  pub path : List ℕ
  pub is_regular_file : Bool
  pub is_zip_extension : Bool

-- `m_data_dir + '/' + name`
abbrev pub below : (data_dir name : List ℕ) → List ℕ
below data_dir name = data_dir ++ (b'/' ∷ name)

-- The loop of the constructor: the paths of the archives, and the plain files.
unfoldable pub scan : (data_dir : List ℕ) → List Entry → List (List ℕ) × List FileData
scan data_dir [] = ([], [])
scan data_dir (e ∷ es) =
    let (archives, files) = scan data_dir es in
    if not e.is_regular_file
    then (archives, files)
    else if e.is_zip_extension
    then (e.path ∷ archives, files)
    else (archives, plain_file (drop (length data_dir + 1) e.path) ∷ files)

-- `addZippedDir`: an archive that cannot be opened is passed over.
unfoldable pub add_if_opened : (archive : List ℕ) → Option (List ℕ) → List FileData
add_if_opened archive none = []
add_if_opened archive (some bytes) = add_zipped_dir archive bytes

unfoldable pub add_archives : Host → List (List ℕ) → List FileData
add_archives host [] = []
add_archives host (a ∷ as') = add_if_opened a (host.open_file a) ++ add_archives host as'

-- The constructor; `none` if the root is no directory.
unfoldable pub file_system : Host → (root_dir : List ℕ) → Option (List Entry) → FileSystem
file_system host root_dir none = record { data_dir = root_dir; files = [] }
file_system host root_dir (some entries) =
    let (archives, files) = scan root_dir entries in
    record { data_dir = root_dir; files = files ++ add_archives host archives }

-- `inflate` into a cleared buffer.
unfoldable pub inflate_into : Zlib → (avail_out : ℕ) → List ℕ → List ℕ
inflate_into z avail_out packed =
    let out = z.inflated avail_out packed in out ++ drop (length out) (replicate avail_out 0)

-- `loadZipFile`, with the stream's bytes; `none` is an exception.
unfoldable pub load_member : Host → Zlib → FileData → Option (List ℕ) → Option BufferedFile
load_member host z zf none = none
load_member host z zf (some bytes) =
    let (header, s₁) =
      read_into size_of_local (replicate size_of_local 0) (seek zf.lfh_offset (opened bytes)) in
    let lfh = local_of header in
    let s₂ = skip lfh.extra_field_length (skip lfh.filename_length s₁) in
    let (read_buffer, s₃) = read_into lfh.compressed_size (replicate lfh.compressed_size 0) s₂ in
    if not (lfh.signature == local_signature)
    then none
    else some (record {
      name = zf.fname;
      file_size = if zf.compressed then lfh.uncompressed_size else lfh.compressed_size;
      data_bytes =
          if zf.compressed then inflate_into z lfh.uncompressed_size read_buffer else read_buffer;
      last_write_time =
          host.mktime (
            unpack_dos_time
              (record { time = lfh.modification_time; date = lfh.modification_date }));
    })

unfoldable pub load_zip_file : Host → Zlib → FileData → Option BufferedFile
load_zip_file host z zf = load_member host z zf (host.open_file zf.fname)

-- `loadPermanentFile`, with the stream's bytes. `gcount()` is what lay behind the position.
unfoldable pub load_opened :
    Host → (data_dir : List ℕ) → FileData → Option (List ℕ) → Option BufferedFile
load_opened host data_dir f none = none
load_opened host data_dir f (some bytes) =
    let s = seek (length bytes) (opened bytes) in
    let file_size = tell s in
    let (contents, s') = read_into file_size (replicate file_size 0) (seek 0 s) in
    let gcount = length (take file_size bytes) in
    if s'.good && file_size == gcount
    then some (record {
      name = f.fname;
      file_size = file_size;
      data_bytes = contents;
      last_write_time = host.last_write_time (below data_dir f.fname);
    })
    else none

unfoldable pub load_permanent_file : Host → (data_dir : List ℕ) → FileData → Option BufferedFile
load_permanent_file host data_dir f =
    load_opened host data_dir f (host.open_file (below data_dir f.fname))

-- What `getFile` does with the file that it has found.
unfoldable pub load_found :
    Host → Zlib → (data_dir : List ℕ) → Option FileData → Option BufferedFile
load_found host z data_dir none = none
load_found host z data_dir (some f) =
    if f.is_zip then load_zip_file host z f else load_permanent_file host data_dir f

-- `getFile`; `none` is an exception, or the assertion that the name is not empty.
unfoldable pub get_file : Host → Zlib → FileSystem → (name : List ℕ) → Option BufferedFile
get_file host z fs name =
    if length name == 0 then none else load_found host z fs.data_dir (find_file fs.files name)

pub get_file_lem :
    (host : Host) (z : Zlib) (fs : FileSystem) (name : List ℕ)
    → 0 < length name
    → get_file host z fs name ≡ load_found host z fs.data_dir (find_file fs.files name)
unfolding get_file
get_file_lem host z fs name named = rw (==_ne (length name) 0 (λ e. omega (arith, e, named))) refl

-- A disk after a file has been written.
unfoldable pub stored_at : (path bytes : List ℕ) → (now : ℕ) → Host → Host
stored_at path bytes now host = record host {
  open_file = λ p. if bytes_eq p path then some bytes else host.open_file p;
  last_write_time = λ p. if bytes_eq p path then now else host.last_write_time p;
}

-- `writeFile`: `opens` tells whether the stream could be opened.
unfoldable pub write_to_disk :
    (opens : Bool)
    → (now : ℕ) → (path : List ℕ) → IFile
    → FileSystem
    → Host
    → (FileSystem × Host) × Bool
write_to_disk opens now path file fs host =
    let filename = file_name path (get_name file) in
    let (files, success) = write_file opens path (get_name file) fs.files in
    (
      (
        record fs { files = files },
        (if opens
            then stored_at (below fs.data_dir filename) (contents_of file) now host
            else host),
      ),
      success,
    )
