-- ===== src/Fs/Memory.antt =====
-- Files that lie in memory (src/fs/file.h, src/fs/file.cpp). A moment is a `std::time_t`; what the
-- clock says is an argument.
use packaged_task.Base.{ℕ, List, [], ◌++◌, length, take}

pub record MemoryFile : Type 0 where
  pub name : List ℕ
  pub data_bytes : List ℕ
  pub last_write_time : ℕ

pub record BufferedFile : Type 0 where
  pub name : List ℕ
  pub file_size : ℕ
  pub data_bytes : List ℕ
  pub last_write_time : ℕ

-- `IFile` and its two classes.
pub data IFile : Type 0 where
  memory_file : MemoryFile → IFile
  buffered_file : BufferedFile → IFile

-- `MemoryFile(name)`; the default constructor takes the name from `GetTempFileName`.
unfoldable pub named_file : (now : ℕ) → (name : List ℕ) → MemoryFile
named_file now name = record { name = name; data_bytes = []; last_write_time = now }

-- `MemoryFile(name, data, length)`
unfoldable pub file_with_data : (now : ℕ) → (name source : List ℕ) → (len : ℕ) → MemoryFile
file_with_data now name source len = record {
  name = name;
  data_bytes = take len source;
  last_write_time = now;
}

-- `MemoryFile::write`, where its assertions hold: the buffer is not null and `len` is above 0.
unfoldable pub append_data : (now : ℕ) → (buffer : List ℕ) → (len : ℕ) → MemoryFile → MemoryFile
append_data now buffer len f = record f {
  data_bytes = f.data_bytes ++ take len buffer;
  last_write_time = now;
}

unfoldable pub get_data : IFile → List ℕ
get_data (memory_file f) = f.data_bytes
get_data (buffered_file f) = f.data_bytes

unfoldable pub get_file_size : IFile → ℕ
get_file_size (memory_file f) = length f.data_bytes
get_file_size (buffered_file f) = f.file_size

unfoldable pub time_stamp : IFile → ℕ
time_stamp (memory_file f) = f.last_write_time
time_stamp (buffered_file f) = f.last_write_time

unfoldable pub get_name : IFile → List ℕ
get_name (memory_file f) = f.name
get_name (buffered_file f) = f.name

-- What is read through `getData()` and `getFileSize()`.
unfoldable pub contents_of : IFile → List ℕ
contents_of f = take (get_file_size f) (get_data f)
