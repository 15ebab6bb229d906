-- ===== src/MemoryStream.antt =====
-- src/core/memory_stream.h and src/core/memory_stream.cpp: the byte buffers that objects are
-- written to and read from. A byte is a number below 256; `size_t` is unbounded, `uint32_t` wraps.
pub mod Bounds
pub mod RoundTrip
pub mod Reads
pub mod Moves
use packaged_task.Base.{
  ℕ, zero, suc, ◌+◌, ◌-◌, ◌%◌, ◌^◌, List, ◌++◌, length, take, drop, ltb, if◌then◌else◌, Bool, ◌&&◌,
  replicate,
}
use packaged_task.Base.Bytes.{le_bytes, from_le}

pub record OutputMemoryStream : Type 0 where
  pub buffer : List ℕ

-- `write(const int8_t *, size_t)`: the bytes go to the end of the buffer.
unfoldable pub write_bytes : OutputMemoryStream → List ℕ → OutputMemoryStream
write_bytes o bytes = record { buffer = o.buffer ++ bytes }

-- `write<T>` for an arithmetic or enumeration type of `size` bytes.
unfoldable pub write : (size : ℕ) → OutputMemoryStream → ℕ → OutputMemoryStream
unfolding write_bytes
write size o value = write_bytes o (le_bytes size value)

-- `write(const std::string &)`: the length as `uint32_t`, and as many bytes as that says.
unfoldable pub write_string : OutputMemoryStream → List ℕ → OutputMemoryStream
unfolding write_bytes write
write_string o s =
    let element_count = length s % 2 ^ 32 in
    write_bytes (write 4 o element_count) (take element_count s)

-- `getLength()` returns the size as `uint32_t`.
unfoldable pub get_length : OutputMemoryStream → ℕ
get_length o = length o.buffer % 2 ^ 32

-- `bytes` is what `_data` points to, which may be longer than `capacity`.
pub record InputMemoryStream : Type 0 where
  pub bytes : List ℕ
  pub head : ℕ
  pub capacity : ℕ

-- `InputMemoryStream(std::unique_ptr<int8_t[]>, size_t)` over a buffer of that many bytes.
unfoldable pub input : List ℕ → InputMemoryStream
input bytes = record { bytes = bytes; head = 0; capacity = length bytes }

-- `InputMemoryStream(size_t)`: `make_unique` clears the array.
unfoldable pub input_of_size : ℕ → InputMemoryStream
input_of_size size = record { bytes = replicate size 0; head = 0; capacity = size }

-- What a read ends in. `range_error` is the exception, and leaves the stream as shown; `fault` is
-- an access outside the array, which C++ leaves undefined.
pub data Read {ℓ} (A : Type ℓ) : Type ℓ where
  done : A → InputMemoryStream → Read A
  range_error : InputMemoryStream → Read A
  fault : Read A

abbrev pub Reader : Type 0 → Type 0
Reader A = InputMemoryStream → Read A

abbrev pub pure : {A : Type 0} → A → Reader A
pure a s = done a s

infixl 5 ◌>>=◌ ◌>>◌
abbrev pub ◌>>=◌ : {A B : Type 0} → Reader A → (A → Reader B) → Reader B
◌>>=◌ m f s = elim (m s) [ done a s' ↦ f a s' | range_error s' ↦ range_error s' | fault ↦ fault ]

abbrev pub ◌>>◌ : {A B : Type 0} → Reader A → Reader B → Reader B
m >> k = m >>= λ _. k

-- `read(void *, uint32_t)`: `_head + inByteCount` is stored in a `uint32_t` before the test, and
-- `memcpy` starts at `_head`.
unfoldable pub read_bytes : ℕ → Reader (List ℕ)
read_bytes count s =
    let result_head = (s.head + count) % 2 ^ 32 in
    if ltb s.capacity result_head
    then range_error s
    else if ltb (length s.bytes) (s.head + count)
    then fault
    else done (take count (drop s.head s.bytes)) (record s { head = result_head })

-- `read<T>` for an arithmetic or enumeration type of `size` bytes.
unfoldable pub read : (size : ℕ) → Reader ℕ
read size = do bytes ← read_bytes size; pure (from_le bytes)

-- `read(std::string &)`; `resize` to the announced length comes before the bytes are there.
unfoldable pub read_string : Reader (List ℕ)
read_string = do element_count ← read 4; read_bytes element_count

-- `getRemainingDataSize()` as the bit pattern of the `int32_t`.
unfoldable pub get_remaining_data_size : InputMemoryStream → ℕ
get_remaining_data_size s = (s.capacity + 2 ^ 64 - s.head) % 2 ^ 32

-- `x > 0` for the bit pattern of an `int32_t`.
abbrev pub is_positive32 : ℕ → Bool
is_positive32 x = ltb 0 x && ltb x (2 ^ 31)

unfoldable pub reset_head : InputMemoryStream → InputMemoryStream
reset_head s = record s { head = 0 }

unfoldable pub set_capacity : InputMemoryStream → ℕ → InputMemoryStream
set_capacity s capacity = record s { capacity = capacity }

-- The copy constructor and the copy assignment: a new array of `capacity` bytes. (The source's
-- array must be as long.)
unfoldable pub copy : InputMemoryStream → InputMemoryStream
copy s = record s { bytes = take s.capacity s.bytes }
