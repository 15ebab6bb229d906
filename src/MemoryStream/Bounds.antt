-- ===== src/MemoryStream/Bounds.antt =====
-- What a read does at and beyond the end of the data.
use packaged_task.Base.{
  ℕ, ◌+◌, ◌%◌, ◌^◌, ◌≤◌, ◌<◌, ◌≡◌, ap, ◌∙◌, List, length, take, drop, arith, ltb, if◌then◌else◌,
  length-take, length-drop,
}
use packaged_task.MemoryStream.{
  InputMemoryStream, done, range_error, fault, from_le, pure, ◌>>=◌, read_bytes, read, read_string,
  get_remaining_data_size,
}

-- The head is within the capacity, and the capacity within the array.
pub record IsValid (s : InputMemoryStream) : Type 0 where
  pub within : s.head ≤ s.capacity
  pub allocated : s.capacity ≤ length s.bytes

-- On a valid stream, where the head plus the count is below 2 ^ 32, a read throws and moves nothing
-- if the sum is above the capacity, and otherwise returns the bytes at the head and moves the head
-- behind them.
pub read_bytes_bounded :
    (s : InputMemoryStream) (count : ℕ)
    → IsValid s
    → s.head + count < 2 ^ 32
    → read_bytes count s ≡ (
        if ltb s.capacity (s.head + count)
        then range_error s
        else done (take count (drop s.head s.bytes)) (record s { head = s.head + count }))
unfolding read_bytes
read_bytes_bounded s count v small = ground arith

-- A read that succeeds on a valid stream returns as many bytes as it was asked for, leaves the array
-- and the capacity alone and the stream valid.
pub read_bytes-IsValid :
    (s t : InputMemoryStream) (count : ℕ) (bytes : List ℕ)
    → IsValid s
    → s.head + count < 2 ^ 32
    → read_bytes count s ≡ done bytes t
    → IsValid t
      × (length bytes ≡ count)
      × (t.head ≡ s.head + count)
      × (t.bytes ≡ s.bytes)
      × (t.capacity ≡ s.capacity)
unfolding read_bytes
read_bytes-IsValid s t count bytes v small e =
    ground (arith, length-take count (drop s.head s.bytes), length-drop s.head s.bytes)

-- Where the head plus the count lies beyond the array, but modulo 2 ^ 32 is at most the capacity, the
-- test passes and the access is outside the array.
pub read_bytes_wraps :
    (s : InputMemoryStream) (count : ℕ)
    → (s.head + count) % 2 ^ 32 ≤ s.capacity
    → length s.bytes < s.head + count
    → read_bytes count s ≡ fault
unfolding read_bytes
read_bytes_wraps s count h long = ground arith

-- A string whose length field makes the 32-bit sum wrap: on every valid stream over an array of
-- fewer than 2 ^ 32 bytes that holds the field, the access of `read_string` is outside the array,
-- where the length with the position behind the field is at least 2 ^ 32.
pub read_string_wraps :
    (s : InputMemoryStream)
    → IsValid s
    → length s.bytes < 2 ^ 32
    → s.head + 4 ≤ s.capacity
    → from_le (take 4 (drop s.head s.bytes)) < 2 ^ 32
    → 2 ^ 32 ≤ s.head + 4 + from_le (take 4 (drop s.head s.bytes))
    → read_string s ≡ fault
unfolding read_string read
read_string_wraps s v small room narrow wraps =
    let field : read_bytes 4 s
        ≡ done (take 4 (drop s.head s.bytes)) (record s { head = s.head + 4 }) =
      let plain = read_bytes_bounded s 4 v (omega (arith, v.allocated)) in ground (arith, plain) in
    let count = from_le (take 4 (drop s.head s.bytes)) in
    let beyond : read_bytes count (record s { head = s.head + 4 }) ≡ fault =
      read_bytes_wraps (record s { head = s.head + 4 }) count (omega (arith, v.within, v.allocated))
        (omega (arith, v.allocated)) in
    let announced : read 4 s ≡ done count (record s { head = s.head + 4 }) =
      ap (λ r. ((λ _. r) >>= (λ bytes. pure (from_le bytes))) s) field in
    ap (λ r. ((λ _. r) >>= read_bytes) s) announced ∙ beyond

-- The remaining size of a valid stream with a capacity below 2 ^ 31 is the number of bytes between
-- the head and the capacity.
pub get_remaining_data_size_lem :
    (s : InputMemoryStream)
    → IsValid s
    → s.capacity < 2 ^ 31
    → get_remaining_data_size s + s.head ≡ s.capacity
unfolding get_remaining_data_size
get_remaining_data_size_lem s v small = omega arith
