-- ===== src/MemoryStream/RoundTrip.antt =====
-- What is written is read back, whatever stands before and behind it.
use packaged_task.Base.{
  ℕ, ◌+◌, ◌%◌, ◌^◌, ◌<◌, ◌≡◌, refl, ap, ◌∙◌, List, ◌++◌, [], ◌∷◌, length, take, arith,
  length-append, drop-append, take-append, append_assoc,
}
use packaged_task.Base.Bytes.{le_bytes, from_le-le_bytes, length-le_bytes, byte_sizes}
use packaged_task.MemoryStream.{
  OutputMemoryStream, InputMemoryStream, done, read_bytes, read, read_string, write, write_string,
  ◌>>=◌,
}

-- The stream over a whole buffer when `front` has been read and `rest` has not.
abbrev pub stream_at : List ℕ → List ℕ → InputMemoryStream
stream_at front rest = record {
  bytes = front ++ rest;
  head = length front;
  capacity = length (front ++ rest);
}

stream_at-append :
    (a b c : List ℕ) → stream_at a (b ++ c) ≡ record (stream_at (a ++ b) c) { head = length a }
stream_at-append a b c = rw (append_assoc a b c) refl

pub read_bytes-stream_at :
    (front bytes rest : List ℕ)
    → length front + length bytes < 2 ^ 32
    → read_bytes (length bytes) (stream_at front (bytes ++ rest))
      ≡ done bytes (stream_at (front ++ bytes) rest)
unfolding read_bytes
read_bytes-stream_at front bytes rest small = ground (
  arith,
  append_assoc front bytes rest,
  length-append front (bytes ++ rest),
  length-append front bytes,
  length-append bytes rest,
  drop-append front (bytes ++ rest),
  take-append bytes rest,
)

pub read-stream_at :
    (size value : ℕ) (front rest : List ℕ)
    → value < 256 ^ size
    → length front + size < 2 ^ 32
    → read size (stream_at front (le_bytes size value ++ rest))
      ≡ done value (stream_at (front ++ le_bytes size value) rest)
unfolding read
read-stream_at size value front rest fits small =
    rw (bytes_read, read, ◌>>=◌, from_le-le_bytes size value fits)
  where
    bytes_read :
        read_bytes size (stream_at front (le_bytes size value ++ rest))
        ≡ done (le_bytes size value) (stream_at (front ++ le_bytes size value) rest)
    bytes_read =
        rw (length-le_bytes size value) at
          (read_bytes-stream_at front (le_bytes size value) rest (omega byte_sizes))

-- The bytes that `write<T>` puts behind a buffer.
pub buffer-write :
    (size : ℕ) (o : OutputMemoryStream) (value : ℕ)
    → (write size o value).buffer ≡ o.buffer ++ le_bytes size value
unfolding write
buffer-write size o value = refl

-- A string as the stream holds it.
unfoldable pub string_bytes : List ℕ → List ℕ
string_bytes s = le_bytes 4 (length s) ++ s

take-length {ℓ} : {A : Type ℓ} (xs : List A) → take (length xs) xs ≡ xs
take-length [] = refl
take-length (x ∷ xs) = ap (◌∷◌ x) (take-length xs)

pub write_string-string_bytes :
    (o : OutputMemoryStream) (s : List ℕ)
    → length s < 2 ^ 32
    → (write_string o s).buffer ≡ o.buffer ++ string_bytes s
unfolding write_string string_bytes
write_string-string_bytes o s small =
    let whole : length s % 2 ^ 32 ≡ length s = omega arith in
    rw (whole, take-length s) (append_assoc o.buffer (le_bytes 4 (length s)) s)

pub read_string-string_bytes :
    (front s rest : List ℕ)
    → length front + 4 + length s < 2 ^ 32
    → read_string (stream_at front (string_bytes s ++ rest))
      ≡ done s (stream_at (front ++ string_bytes s) rest)
unfolding read_string string_bytes
read_string-string_bytes front s rest small = rw (
  append_assoc (le_bytes 4 (length s)) s rest,
  read-stream_at 4 (length s) front (s ++ rest) (omega arith) (omega arith),
  ◌>>=◌,
  read_bytes-stream_at (front ++ le_bytes 4 (length s)) s rest ahead,
  append_assoc front (le_bytes 4 (length s)) s,
)
  where
    ahead : length (front ++ le_bytes 4 (length s)) + length s < 2 ^ 32
    ahead = omega byte_sizes

-- The stream over a whole buffer with the head at a position.
abbrev pub stream_from : ℕ → List ℕ → InputMemoryStream
stream_from head bytes = record { bytes = bytes; head = head; capacity = length bytes }

-- Whatever the buffer held before and whatever follows, a string written to it is read back from the
-- position where it was written, and the head then stands behind it, provided that the end of the
-- string is below 2 ^ 32.
pub read_string-write_string :
    (o : OutputMemoryStream) (s rest : List ℕ)
    → length o.buffer + 4 + length s < 2 ^ 32
    → read_string (stream_from (length o.buffer) ((write_string o s).buffer ++ rest))
      ≡ done s (stream_from (length (write_string o s).buffer) ((write_string o s).buffer ++ rest))
read_string-write_string o s rest small =
    rw (write_string-string_bytes o s (omega arith), append_assoc o.buffer (string_bytes s) rest)
      (read_string-string_bytes o.buffer s rest small
        ∙ rw (append_assoc o.buffer (string_bytes s) rest))
