-- ===== src/Network/Message.antt =====
-- A string as a packet.
use packaged_task.Base.{
  ℕ, ◌+◌, ◌≤◌, ◌≡◌, ap, sym, ◌∙◌, List, [], length, append-nil, length-append, arith,
}
use packaged_task.Base.Bytes.{le_bytes, length-le_bytes}
use packaged_task.MemoryStream.{OutputMemoryStream, get_length, write_string, read_string, done}
use packaged_task.MemoryStream.RoundTrip.{
  stream_from, string_bytes, write_string-string_bytes, read_string-write_string,
}
use packaged_task.Network.{packet_size}

-- A stream that holds a string.
abbrev pub message : List ℕ → OutputMemoryStream
message str = write_string (record { buffer = [] }) str

-- A string that fits a packet with its length.
abbrev pub FitsPacket : List ℕ → Type 0
FitsPacket str = 4 + length str ≤ packet_size

pub length-message : (str : List ℕ) → FitsPacket str → length (message str).buffer ≡ 4 + length str
unfolding string_bytes
length-message str fits =
    ap length (write_string-string_bytes (record { buffer = [] }) str (omega arith))
    ∙ length-append (le_bytes 4 (length str)) str
    ∙ ap (λ n. n + length str) (length-le_bytes 4 (length str))

-- It is sent whole, and read as the string.
pub get_length-message :
    (str : List ℕ) → FitsPacket str → get_length (message str) ≡ length (message str).buffer
unfolding get_length
get_length-message str fits = omega (arith, length-message str fits)

pub read_string-message :
    (str : List ℕ)
    → FitsPacket str
    → read_string (stream_from 0 (message str).buffer)
      ≡ done str (stream_from (length (message str).buffer) (message str).buffer)
read_string-message str fits =
    ap (λ b. read_string (stream_from 0 b)) (sym (append-nil (message str).buffer))
    ∙ read_string-write_string (record { buffer = [] }) str [] (omega arith)
    ∙ ap (λ b. done str (stream_from (length (message str).buffer) b))
        (append-nil (message str).buffer)
