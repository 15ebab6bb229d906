-- ===== src/Tests/Streams.antt =====
-- Reads within and beyond the data, a string, and the packets of a socket.
use packaged_task.Base.{
  ℕ, ◌+◌, ◌≡◌, refl, List, [], ◌∷◌, ◌++◌, length, ltb, if◌then◌else◌, true, Bool, ◌==◌, arith,
}
use packaged_task.Base.Bytes.{from_le}
use packaged_task.MemoryStream.{
  InputMemoryStream, done, range_error, fault, read_bytes, read_string, write_string,
}
use packaged_task.MemoryStream.Bounds.{IsValid, read_bytes_bounded, read_string_wraps}
use packaged_task.MemoryStream.RoundTrip.{stream_from, read_string-write_string}
use packaged_task.Network.{Event, datagram, nothing, failure, ReceivedPacket, Connection}

abbrev four_bytes : InputMemoryStream
four_bytes = record { bytes = 1 ∷ 2 ∷ 3 ∷ 4 ∷ []; head = 1; capacity = 4 }

four_bytes-IsValid : IsValid four_bytes
four_bytes-IsValid = record { within = omega arith; allocated = omega arith }

abbrev two_bytes_on : InputMemoryStream
two_bytes_on = record four_bytes { head = 3 }

read_bytes_bounded_example : read_bytes 2 four_bytes ≡ (
    if ltb 4 (1 + 2)
    then range_error four_bytes
    else done (2 ∷ 3 ∷ []) (record four_bytes { head = 1 + 2 }))
read_bytes_bounded_example = read_bytes_bounded four_bytes 2 four_bytes-IsValid (omega arith)

two_bytes_read : read_bytes 2 four_bytes ≡ done (2 ∷ 3 ∷ []) (record four_bytes { head = 3 })
unfolding read_bytes
two_bytes_read = refl

-- A length of 2 ^ 32 - 1, and no text.
abbrev long_string : InputMemoryStream
long_string = record { bytes = 255 ∷ 255 ∷ 255 ∷ 255 ∷ []; head = 0; capacity = 4 }

long_string-IsValid : IsValid long_string
long_string-IsValid = record { within = omega arith; allocated = omega arith }

read_string_wraps_example : read_string long_string ≡ fault
unfolding from_le
read_string_wraps_example =
    read_string_wraps long_string long_string-IsValid (omega arith) (omega arith) (omega arith)
      (omega arith)

read_string-write_string_example :
    read_string (
      stream_from 1
        ((write_string (record { buffer = 9 ∷ [] }) (104 ∷ 105 ∷ [])).buffer ++ (7 ∷ [])))
    ≡ done (104 ∷ 105 ∷ []) (
        stream_from
          (length (write_string (record { buffer = 9 ∷ [] }) (104 ∷ 105 ∷ [])).buffer)
          ((write_string (record { buffer = 9 ∷ [] }) (104 ∷ 105 ∷ [])).buffer ++ (7 ∷ [])))
read_string-write_string_example =
    read_string-write_string (record { buffer = 9 ∷ [] }) (104 ∷ 105 ∷ []) (7 ∷ []) (omega arith)

-- A long datagram that is in the shared stream, a failed call, and a short datagram.
abbrev after_long : Connection ℕ
after_long = record {
  input_stream = record { bytes = 1 ∷ 2 ∷ 3 ∷ []; head = 0; capacity = 3 };
  packet_queue = [];
  resets = 0;
}

abbrev short_packet : List (Event ℕ)
short_packet = failure true ∷ datagram 5 (8 ∷ []) 20 ∷ nothing ∷ []

abbrev queued : List (ReceivedPacket ℕ)
queued =
    record {
      received_time = 20;
      packet_buffer = record { bytes = 8 ∷ []; head = 0; capacity = 1 };
      from_address = 5;
    }
    ∷ []

abbrev busy : Connection ℕ
busy = record after_long { packet_queue = queued }

abbrev clock : ℕ → ℕ
clock i = 21

-- The second call of `processPacket` throws.
abbrev second : ℕ → Bool
second i = i == 1
