-- ===== src/Network/Delivery.antt =====
-- Strings sent with `sendPacket` over a network that loses nothing, up to the `processPacket` of the
-- receiver.
use packaged_task.Base.{
  ℕ, zero, suc, ◌%◌, ◌^◌, ◌≤◌, ◌<◌, ◌≡◌, refl, ap, List, [], ◌∷◌, length, take, arith, ◌⊎◌,
}
use packaged_task.MemoryStream.{read_string, Read, done}
use packaged_task.MemoryStream.RoundTrip.{stream_from}
use packaged_task.Network.{packet_size, Event, datagram, nothing, ReceivedPacket}
use packaged_task.Network.Sockets.{
  Addresses, SocketAddress, Tried, returned, system_error, UdpService, send_packet,
}
use packaged_task.Network.Message.{message}

pub take_whole {ℓ} : {A : Type ℓ} (n : ℕ) (b : List A) → length b ≤ n → take n b ≡ b
take_whole zero [] h = refl
take_whole zero (x ∷ b) h = absurd (omega arith)
take_whole (suc n) [] h = refl
take_whole (suc n) (x ∷ b) h = ap (◌∷◌ x) (take_whole n b (omega arith))

module _ {A : Type 0} (from : A) (now : ℕ) where
  -- Datagrams that arrive at a moment.
  abbrev pub datagrams : List (List ℕ) → List (Event A)
  datagrams [] = []
  datagrams (b ∷ bs) = datagram from b now ∷ datagrams bs

  abbrev arrived : List (List ℕ) → List (ReceivedPacket A)
  arrived [] = []
  arrived (b ∷ bs) =
      record {
        received_time = now % 2 ^ 32;
        packet_buffer = record { bytes = b; head = 0; capacity = length b };
        from_address = from;
      }
      ∷ arrived bs

  -- A datagram that has bytes, and not more than a packet.
  abbrev IsWhole : List ℕ → Type 0
  IsWhole b = (0 < length b) × (length b ≤ packet_size)

  abbrev packet : List ℕ → ReceivedPacket A
  packet b = record {
    received_time = now % 2 ^ 32;
    packet_buffer = record { bytes = b; head = 0; capacity = length b };
    from_address = from;
  }

  -- That the reading loop comes to its end behind the datagrams: they use up its room, or a call
  -- without data follows.
  abbrev pub ReadEnds : (room : ℕ) → List (List ℕ) → (rest : List (Event A)) → Type 0
  ReadEnds room bs rest = (length bs ≡ room) ⊎ ((later : List (Event A)) × (rest ≡ nothing ∷ later))

-- The bytes of the messages.
abbrev pub payloads : List (List ℕ) → List (List ℕ)
payloads [] = []
payloads (str ∷ strs) = (message str).buffer ∷ payloads strs

-- What `processPacket` reads from the packets that it is handed.
abbrev pub texts_read : {A : Type 0} → List (ReceivedPacket A) → List (Read (List ℕ))
texts_read [] = []
texts_read (p ∷ ps) = read_string p.packet_buffer ∷ texts_read ps

-- That a string is read and nothing is left.
abbrev pub all_read : List (List ℕ) → List (Read (List ℕ))
all_read [] = []
all_read (str ∷ strs) =
    done str (stream_from (length (message str).buffer) (message str).buffer) ∷ all_read strs

module _ (asio : Addresses) (udp : UdpService asio) where
  -- One call of `sendPacket` after the other, up to an exception.
  abbrev pub send_strings :
      List (List ℕ) → SocketAddress asio → udp.Socket → Tried asio udp.Socket (Unit {0})
  send_strings [] to s = returned tt s
  send_strings (str ∷ strs) to s = elim (send_packet asio udp (message str) to s) [
    | returned u s' ↦ send_strings strs to s'
    | system_error what s' ↦ system_error what s'
  ]
