-- ===== src/Network.antt =====
-- src/network/connection.h and src/network/connection.cpp: the queue of received packets. The
-- socket is a parameter: what successive calls of `receiveFrom` give is a list of events. An
-- address is a value of a type `A`.
pub mod Queue
pub mod Sockets
pub mod Message
pub mod Delivery
use packaged_task.Base.{
  ℕ, zero, suc, ◌+◌, ◌%◌, ◌^◌, List, [], ◌∷◌, ◌++◌, length, take, drop, ltb, Bool, true, false,
  Option, none, some, if◌then◌else◌,
}
use packaged_task.MemoryStream.{InputMemoryStream, reset_head, set_capacity, copy}

abbrev pub packet_size : ℕ
packet_size = 1500

abbrev pub max_packets_per_frame_count : ℕ
max_packets_per_frame_count = 10

-- A datagram, with the time at which `GetMilisecFromStart` is then asked; a call that returns 0; or
-- an exception, with whether it is `connection_reset`.
pub data Event {ℓ} (A : Type ℓ) : Type ℓ where
  datagram : (from : A) (payload : List ℕ) (now : ℕ) → Event A
  nothing : Event A
  failure : (reset : Bool) → Event A

pub record ReceivedPacket {ℓ} (A : Type ℓ) : Type ℓ where
  pub received_time : ℕ
  pub packet_buffer : InputMemoryStream
  pub from_address : A

-- What `receive_from` writes: at most `packetSize` bytes, from the head on.
abbrev pub received : List ℕ → InputMemoryStream → InputMemoryStream
received payload s = record s {
  bytes = take s.head s.bytes ++ (payload ++ drop (s.head + length payload) s.bytes);
}

-- The static stream and the queue, oldest first, and what has been handed to `handleConnectionReset`
-- (its calls).
pub record Connection {ℓ} (A : Type ℓ) : Type ℓ where
  pub input_stream : InputMemoryStream
  pub packet_queue : List (ReceivedPacket A)
  pub resets : ℕ

-- How the reading loop ends: it returns, with the events that are left, or it waits in the socket.
pub data Incoming {ℓ} (A : Type ℓ) : Type ℓ where
  read_end : Connection A → (events : List (Event A)) → Incoming A
  waiting : Connection A → Incoming A

-- The packets whose `processPacket` returned, in order, the one whose call threw, and the queue.
pub record Processed {ℓ} (A : Type ℓ) : Type ℓ where
  pub completed : List (ReceivedPacket A)
  pub thrown : Option (ReceivedPacket A)
  pub queue : List (ReceivedPacket A)

-- How a frame ends: it returns, or throws what `processPacket` threw; or it is blocked in the socket.
pub data Frame {ℓ} (A : Type ℓ) : Type ℓ where
  finished :
      (completed : List (ReceivedPacket A)) (thrown : Option (ReceivedPacket A))
      → Connection A
      → (events : List (Event A)) → Frame A
  blocked : Connection A → Frame A

module _ {ℓ} {A : Type ℓ} where
  -- A packet is copied into the queue while the capacity is its size. The time is a `uint32_t`.
  unfoldable pub accept_packet : A → List ℕ → (now : ℕ) → Connection A → Connection A
  accept_packet from payload now c =
      let data_read = take packet_size payload in
      let stream = set_capacity (received data_read c.input_stream) (length data_read) in
      record c {
        input_stream = reset_head stream;
        packet_queue =
            c.packet_queue
            ++ (record {
              received_time = now % 2 ^ 32;
              packet_buffer = copy stream;
              from_address = from;
            }
                ∷ []);
      }

  -- `handleConnectionReset`, and the message to the log.
  unfoldable pub note_failure : Bool → Connection A → Connection A
  note_failure reset c = if reset then record c { resets = suc c.resets } else c

  -- The loop of `readIncomingPacketsIntoQueue`: `room` are the packets still to be taken. A failure
  -- does not count. The call of the socket is synchronous: where there is no event left, it waits.
  unfoldable pub read_incoming_packets : (room : ℕ) → List (Event A) → Connection A → Incoming A
  read_incoming_packets zero events c = read_end c events
  read_incoming_packets (suc room) [] c = waiting c
  read_incoming_packets (suc room) (datagram from [] now ∷ events) c = read_end c events
  read_incoming_packets (suc room) (datagram from (b ∷ bs) now ∷ events) c =
      read_incoming_packets room events (accept_packet from (b ∷ bs) now c)
  read_incoming_packets (suc room) (nothing ∷ events) c = read_end c events
  read_incoming_packets (suc room) (failure reset ∷ events) c =
      read_incoming_packets (suc room) events (note_failure reset c)

  -- The loop of `processQueuedPackets`. In each round `times` is the answer of
  -- `GetMilisecFromStart`, and `throws` is whether the call of `processPacket` throws, which leaves
  -- its packet in the queue.
  unfoldable pub process_queued_packets :
      (times : ℕ → ℕ) (throws : ℕ → Bool) (round : ℕ) → List (ReceivedPacket A) → Processed A
  process_queued_packets times throws round [] = record {
    completed = [];
    thrown = none;
    queue = [];
  }
  process_queued_packets times throws round (p ∷ queue) =
      let later = process_queued_packets times throws (suc round) queue in
      if ltb p.received_time (times round)
      then (if throws round
          then record { completed = []; thrown = some p; queue = p ∷ queue }
          else record later { completed = p ∷ later.completed })
      else record { completed = []; thrown = none; queue = p ∷ queue }

  unfoldable pub process_after : (times : ℕ → ℕ) (throws : ℕ → Bool) → Incoming A → Frame A
  process_after times throws (waiting c) = blocked c
  process_after times throws (read_end c events) =
      let p = process_queued_packets times throws 0 c.packet_queue in
      finished p.completed p.thrown (record c { packet_queue = p.queue }) events

  -- `processIncomingPackets`
  unfoldable pub process_incoming_packets :
      (times : ℕ → ℕ) (throws : ℕ → Bool) → List (Event A) → Connection A → Frame A
  process_incoming_packets times throws events c =
      process_after times throws (read_incoming_packets max_packets_per_frame_count events c)
