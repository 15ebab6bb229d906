-- ===== src/Network/Queue.antt =====
-- What `readIncomingPacketsIntoQueue` puts into the queue, and what `processQueuedPackets` takes.
use packaged_task.Base.{
  ℕ, zero, suc, ◌+◌, ◌%◌, ◌^◌, ◌≤◌, ◌≡◌, refl, ap, sym, subst, ◌∙◌, List, [], ◌∷◌, ◌++◌, length,
  take, drop, take-append, arith, append_assoc, append-nil, Bool, true, false, ◌<◌, ◌⊎◌, inl, inr,
  Option, none, some,
}
use packaged_task.MemoryStream.{InputMemoryStream, reset_head, set_capacity, copy}
use packaged_task.Network.{
  packet_size, Event, datagram, nothing, failure, ReceivedPacket, received, Connection, Incoming,
  read_end, waiting, Processed, Frame, finished, blocked, accept_packet, note_failure,
  read_incoming_packets, max_packets_per_frame_count,
}

written_at :
    (h : ℕ) (fresh bytes : List ℕ)
    → h ≡ 0
    → take (length fresh) (take h bytes ++ (fresh ++ drop (h + length fresh) bytes)) ≡ fresh
written_at h fresh bytes e =
    subst
      (λ n. take (length fresh) (take n bytes ++ (fresh ++ drop (n + length fresh) bytes)) ≡ fresh)
      (sym e) (take-append fresh (drop (0 + length fresh) bytes))

-- The first bytes of the shared stream, after its start is overwritten.
overwritten :
    (s : InputMemoryStream) (fresh : List ℕ)
    → s.head ≡ 0
    → copy (set_capacity (received fresh s) (length fresh))
      ≡ record { bytes = fresh; head = 0; capacity = length fresh }
unfolding set_capacity copy
overwritten s fresh e =
    ap (λ b. record { bytes = b; head = s.head; capacity = length fresh })
      (written_at s.head fresh s.bytes e)
    ∙ ap (λ h. record { bytes = fresh; head = h; capacity = length fresh }) e

module _ {ℓ} {A : Type ℓ} where
  -- The packets that the next calls of the socket bring, at most `room` of them: up to the first call
  -- without data, each with a buffer of its own that holds its first 1500 bytes.
  abbrev pub arrivals : (room : ℕ) → List (Event A) → List (ReceivedPacket A)
  arrivals zero events = []
  arrivals (suc room) [] = []
  arrivals (suc room) (datagram from [] now ∷ events) = []
  arrivals (suc room) (datagram from (b ∷ bs) now ∷ events) =
      record {
        received_time = now % 2 ^ 32;
        packet_buffer = record {
          bytes = take packet_size (b ∷ bs);
          head = 0;
          capacity = length (take packet_size (b ∷ bs));
        };
        from_address = from;
      }
      ∷ arrivals room events
  arrivals (suc room) (nothing ∷ events) = []
  arrivals (suc room) (failure reset ∷ events) = arrivals (suc room) events

  -- A packet of a buffer.
  abbrev packet : A → (now capacity : ℕ) → List ℕ → ReceivedPacket A
  packet from now capacity bytes = record {
    received_time = now % 2 ^ 32;
    packet_buffer = record { bytes = bytes; head = 0; capacity = capacity };
    from_address = from;
  }

  accept_packet_lem :
      (from : A) (payload : List ℕ) (now : ℕ) (c : Connection A)
      → c.input_stream.head ≡ 0
      → (accept_packet from payload now c).packet_queue
        ≡ c.packet_queue
          ++ (packet from now (length (take packet_size payload)) (take packet_size payload) ∷ [])
  unfolding accept_packet
  accept_packet_lem from payload now c e =
      ap
        (λ b.
          c.packet_queue
          ++ (record { received_time = now % 2 ^ 32; packet_buffer = b; from_address = from } ∷ []))
        (overwritten c.input_stream (take packet_size payload) e)

  accept_packet-head :
      (from : A) (payload : List ℕ) (now : ℕ) (c : Connection A)
      → (accept_packet from payload now c).input_stream.head ≡ 0
  unfolding accept_packet reset_head set_capacity
  accept_packet-head from payload now c = refl

  note_failure-queue :
      (reset : Bool) (c : Connection A) → (note_failure reset c).packet_queue ≡ c.packet_queue
  unfolding note_failure
  note_failure-queue true c = refl
  note_failure-queue false c = refl

  note_failure-stream :
      (reset : Bool) (c : Connection A) → (note_failure reset c).input_stream ≡ c.input_stream
  unfolding note_failure
  note_failure-stream true c = refl
  note_failure-stream false c = refl

  -- Whether one of the calls brings no data.
  abbrev pub has_quiet : List (Event A) → Bool
  has_quiet [] = false
  has_quiet (datagram from [] now ∷ events) = true
  has_quiet (datagram from (b ∷ bs) now ∷ events) = has_quiet events
  has_quiet (nothing ∷ events) = true
  has_quiet (failure reset ∷ events) = has_quiet events

  -- What the loop has done when it returns, and when it waits.
  abbrev pub IsRead : (room : ℕ) → List (Event A) → Connection A → Incoming A → Type ℓ
  IsRead room events c (read_end c' rest) =
      (c'.packet_queue ≡ c.packet_queue ++ arrivals room events)
      × ((length (arrivals room events) ≡ room) ⊎ (has_quiet events ≡ true))
  IsRead room events c (waiting c') =
      (c'.packet_queue ≡ c.packet_queue ++ arrivals room events)
      × (length (arrivals room events) < room)
      × (has_quiet events ≡ false)

  IsRead-one :
      (room : ℕ) (p : ReceivedPacket A) (event : Event A) (events : List (Event A))
      (c c' : Connection A) (r : Incoming A)
      → c'.packet_queue ≡ c.packet_queue ++ (p ∷ [])
      → arrivals (suc room) (event ∷ events) ≡ p ∷ arrivals room events
      → has_quiet (event ∷ events) ≡ has_quiet events
      → IsRead room events c' r
      → IsRead (suc room) (event ∷ events) c r
  IsRead-one room p event events c c' (read_end d rest) q a h (queue, inl full) = (
    queue
        ∙ ap (λ w. w ++ arrivals room events) q
        ∙ append_assoc c.packet_queue (p ∷ []) (arrivals room events)
        ∙ ap (λ w. c.packet_queue ++ w) (sym a),
    inl (ap length a ∙ ap suc full),
  )
  IsRead-one room p event events c c' (read_end d rest) q a h (queue, inr quiet) = (
    queue
        ∙ ap (λ w. w ++ arrivals room events) q
        ∙ append_assoc c.packet_queue (p ∷ []) (arrivals room events)
        ∙ ap (λ w. c.packet_queue ++ w) (sym a),
    inr (h ∙ quiet),
  )
  IsRead-one room p event events c c' (waiting d) q a h (queue, few, quiet) = (
    queue
        ∙ ap (λ w. w ++ arrivals room events) q
        ∙ append_assoc c.packet_queue (p ∷ []) (arrivals room events)
        ∙ ap (λ w. c.packet_queue ++ w) (sym a),
    omega (arith, few, ap length a),
    h ∙ quiet,
  )

  IsRead-failed :
      (room : ℕ) (reset : Bool) (events : List (Event A)) (c c' : Connection A) (r : Incoming A)
      → c'.packet_queue ≡ c.packet_queue
      → IsRead (suc room) events c' r
      → IsRead (suc room) (failure reset ∷ events) c r
  IsRead-failed room reset events c c' (read_end d rest) q v =
      (v.0 ∙ ap (λ w. w ++ arrivals (suc room) events) q, v.1)
  IsRead-failed room reset events c c' (waiting d) q v =
      (v.0 ∙ ap (λ w. w ++ arrivals (suc room) events) q, v.1, v.2)

  -- The loop appends exactly these packets, in order, whatever earlier packets have left in the
  -- shared stream, whose head is at its start; failed calls in between lose none. It returns when
  -- the room is used up or a call has brought no data, and waits otherwise.
  pub read_incoming_packets_lem :
      (room : ℕ) (events : List (Event A)) (c : Connection A)
      → c.input_stream.head ≡ 0
      → IsRead room events c (read_incoming_packets room events c)
  unfolding read_incoming_packets
  read_incoming_packets_lem zero events c e = (sym (append-nil c.packet_queue), inl refl)
  read_incoming_packets_lem (suc room) [] c e = (sym (append-nil c.packet_queue), omega arith, refl)
  read_incoming_packets_lem (suc room) (datagram from [] now ∷ events) c e =
      (sym (append-nil c.packet_queue), inr refl)
  read_incoming_packets_lem (suc room) (datagram from (b ∷ bs) now ∷ events) c e =
      let taken = accept_packet from (b ∷ bs) now c in
      IsRead-one room _ (datagram from (b ∷ bs) now) events c taken
        (read_incoming_packets room events taken) (accept_packet_lem from (b ∷ bs) now c e) refl
        refl (read_incoming_packets_lem room events taken (accept_packet-head from (b ∷ bs) now c))
  read_incoming_packets_lem (suc room) (nothing ∷ events) c e =
      (sym (append-nil c.packet_queue), inr refl)
  read_incoming_packets_lem (suc room) (failure reset ∷ events) c e =
      let noted = note_failure reset c in
      IsRead-failed room reset events c noted (read_incoming_packets (suc room) events noted)
        (note_failure-queue reset c)
        (read_incoming_packets_lem (suc room) events noted
          (ap (λ s. s.head) (note_failure-stream reset c) ∙ e))

  -- No more packets than the room are taken.
  length-arrivals : (room : ℕ) (events : List (Event A)) → length (arrivals room events) ≤ room
  length-arrivals zero events = omega arith
  length-arrivals (suc room) [] = omega arith
  length-arrivals (suc room) (datagram from [] now ∷ events) = omega arith
  length-arrivals (suc room) (datagram from (b ∷ bs) now ∷ events) =
      let shorter = length-arrivals room events in omega arith
  length-arrivals (suc room) (nothing ∷ events) = omega arith
  length-arrivals (suc room) (failure reset ∷ events) = length-arrivals (suc room) events

  module _ (times : ℕ → ℕ) (throws : ℕ → Bool) where
    -- Why the processing has ended in a round: the queue is empty, the call for its first packet
    -- threw, or the clock has not passed the time of the first packet.
    abbrev pub Ends :
        (round : ℕ) (thrown : Option (ReceivedPacket A)) → List (ReceivedPacket A) → Type ℓ
    Ends round thrown [] = thrown ≡ none
    Ends round thrown (p ∷ queue) =
        ((thrown ≡ some p) × (throws round ≡ true))
        ⊎ ((thrown ≡ none) × (times round ≤ p.received_time))

    abbrev IsProcessed : (round : ℕ) → List (ReceivedPacket A) → Processed A → Type ℓ
    IsProcessed round queue p =
        (p.completed ++ p.queue ≡ queue) × Ends (length p.completed + round) p.thrown p.queue

    -- What a frame has done: when it ends, and when it is blocked.
    abbrev pub IsFrame : List (Event A) → Connection A → Frame A → Type ℓ
    IsFrame events c (finished completed thrown c' rest) =
        (completed ++ c'.packet_queue
          ≡ c.packet_queue ++ arrivals max_packets_per_frame_count events)
        × Ends (length completed) thrown c'.packet_queue
        × ((length (arrivals max_packets_per_frame_count events) ≡ max_packets_per_frame_count)
            ⊎ (has_quiet events ≡ true))
    IsFrame events c (blocked c') =
        (c'.packet_queue ≡ c.packet_queue ++ arrivals max_packets_per_frame_count events)
        × (length (arrivals max_packets_per_frame_count events) < max_packets_per_frame_count)
        × (has_quiet events ≡ false)
