-- ===== src/Objects/Loading/Loop.antt =====
-- The loop reads the records of a stream one after the other, and ends.
use packaged_task.Base.{
  ℕ, zero, suc, ◌+◌, ◌^◌, ◌<◌, ◌≤◌, ◌≡◌, refl, ap, sym, ◌∙◌, List, [], ◌∷◌, ◌++◌, length,
  length-append, find, find-assign, none, true, All, arith, append_assoc, append-nil,
}
use packaged_task.Base.Bytes.{le_bytes, byte_sizes}
use packaged_task.MemoryStream.{get_remaining_data_size, is_positive32}
use packaged_task.MemoryStream.RoundTrip.{stream_at}
use packaged_task.Rtti.{Registry}
use packaged_task.Objects.State.{World, ok, ◌>>=◌}
use packaged_task.Objects.Manager.{Factory}
use packaged_task.Objects.Stored.{Stored, component_of, game_object_of, IsStored, stored_bytes}
use packaged_task.Objects.RoundTrip.{records_bytes}
use packaged_task.Objects.Deserialize.{Loaded, deserialize_loop}
use packaged_task.Objects.Loading.{IsStandard, linked_world, load_world, load_one, load_records}
use packaged_task.Objects.Loading.One.{loaded_manager, deserialize_one-stored}

remaining-stream_at :
    (front rest : List ℕ)
    → length front + length rest < 2 ^ 31
    → get_remaining_data_size (stream_at front rest) ≡ length rest
unfolding get_remaining_data_size
remaining-stream_at front rest small = omega byte_sizes

some_bytes : (x : Stored) → 0 < length (stored_bytes x)
unfolding stored_bytes le_bytes
some_bytes (component_of inst g) = omega arith
some_bytes (game_object_of inst links) = omega arith

-- No entry has the next identifier or a later one.
abbrev pub IsRoomy : World → Type 0
IsRoomy w = (id : ℕ) → w.next_available_id ≤ id → find id w.entries ≡ none

pub empty-IsRoomy : (w : World) → w.entries ≡ [] → IsRoomy w
unfolding find
empty-IsRoomy w empty id late = rw empty refl

pub next_id-load_world :
    (x : Stored) (w : World) → (load_world x w).next_available_id ≡ w.next_available_id + 1
next_id-load_world x w = ap (λ n. n + 1) (loaded_manager x w).1

pub load_world-IsRoomy : (x : Stored) (w : World) → IsRoomy w → IsRoomy (load_world x w)
load_world-IsRoomy x w roomy id late =
    let (entries, ids) = loaded_manager x w in
    ground (
      arith,
      entries,
      ids,
      roomy id,
      find-assign (linked_world x w).next_available_id id
          (record { unique = w.next_address; handle = (linked_world x w).next_address })
          (linked_world x w).entries,
    )

records_longer :
    (x : Stored) (xs : List Stored)
    → length (records_bytes (x ∷ xs)) ≡ length (stored_bytes x) + length (records_bytes xs)
unfolding records_bytes
records_longer x xs = length-append (stored_bytes x) (records_bytes xs)

loop_goes_on :
    (fuel : ℕ) (reg : Registry Factory) (x : Stored) (xs : List Stored) (front : List ℕ)
    (l : Loaded) (w : World)
    → IsStandard reg
    → IsStored x
    → length front + length (records_bytes (x ∷ xs)) < 2 ^ 31
    → IsRoomy w
    → w.next_available_id + 1 < 2 ^ 32
    → deserialize_loop (suc fuel) reg (stream_at front (records_bytes (x ∷ xs))) l w
      ≡ deserialize_loop fuel reg
          (stream_at (front ++ stored_bytes x) (records_bytes xs))
          (load_one x w l)
          (load_world x w)
unfolding deserialize_loop records_bytes
loop_goes_on fuel reg x xs front l w std stored small roomy room = rw (
  positive,
  deserialize_loop,
  ◌>>=◌,
  deserialize_one-stored reg x front (records_bytes xs) l w std stored (omega byte_sizes)
      (roomy w.next_available_id (omega arith)) room,
)
  where
    positive :
        is_positive32
          (get_remaining_data_size (stream_at front (stored_bytes x ++ records_bytes xs)))
        ≡ true
    positive =
        rw (remaining-stream_at front (stored_bytes x ++ records_bytes xs) small)
          (ground (arith, some_bytes x, length-append (stored_bytes x) (records_bytes xs)))

loop_ends :
    (fuel : ℕ) (reg : Registry Factory) (front : List ℕ) (l : Loaded) (w : World)
    → length front + 0 < 2 ^ 31
    → deserialize_loop (suc fuel) reg (stream_at front []) l w ≡ ok (stream_at front [], l) w
unfolding deserialize_loop
loop_ends fuel reg front l w small = rw (deserialize_loop, remaining-stream_at front [] small)

-- On a stream that holds a list of records the loop ends, with a round for each record and one more;
-- it takes all bytes, and what it does to the memory and its variables is `load_records`: the objects
-- and their handles are made in the order of the records, under consecutive identifiers. Both classes
-- have to be registered, the records to fit 32 bits, the stream to end below 2 ^ 31, and the
-- identifiers to suffice and to be free.
pub deserialize_loop-records :
    (fuel : ℕ) (reg : Registry Factory) (xs : List Stored) (front : List ℕ) (l : Loaded) (w : World)
    → IsStandard reg
    → All IsStored xs
    → length front + length (records_bytes xs) < 2 ^ 31
    → IsRoomy w
    → w.next_available_id + length xs < 2 ^ 32
    → length xs < fuel
    → deserialize_loop fuel reg (stream_at front (records_bytes xs)) l w
      ≡ ok
          (stream_at (front ++ records_bytes xs) [], (load_records xs w l).1)
          (load_records xs w l).0
unfolding records_bytes load_records
deserialize_loop-records zero reg xs front l w std stored small roomy room enough = elim enough [ ]
deserialize_loop-records (suc fuel) reg [] front l w std stored small roomy room enough =
    loop_ends fuel reg front l w small ∙ ap (λ f. ok (stream_at f [], l) w) (sym (append-nil front))
deserialize_loop-records (suc fuel) reg (x ∷ xs) front l w std stored small roomy room enough =
    loop_goes_on fuel reg x xs front l w std stored.0 small roomy (omega arith)
    ∙ deserialize_loop-records fuel reg xs (front ++ stored_bytes x) (load_one x w l)
        (load_world x w) std stored.1 shorter (load_world-IsRoomy x w roomy)
        (omega (arith, next_id-load_world x w)) (omega arith)
    ∙ ap
        (λ f.
          ok (stream_at f [], (load_records xs (load_world x w) (load_one x w l)).1)
            (load_records xs (load_world x w) (load_one x w l)).0)
        (append_assoc front (stored_bytes x) (records_bytes xs))
  where
    shorter : length (front ++ stored_bytes x) + length (records_bytes xs) < 2 ^ 31
    shorter = omega (byte_sizes, records_longer x xs, small)
