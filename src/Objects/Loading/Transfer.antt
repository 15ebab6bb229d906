-- ===== src/Objects/Loading/Transfer.antt =====
-- `serialize` of one manager, read by the loop of `deserialize` of another.
use packaged_task.Base.{
  ℕ, ◌+◌, ◌^◌, ◌<◌, ◌≡◌, ap, ◌∙◌, List, [], ◌∷◌, append-nil, length, length-append, find, All, some,
  arith,
}
use packaged_task.MemoryStream.{OutputMemoryStream, input}
use packaged_task.MemoryStream.RoundTrip.{stream_from}
use packaged_task.Rtti.{Registry}
use packaged_task.Objects.State.{Object, World, ok}
use packaged_task.Objects.Manager.{Factory}
use packaged_task.Objects.Write.{serialize}
use packaged_task.Objects.Stored.{Stored, IsStored}
use packaged_task.Objects.Stored.Written.{IsCountable}
use packaged_task.Objects.RoundTrip.{records_in, records_bytes, serialize-records}
use packaged_task.Objects.Deserialize.{Loaded, deserialize_loop}
use packaged_task.Objects.Loading.{IsStandard, linked_world, load_world, load_one, load_records}
use packaged_task.Objects.Loading.Loop.{IsRoomy, next_id-load_world, deserialize_loop-records}

abbrev pub nothing_loaded : Loaded
nothing_loaded = record { id_remap = []; objects = [] }

-- A manager whose pointers are good is serialized into an empty stream, and the buffer is read by
-- the loop of `deserialize` of any manager with room for the identifiers: writing succeeds, and the
-- loop ends behind the last byte and has made the objects of the records. The records have to fit
-- 32 bits, the buffer to be below 2 ^ 31 bytes, both classes to be registered, and no game object may
-- have 2 ^ 32 components. One round more than there are records is enough.
pub deserialize_loop-serialize :
    (fuel : ℕ) (reg : Registry Factory) (v w : World) (xs : List Stored)
    → ((a : ℕ) (o : Object) → find a v.objects ≡ some o → IsCountable o.body)
    → records_in v v.entries ≡ some xs
    → All IsStored xs
    → length (records_bytes xs) < 2 ^ 31
    → IsStandard reg
    → IsRoomy w
    → w.next_available_id + length xs < 2 ^ 32
    → length xs < fuel
    → (out : OutputMemoryStream) × (serialize v (record { buffer = [] }) ≡ some out)
      × (deserialize_loop fuel reg (input out.buffer) nothing_loaded w
          ≡ ok
              (stream_from (length out.buffer) out.buffer, (load_records xs w nothing_loaded).1)
              (load_records xs w nothing_loaded).0)
unfolding input
deserialize_loop-serialize fuel reg v w xs countable known stored small std roomy room enough = (
  record { buffer = records_bytes xs },
  serialize-records v xs (record { buffer = [] }) countable known,
  deserialize_loop-records fuel reg xs [] nothing_loaded w std stored (omega arith) roomy room
        enough
      ∙ ap
          (λ bytes.
            ok (stream_from (length (records_bytes xs)) bytes, (load_records xs w nothing_loaded).1)
              (load_records xs w nothing_loaded).0)
          (append-nil (records_bytes xs)),
)

-- A handle is pushed for each record, and as many identifiers are used up.
pub load_records_counts :
    (xs : List Stored) (w : World) (l : Loaded)
    → (length (load_records xs w l).1.objects ≡ length l.objects + length xs)
      × ((load_records xs w l).0.next_available_id ≡ w.next_available_id + length xs)
unfolding load_records
load_records_counts [] w l = (omega arith, omega arith)
load_records_counts (x ∷ xs) w l =
    let (objects, ids) = load_records_counts xs (load_world x w) (load_one x w l) in
    (
      omega (arith, objects, length-append l.objects ((linked_world x w).next_address ∷ [])),
      omega (arith, ids, next_id-load_world x w),
    )
