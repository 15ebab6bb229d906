-- ===== src/Objects/Loading/Alone.antt =====
-- A component without a game object, saved by one manager and loaded by an empty one.
use packaged_task.Base.{
  ℕ, suc, ◌+◌, ◌^◌, ◌<◌, ◌≡◌, refl, List, [], ◌∷◌, find, assign, length, find-assign_self, none,
  some, arith,
}
use packaged_task.Base.Bytes.{le_bytes}
use packaged_task.MemoryStream.{OutputMemoryStream, InputMemoryStream, input}
use packaged_task.Rtti.{Registry}
use packaged_task.Objects.State.{Object, component, World, ok, raised, not_exist, ObjEntry, ◌>>=◌}
use packaged_task.Objects.Manager.{Factory}
use packaged_task.Objects.Write.{serialize}
use packaged_task.Objects.Stored.{component_of, IsU32, stored_bytes, stored_game_obj}
use packaged_task.Objects.Stored.Written.{IsCountable}
use packaged_task.Objects.RoundTrip.{records_in, records_bytes}
use packaged_task.Objects.Deserialize.{Loaded, deserialize_loop, deserialize, release_handles}
use packaged_task.Objects.Link.{remapped, link_component, link_body, link_entries}
use packaged_task.Objects.Loading.{IsStandard, load_records, load_world, loaded_object}
use packaged_task.Objects.Loading.Loop.{empty-IsRoomy}
use packaged_task.Objects.Loading.Transfer.{nothing_loaded, deserialize_loop-serialize}

-- Where 0 is no old identifier, the first entry is not linked if its object is such a component.
link_entries_stuck :
    (id_remap : List (ℕ × ℕ)) (id : ℕ) (e : ObjEntry) (es rest : List (ℕ × ObjEntry)) (o : Object)
    (w : World)
    → es ≡ (id, e) ∷ rest
    → find 0 id_remap ≡ none
    → find e.unique w.objects ≡ some o
    → o.body ≡ component 0
    → link_entries id_remap es w ≡ raised not_exist w
unfolding link_entries link_body link_component remapped
link_entries_stuck id_remap id e es rest o w shape unknown there null =
    rw (shape, there, ◌>>=◌, null, unknown) refl

deserialize_raised :
    (fuel : ℕ) (reg : Registry Factory) (s s' : InputMemoryStream) (l : Loaded) (w w' : World)
    (id : ℕ) (e : ObjEntry) (rest : List (ℕ × ObjEntry)) (o : Object)
    → deserialize_loop fuel reg s nothing_loaded w ≡ ok (s', l) w'
    → w'.entries ≡ (id, e) ∷ rest
    → find 0 l.id_remap ≡ none
    → find e.unique w'.objects ≡ some o
    → o.body ≡ component 0
    → deserialize fuel reg s [] w ≡ raised not_exist w'
unfolding deserialize release_handles
deserialize_raised fuel reg s s' l w w' id e rest o read entries unknown there null =
    rw
      (
        read,
        ◌>>=◌,
        link_entries_stuck l.id_remap id e w'.entries rest o w' entries unknown there null,
      )
      refl

zero_unknown : (inst n : ℕ) → 0 < inst → find 0 (assign inst n []) ≡ none
unfolding find assign
zero_unknown inst n positive = ground arith

short : (inst : ℕ) → length (records_bytes (component_of inst none ∷ [])) < 2 ^ 31
unfolding records_bytes stored_bytes le_bytes
short inst = omega arith

-- What an empty manager has after the record.
alone-entries :
    (inst : ℕ) (w : World)
    → w.entries ≡ []
    → (load_world (component_of inst none) w).entries
      ≡ (w.next_available_id, record { unique = w.next_address; handle = suc w.next_address }) ∷ []
unfolding assign
alone-entries inst w empty = rw empty refl

-- A component that has no game object cannot be loaded: what a manager that holds only such a
-- component serializes makes `deserialize` of an empty manager throw when it links. The component's
-- identifier is not 0 and fits 32 bits, both classes are registered, and a new identifier is left.
pub deserialize-serialize_alone :
    (fuel : ℕ) (reg : Registry Factory) (v w : World) (inst : ℕ)
    → ((a : ℕ) (o : Object) → find a v.objects ≡ some o → IsCountable o.body)
    → records_in v v.entries ≡ some (component_of inst none ∷ [])
    → IsU32 inst
    → 0 < inst
    → IsStandard reg
    → w.entries ≡ []
    → w.next_available_id + 1 < 2 ^ 32
    → 1 < fuel
    → (out : OutputMemoryStream) × (serialize v (record { buffer = [] }) ≡ some out)
      × (w' : World) × (deserialize fuel reg (input out.buffer) [] w ≡ raised not_exist w')
unfolding load_records find stored_game_obj
deserialize-serialize_alone fuel reg v w inst countable known fits positive std empty room enough =
    let (out, written, read) =
      deserialize_loop-serialize fuel reg v w (component_of inst none ∷ []) countable known
        (fits, tt) (short inst) std (empty-IsRoomy w empty) room enough in
    (
      out,
      written,
      load_world (component_of inst none) w,
      deserialize_raised fuel reg (input out.buffer) _ _ w _ w.next_available_id
          (record { unique = w.next_address; handle = suc w.next_address }) []
          (record (loaded_object (component_of inst none) w) { instance_id = w.next_available_id })
          read (alone-entries inst w empty) (zero_unknown inst w.next_available_id positive)
          (find-assign_self w.next_address _ _) refl,
    )
