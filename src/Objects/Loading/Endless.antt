-- ===== src/Objects/Loading/Endless.antt =====
-- A record of class `Object` in the stream: `Object::read` takes nothing, so the loop stays at it.
use packaged_task.Base.{
  ℕ, zero, suc, ◌+◌, ◌^◌, ◌<◌, ◌≡◌, refl, [], ◌∷◌, ◌++◌, assign, find-assign, find-assign_self,
  true, arith,
}
use packaged_task.MemoryStream.{InputMemoryStream, get_remaining_data_size, is_positive32}
use packaged_task.Rtti.{Registry, Rtti, Result, class_id_to_rtti}
use packaged_task.Objects.State.{class_object, plain, World, ok, running, ◌>>=◌}
use packaged_task.Objects.Manager.{Factory, created, create, create_instance}
use packaged_task.Objects.Manager.Registered.{registered, register_obj_lem}
use packaged_task.Objects.Manager.Creation.{made}
use packaged_task.Objects.Parse.{read_members}
use packaged_task.Objects.Deserialize.{
  Loaded, peek_type_id, store_members, read_into, deserialize_one, deserialize_loop,
}
use packaged_task.Objects.Loading.Loop.{IsRoomy}

-- The memory after a round at such a record.
abbrev after_plain : World → World
after_plain w = registered w.next_address (created plain) (made plain w)

module _ (reg : Registry Factory) (rtti : Rtti Factory)
    (known : class_id_to_rtti reg class_object ≡ Result.ok rtti)
    (plain_factory : rtti.factory ≡ plain) (s : InputMemoryStream)
    (at_object : (w : World) → peek_type_id s w ≡ ok class_object w)
    (more : is_positive32 (get_remaining_data_size s) ≡ true) where
  plain_round :
      (l : Loaded) (w : World)
      → IsRoomy w
      → w.next_available_id + 1 < 2 ^ 32
      → (l' : Loaded) × (deserialize_one reg s l w ≡ ok (s, l') (after_plain w))
  unfolding deserialize_one create create_instance read_members read_into store_members
  plain_round l w roomy room = (
    record {
      id_remap = assign 0 w.next_available_id l.id_remap;
      objects = l.objects ++ (suc w.next_address ∷ []);
    },
    rw (
      deserialize_one,
      at_object w,
      ◌>>=◌,
      known,
      create,
      create_instance,
      plain_factory,
      find-assign_self w.next_address (created plain) w.objects,
      read_members,
      read_into,
      store_members,
      find-assign_self w.next_address (created plain) w.objects,
      register_obj_lem w.next_address (created plain) (made plain w)
          (find-assign_self w.next_address (created plain) w.objects)
          (roomy w.next_available_id (omega arith)) room,
      find-assign_self (suc w.next_address) _ w.handles,
      find-assign_self w.next_address _ (made plain w).objects,
    ),
  )

  after_plain-IsRoomy : (w : World) → IsRoomy w → IsRoomy (after_plain w)
  after_plain-IsRoomy w roomy id late = ground (
    arith,
    roomy id,
    find-assign w.next_available_id id
        (record { unique = w.next_address; handle = suc w.next_address }) w.entries,
  )

  -- Where the next record of a stream is of class `Object`, and that class is registered with its
  -- factory, the loop of `deserialize` is still running after any number of rounds for which there
  -- are identifiers.
  pub deserialize_loop-running :
      (fuel : ℕ) (l : Loaded) (w : World)
      → IsRoomy w
      → w.next_available_id + fuel < 2 ^ 32
      → deserialize_loop fuel reg s l w ≡ running
  unfolding deserialize_loop
  deserialize_loop-running zero l w roomy room = refl
  deserialize_loop-running (suc fuel) l w roomy room =
      let (l', round) = plain_round l w roomy (omega arith) in
      rw (more, deserialize_loop, ◌>>=◌, round)
        (deserialize_loop-running fuel l' (after_plain w) (after_plain-IsRoomy w roomy)
          (omega arith))
