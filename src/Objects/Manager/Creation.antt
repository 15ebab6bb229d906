-- ===== src/Objects/Manager/Creation.antt =====
-- Creating objects keeps the invariant, and what the manager answers afterwards.
use packaged_task.Base.{
  ℕ, suc, ◌+◌, ◌^◌, ◌<◌, ◌≡◌, ◌≢◌, subst, find, assign, find-assign, find-assign_self,
  assign-assign, some, false, ◌==◌, if◌then◌else◌, arith,
}
use packaged_task.Rtti.{Registry, Rtti, Result, class_id_to_rtti}
use packaged_task.Objects.State.{Object, Body, World, ObjHandle, ObjEntry, ok}
use packaged_task.Objects.Manager.{Factory, created, create_default_obj}
use packaged_task.Objects.Manager.Registered.{registered, create_default_obj_lem}
use packaged_task.Objects.Manager.Valid.{
  IsValid, IsLoose, still_found, bounded_assigned, registered-IsValid, fresh_id,
}

-- The memory with a new object that is not registered yet.
abbrev pub made : Body → World → World
made b w = record w {
  objects = assign w.next_address (created b) w.objects;
  next_address = suc w.next_address;
}

module _ (b : Body) (w : World) (v : IsValid w) where
  made_entry_objects :
      (id : ℕ) (e : ObjEntry)
      → find id w.entries ≡ some e
      → (p : Object) × (find e.unique (made b w).objects ≡ some p) × (p.instance_id ≡ id)
  made_entry_objects id e f =
      let (p, at, id_of) = v.entry_objects id e f in
      (
        p,
        ground (
          arith,
          v.object_addresses e.unique p at,
          find-assign w.next_address e.unique (created b) w.objects,
        ),
        id_of,
      )

  made_handle_objects :
      (h : ℕ) (r : ObjHandle)
      → find h w.handles ≡ some r
      → r.ptr ≢ 0
      → (p : Object) × (find r.ptr (made b w).objects ≡ some p)
  made_handle_objects h r f set =
      let (p, at) = v.handle_objects h r f set in
      still_found w.next_address r.ptr (created b) p w.objects at

  made_handles :
      (h : ℕ) (r : ObjHandle) → find h w.handles ≡ some r → (0 < h) × (h < suc w.next_address)
  made_handles h r f = omega (arith, v.handle_addresses h r f)

  pub made-IsValid : IsValid (made b w)
  made-IsValid = record {
    first = omega (arith, v.first);
    ids = v.ids;
    object_addresses = bounded_assigned _ _ w.objects v.first.1 v.object_addresses;
    handle_addresses = made_handles;
    entry_objects = made_entry_objects;
    handle_objects = made_handle_objects;
  }

  made_unowned : (id : ℕ) (e : ObjEntry) → find id w.entries ≡ some e → e.unique ≢ w.next_address
  made_unowned id e f =
      let (p, at, id_of) = v.entry_objects id e f in
      λ same. absurd (omega (arith, v.object_addresses e.unique p at, same))

  pub made-IsLoose : IsLoose (made b w) w.next_address (created b)
  made-IsLoose = record {
    at = find-assign_self w.next_address (created b) w.objects;
    unowned = made_unowned;
  }

-- While identifiers last, creating an object of a registered class succeeds on every valid memory,
-- and the memory stays valid. The handle that is returned has one owner and leads to a new object of
-- that class, which has the next identifier and is not deleted; the manager finds object and handle
-- under that identifier, and under every other what it found before.
pub create_default_obj-IsValid :
    (reg : Registry Factory) (c : ℕ) (rtti : Rtti Factory) (w : World)
    → IsValid w
    → class_id_to_rtti reg c ≡ Result.ok rtti
    → w.next_available_id + 1 < 2 ^ 32
    → (h a : ℕ) × (w' : World) × (create_default_obj reg c w ≡ ok h w')
      × IsValid w'
      × (find h w'.handles ≡ some (record { ptr = a; link_key = 0; owners = 1 }))
      × (find a w'.objects
          ≡ some (record {
            instance_id = w.next_available_id;
            is_del_it = false;
            body = rtti.factory;
          }))
      × ((k : ℕ)
          → find k w'.entries ≡ (
              if w.next_available_id == k
              then some (record { unique = a; handle = h })
              else find k w.entries))
create_default_obj-IsValid reg c rtti w v known small = (
  suc w.next_address,
  w.next_address,
  registered w.next_address (created rtti.factory) (record w { next_address = suc w.next_address }),
  create_default_obj_lem reg c rtti w known (fresh_id v) small,
  valid,
  find-assign_self (suc w.next_address) _ w.handles,
  find-assign_self w.next_address _ w.objects,
  λ k. find-assign w.next_available_id k _ w.entries,
)
  where
    valid : IsValid (
        registered w.next_address
          (created rtti.factory)
          (record w { next_address = suc w.next_address }))
    valid =
        subst
          (λ objects.
            IsValid
              (record (registered w.next_address (created rtti.factory)
                (record w { next_address = suc w.next_address })) { objects = objects }))
          (assign-assign w.next_address _ _ w.objects)
          (registered-IsValid w.next_address (created rtti.factory) (made rtti.factory w)
            (made-IsValid rtti.factory w v) (made-IsLoose rtti.factory w v))
