-- ===== src/Objects/Manager/Registered.antt =====
-- What `createDefaultObj` and `registerObj` leave behind.
use packaged_task.Base.{
  ℕ, suc, ◌+◌, ◌^◌, ◌<◌, ◌≡◌, ap, ◌∙◌, find, assign, find-assign_self, assign-assign, none, some,
  arith,
}
use packaged_task.Rtti.{Registry, Rtti, Result, class_id_to_rtti}
use packaged_task.Objects.State.{Object, World, ok}
use packaged_task.Objects.Manager.{
  Factory, created, create_instance, create, register_obj, fetch_add_id, assign_entry,
  create_default_obj,
}

-- The memory when an object that is at an address has been registered.
abbrev pub registered : ℕ → Object → World → World
registered a o w = record w {
  objects = assign a (record o { instance_id = w.next_available_id }) w.objects;
  handles = assign w.next_address (record { ptr = a; link_key = 0; owners = 1 }) w.handles;
  next_address = suc w.next_address;
  next_available_id = w.next_available_id + 1;
  entries = assign w.next_available_id (record { unique = a; handle = w.next_address }) w.entries;
}

-- `registerObj` gives an object that exists the next identifier and its handle, and enters both.
pub register_obj_lem :
    (a : ℕ) (o : Object) (w : World)
    → find a w.objects ≡ some o
    → find w.next_available_id w.entries ≡ none
    → w.next_available_id + 1 < 2 ^ 32
    → register_obj a w ≡ ok w.next_address (registered a o w)
unfolding register_obj fetch_add_id assign_entry
register_obj_lem a o w found absent small = ground arith

pub create_default_obj_lem :
    (reg : Registry Factory) (c : ℕ) (rtti : Rtti Factory) (w : World)
    → class_id_to_rtti reg c ≡ Result.ok rtti
    → find w.next_available_id w.entries ≡ none
    → w.next_available_id + 1 < 2 ^ 32
    → create_default_obj reg c w
      ≡ ok (suc w.next_address) (
          registered w.next_address
            (created rtti.factory)
            (record w { next_address = suc w.next_address }))
unfolding create_default_obj create create_instance
create_default_obj_lem reg c rtti w known absent small =
    rw (known, create_default_obj, create, create_instance)
      (register_obj_lem w.next_address (created rtti.factory) made found absent small
        ∙ ap
            (λ objects.
              ok (suc w.next_address)
                (record (registered w.next_address (created rtti.factory)
                  (record w { next_address = suc w.next_address })) { objects = objects }))
            (assign-assign w.next_address _ _ w.objects))
  where
    made : World
    made = record w {
      objects = assign w.next_address (created rtti.factory) w.objects;
      next_address = suc w.next_address;
    }

    found : find w.next_address made.objects ≡ some (created rtti.factory)
    found = find-assign_self w.next_address (created rtti.factory) w.objects
