-- ===== src/Objects/Manager.antt =====
-- src/core/gameobjectmanager.h and src/core/gameobjectmanager.cpp, but for serialization. The
-- operations follow one another: most hold the mutex throughout, and `registerObj`, which does so in
-- part, and the destructor, which does not, are taken to be undisturbed by other threads.
pub mod Registered
pub mod Valid
pub mod Creation
pub mod Release
pub mod Counts
pub mod Nullify
pub mod Owned
pub mod Destroy
pub mod Sound
use packaged_task.Base.{
  ℕ, suc, ◌+◌, ◌-◌, ◌%◌, ◌^◌, List, [], ◌∷◌, find, assign, erase, Option, none, some, Bool, true,
  false, not, ◌==◌, if◌then◌else◌,
}
use packaged_task.Rtti.{Registry, Rtti, Result, class_id_to_rtti}
use packaged_task.Objects.State.{
  Object, Body, plain, component, game_object, World, ObjHandle, ObjEntry, Outcome, ok, fault,
  Action, pure, ◌>>=◌, ◌>>◌, get, raise, assert, assertion_failed, load_object, store_object,
  load_handle, new_object, new_handle, Error, rtti_not_found, not_created,
}
use packaged_task.Objects.Handles.{release, release_all, lock, nullify}

-- The members of `Object` and of each class as their initializers leave them.
abbrev pub created : Body → Object
created b = record { instance_id = 0; is_del_it = false; body = b }

-- A factory function makes an object with such members; it is given by them.
abbrev pub Factory : Type 0
Factory = Body

unfoldable pub create_instance : Factory → Action ℕ
create_instance b = new_object (created b)

-- The handles that the members of an object own.
abbrev pub owned_handles : Body → List (ℕ × ℕ)
owned_handles plain = []
owned_handles (component g) = []
owned_handles (game_object cs) = cs

-- `delete` of an object: its members are destroyed, and then its memory is gone.
unfoldable pub destroy_object : ℕ → Action (Unit {0})
destroy_object a = do
  o ← load_object a
  release_all (owned_handles o.body)
  λ w. ok tt (record w { objects = erase a w.objects })

-- `mObjects[id] = std::move(new_entry)`: an entry that was there would lose its object.
unfoldable pub assign_entry : ℕ → ObjEntry → Action (Unit {0})
assign_entry id entry w = elim (find id w.entries) [
  | none ↦ ok tt (record w { entries = assign id entry w.entries })
  | some old ↦ destroy_object old.unique (record w { entries = assign id entry w.entries })
]

-- `mNextAvailableID.fetch_add(1)`
unfoldable pub fetch_add_id : Action ℕ
fetch_add_id w =
    ok w.next_available_id (record w { next_available_id = (w.next_available_id + 1) % 2 ^ 32 })

-- `registerObj`: the argument is the address that the `unique_ptr` holds.
unfoldable pub register_obj : ℕ → Action ℕ
register_obj ob = do
  id ← fetch_add_id
  assert (not (id == 2 ^ 32 - 1))
  o ← load_object ob
  store_object ob (record o { instance_id = id })
  sp ← new_handle (record { ptr = ob; link_key = 0; owners = 1 })
  assign_entry id (record { unique = ob; handle = sp })
  pure sp

-- `Object::ClassIDToRTTI(obj_type).factory()`
unfoldable pub create : Registry Factory → ℕ → Action ℕ
create reg obj_type = elim (class_id_to_rtti reg obj_type) [
  | Result.ok rtti ↦ create_instance rtti.factory
  | Result.assertion_failed ↦ λ w. assertion_failed
  | Result.not_found ↦ raise rtti_not_found
]

unfoldable pub create_default_obj : Registry Factory → ℕ → Action ℕ
create_default_obj reg obj_type = do u_ptr ← create reg obj_type; register_obj u_ptr

unfoldable pub object_exists : ℕ → World → Bool
object_exists id w = elim (find id w.entries) [ none ↦ false | some e ↦ true ]

-- The entry of an identifier, or the exception of `getObject` and `getObjectPtr`.
abbrev pub find_entry : ℕ → Action ObjEntry
find_entry id w = elim (find id w.entries) [ none ↦ raise not_created w | some e ↦ ok e w ]

unfoldable pub get_object : ℕ → Action ℕ
get_object id = do e ← find_entry id; lock e.handle

unfoldable pub get_object_ptr : ℕ → Action ℕ
get_object_ptr id = do e ← find_entry id; pure e.unique

-- `mObjects.erase(it)`
unfoldable pub erase_entry : ℕ → ObjEntry → Action (Unit {0})
erase_entry id e = do
  destroy_object e.unique
  λ w. ok tt (record w { entries = erase id w.entries })

-- One round of the loop of `releaseUnusedObjects`.
unfoldable pub release_if_deleted : ℕ → ObjEntry → Action (Unit {0})
release_if_deleted id e = do
  o ← load_object e.unique
  if o.is_del_it then erase_entry id e else pure tt

-- The loop over the entries that were there at its start: a round erases its own entry only.
unfoldable pub release_entries : List (ℕ × ObjEntry) → Action (Unit {0})
release_entries [] = pure tt
release_entries ((id, e) ∷ rest) = do release_if_deleted id e; release_entries rest

unfoldable pub release_unused_objects : Action (Unit {0})
release_unused_objects = do w ← get; release_entries w.entries

-- One round of the loop of `~GameObjectManager`; the locked handle is released at the end of it.
unfoldable pub nullify_if_alive : ℕ → Action (Unit {0})
nullify_if_alive sp = if sp == 0 then pure tt else (do nullify sp; release sp)

unfoldable pub nullify_entries : List (ℕ × ObjEntry) → Action (Unit {0})
nullify_entries [] = pure tt
nullify_entries ((id, e) ∷ rest) = do sp ← lock e.handle; nullify_if_alive sp; nullify_entries rest

unfoldable pub destroy_entries : List (ℕ × ObjEntry) → Action (Unit {0})
destroy_entries [] = pure tt
destroy_entries ((id, e) ∷ rest) = do erase_entry id e; destroy_entries rest

-- `~GameObjectManager`: the body, and then the destruction of `mObjects`.
unfoldable pub destroy_manager : Action (Unit {0})
destroy_manager = do w ← get; nullify_entries w.entries; destroy_entries w.entries
