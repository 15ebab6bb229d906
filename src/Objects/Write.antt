-- ===== src/Objects/Write.antt =====
-- Serialization: `Component::write`, `GameObject::write` and `GameObjectManager::serialize`.
-- Writing throws nothing; `none` is a null or dangling pointer that is followed.
use packaged_task.Base.{
  ℕ, ◌%◌, ◌^◌, List, [], ◌∷◌, length, find, Option, none, some, Bool, true, false, ◌==◌,
  if◌then◌else◌,
}
use packaged_task.MemoryStream.{OutputMemoryStream, write}
use packaged_task.Objects.State.{
  Object, Body, plain, component, game_object, get_class_id_virtual, World, ObjEntry,
}

infixl 5 ◌>>=◌
abbrev pub ◌>>=◌ {ℓ κ} : {A : Type ℓ} {B : Type κ} → Option A → (A → Option B) → Option B
none >>= f = none
some a >>= f = f a

-- `write(getClassIDVirtual()); write(getInstanceId());`
unfoldable pub write_header : OutputMemoryStream → Object → OutputMemoryStream
write_header out o = write 4 (write 4 out (get_class_id_virtual o)) o.instance_id

-- `Component::write` behind the header; 0 and 1 are written as `int`.
unfoldable pub write_component : World → ℕ → OutputMemoryStream → Option OutputMemoryStream
write_component w game_obj out =
    if game_obj == 0
    then some (write 4 out 0)
    else (do go ← find game_obj w.objects; some (write 4 (write 4 out 1) go.instance_id))

-- The loop of `GameObject::write`; `cmp->getPtr()->getInstanceId()` follows two pointers.
unfoldable pub write_components :
    World → List (ℕ × ℕ) → OutputMemoryStream → Option OutputMemoryStream
write_components w [] out = some out
write_components w ((key, h) ∷ rest) out = do
  cmp ← find h w.handles
  c_ptr ← find cmp.ptr w.objects
  write_components w rest (write 4 (write 4 out key) c_ptr.instance_id)

-- `GameObject::write` behind the header: the number of components, and the components.
unfoldable pub write_game_object :
    World → List (ℕ × ℕ) → OutputMemoryStream → Option OutputMemoryStream
write_game_object w [] out = some (write 4 out 0)
write_game_object w (c ∷ cs) out =
    write_components w (c ∷ cs) (write 4 out (length (c ∷ cs) % 2 ^ 32))

-- The virtual `write`: `Object::write` writes nothing.
unfoldable pub write_body : World → Object → OutputMemoryStream → Body → Option OutputMemoryStream
write_body w o out plain = some out
write_body w o out (component g) = write_component w g (write_header out o)
write_body w o out (game_object cs) = write_game_object w cs (write_header out o)

unfoldable pub write_object : World → Object → OutputMemoryStream → Option OutputMemoryStream
write_object w o out = write_body w o out o.body

-- The test of the loop of `serialize`.
unfoldable pub write_if_alive :
    World → Object → (deleted : Bool) → OutputMemoryStream → Option OutputMemoryStream
write_if_alive w o true out = some out
write_if_alive w o false out = write_object w o out

unfoldable pub write_entries :
    World → List (ℕ × ObjEntry) → OutputMemoryStream → Option OutputMemoryStream
write_entries w [] out = some out
write_entries w ((id, e) ∷ rest) out = do
  o ← find e.unique w.objects
  out' ← write_if_alive w o o.is_del_it out
  write_entries w rest out'

-- `serialize`: the objects that are not deleted, in the order of `mObjects`.
unfoldable pub serialize : World → OutputMemoryStream → Option OutputMemoryStream
serialize w out = write_entries w w.entries out
