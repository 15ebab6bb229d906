-- ===== src/Objects/Handles.antt =====
-- src/core/objhandle.h, with what `shared_ptr` and `weak_ptr` do to the number of owners.
use packaged_task.Base.{
  ℕ, zero, suc, ◌+◌, ◌-◌, List, [], ◌∷◌, find, assign, erase, none, some, true, ◌==◌, if◌then◌else◌,
}
use packaged_task.Objects.State.{
  ObjHandle, ok, Action, pure, ◌>>=◌, ◌>>◌, load_object, store_object, load_handle, store_handle,
}

-- `deleteObj()` through a pointer.
unfoldable pub delete_obj : ℕ → Action (Unit {0})
delete_obj a = do o ← load_object a; store_object a (record o { is_del_it = true })

-- `if(m_ptr != nullptr) m_ptr->deleteObj();`
unfoldable pub delete_pointee : ℕ → Action (Unit {0})
delete_pointee ptr = if ptr == 0 then pure tt else delete_obj ptr

-- Copying a `shared_ptr`, which may be null.
unfoldable pub retain : ℕ → Action (Unit {0})
retain zero = pure tt
retain (suc n) = do
  r ← load_handle (suc n)
  store_handle (suc n) (record r { owners = r.owners + 1 })

-- `~ObjHandle`
unfoldable pub destroy_handle : ℕ → ObjHandle → Action (Unit {0})
destroy_handle h r = do delete_pointee r.ptr; λ w. ok tt (record w { handles = erase h w.handles })

-- Destroying a `shared_ptr`, which may be null: the last owner destroys the handle.
unfoldable pub release : ℕ → Action (Unit {0})
release zero = pure tt
release (suc n) = do
  r ← load_handle (suc n)
  if r.owners == 1
      then destroy_handle (suc n) r
      else store_handle (suc n) (record r { owners = r.owners - 1 })

unfoldable pub release_all : List (ℕ × ℕ) → Action (Unit {0})
release_all [] = pure tt
release_all ((key, h) ∷ rest) = do release h; release_all rest

-- `weak_ptr::lock()`: null if no owner is left.
unfoldable pub lock : ℕ → Action ℕ
lock h w = elim (find h w.handles) [
  | none ↦ ok 0 w
  | some r ↦ ok h (record w { handles = assign h (record r { owners = r.owners + 1 }) w.handles })
]

unfoldable pub nullify : ℕ → Action (Unit {0})
nullify h = do r ← load_handle h; delete_pointee r.ptr; store_handle h (record r { ptr = 0 })

-- `getInstanceId()` of a handle: 0 if the handle points nowhere.
unfoldable pub handle_instance_id : ℕ → Action ℕ
handle_instance_id h = do
  r ← load_handle h
  if r.ptr == 0 then pure 0 else (do o ← load_object r.ptr; pure o.instance_id)
