-- ===== src/Objects/Link.antt =====
-- `Component::link` and `GameObject::link`: identifiers of instances become pointers and handles,
-- through the map from the identifiers in the stream to those of the objects made from it.
use packaged_task.Base.{ℕ, ◌%◌, ◌^◌, List, [], ◌∷◌, find, none, some}
use packaged_task.Objects.State.{
  Body, plain, component, game_object, ObjEntry, Action, pure, ◌>>=◌, ◌>>◌, raise, not_exist,
  load_object, load_handle,
}
use packaged_task.Objects.Handles.{release}
use packaged_task.Objects.Members.{set_game_object_internal, assign_component}
use packaged_task.Objects.Manager.{get_object, get_object_ptr}

module _ (id_remap : List (ℕ × ℕ)) where
  -- `id_remap.find(..)` with its exception, and `id_remap.at(..)`.
  unfoldable pub remapped : ℕ → Action ℕ
  remapped id = elim (find id id_remap) [ none ↦ raise not_exist | some n ↦ pure n ]

  -- The pointer is cast to `uint32_t`, also where it is null or a real pointer.
  unfoldable pub link_component : (self game_obj : ℕ) → Action (Unit {0})
  link_component self game_obj = do
    n ← remapped (game_obj % 2 ^ 32)
    p ← get_object_ptr n
    set_game_object_internal self p

  -- The loop of `GameObject::link`; `ptr` is a local copy of the handle. Assigning to a key that is
  -- there does not disturb the loop.
  unfoldable pub link_components : (self : ℕ) → List (ℕ × ℕ) → Action (Unit {0})
  link_components self [] = pure tt
  link_components self ((key, h) ∷ rest) = do
    r ← load_handle h
    n ← remapped r.link_key
    p ← get_object n
    assign_component self key p
    release p
    link_components self rest

  unfoldable pub link_body : (self : ℕ) → Body → Action (Unit {0})
  link_body self plain = pure tt
  link_body self (component g) = link_component self g
  link_body self (game_object cs) = link_components self cs

  unfoldable pub link_entries : List (ℕ × ObjEntry) → Action (Unit {0})
  link_entries [] = pure tt
  link_entries ((id, e) ∷ rest) = do
    o ← load_object e.unique
    link_body e.unique o.body
    link_entries rest
