-- ===== src/Objects/Linking/Shared.antt =====
-- What copying and destroying a `shared_ptr` do to a handle that is there, and to one component of a
-- game object.
use packaged_task.Base.{
  ℕ, suc, ◌≡◌, ◌≢◌, refl, ap, ◌∙◌, List, find, assign, erase, find-assign, ==_ne, some, arith,
}
use packaged_task.Objects.State.{Object, game_object, World, ObjHandle, ObjEntry, ok, ◌>>=◌}
use packaged_task.Objects.Handles.{retain, release, lock, delete_pointee, destroy_handle}
use packaged_task.Objects.Members.{load_components, store_components, assign_component}
use packaged_task.Objects.Steps.{
  after_ok, replaced, owned_once_more, retain_lem, load_components_lem, store_components_lem,
}
use packaged_task.Objects.Manager.{get_object}

-- The handle that stands for a component until it is linked.
abbrev pub stand_in : (inst : ℕ) → ObjHandle
stand_in inst = record { ptr = 0; link_key = inst; owners = 1 }

pub get_object_lem :
    (n : ℕ) (e : ObjEntry) (r : ObjHandle) (w : World)
    → find n w.entries ≡ some e
    → find e.handle w.handles ≡ some r
    → get_object n w
      ≡ ok e.handle (record w { handles = assign e.handle (owned_once_more r) w.handles })
unfolding get_object lock
get_object_lem n e r w entry there = rw (entry, ◌>>=◌, lock, there) refl

release-stand_in :
    (h inst : ℕ) (w : World)
    → find (suc h) w.handles ≡ some (stand_in inst)
    → release (suc h) w ≡ ok tt (record w { handles = erase (suc h) w.handles })
unfolding release destroy_handle delete_pointee
release-stand_in h inst w there = rw (there, ◌>>=◌) refl

-- A component's stand-in gives way to a handle.
module _ (self key p h inst : ℕ) (o : Object) (cs : List (ℕ × ℕ)) (r : ObjHandle) (w : World) where
  abbrev pub assigned : World
  assigned = record w {
    objects = assign self (record o { body = game_object (assign key (suc p) cs) }) w.objects;
    handles = erase (suc h) (assign (suc p) (owned_once_more r) w.handles);
  }

  pub assign_component-stand_in :
      find (suc p) w.handles ≡ some r
      → find (suc h) w.handles ≡ some (stand_in inst)
      → p ≢ h
      → find self w.objects ≡ some o
      → o.body ≡ game_object cs
      → find key cs ≡ some (suc h)
      → assign_component self key (suc p) w ≡ ok tt assigned
  unfolding assign_component
  assign_component-stand_in there temporary apart object body before =
      let w₁ = record w { handles = assign (suc p) (owned_once_more r) w.handles } in
      let w₂ = record w₁ {
        objects = assign self (record o { body = game_object (assign key (suc p) cs) }) w.objects;
      } in
      let still : find (suc h) (assign (suc p) (owned_once_more r) w.handles)
          ≡ some (stand_in inst) =
        rw
          (
            find-assign (suc p) (suc h) (owned_once_more r) w.handles,
            ==_ne (suc p) (suc h) (λ e. apart (omega (arith, e))),
          )
          temporary in
      after_ok (retain (suc p)) _ w (retain_lem p r w there)
      ∙ after_ok (load_components self) _ w₁ (load_components_lem self o cs w₁ object body)
      ∙ after_ok (store_components self (assign key (suc p) cs)) _ w₁
          (store_components_lem self o (assign key (suc p) cs) w₁ object)
      ∙ ap (λ old. replaced old w₂) before
      ∙ release-stand_in h inst w₂ still
