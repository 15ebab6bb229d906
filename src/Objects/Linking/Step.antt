-- ===== src/Objects/Linking/Step.antt =====
-- A round of the loop of `GameObject::link`.
use packaged_task.Base.{
  ℕ, suc, ◌+◌, ◌-◌, ◌≡◌, ◌≢◌, refl, ap, ◌∙◌, List, ◌∷◌, find, assign, find-assign, find-erase,
  find-assign_self, ==_ne, some, none, Bool-cases, inl, inr, false, ◌==◌, if◌then◌else◌, arith,
}
use packaged_task.Objects.State.{Object, game_object, World, ObjHandle, ok, or_fault, load_handle}
use packaged_task.Objects.Handles.{release}
use packaged_task.Objects.Members.{assign_component}
use packaged_task.Objects.Manager.{get_object}
use packaged_task.Objects.Link.{remapped, link_components}
use packaged_task.Objects.Steps.{after_ok, owned_once_more, release_lem}
use packaged_task.Objects.Linking.Shared.{
  stand_in, get_object_lem, assigned, assign_component-stand_in,
}

module _ (id_remap : List (ℕ × ℕ)) where
  pub remapped_lem :
      (id n : ℕ) (w : World) → find id id_remap ≡ some n → remapped id_remap id w ≡ ok n w
  unfolding remapped
  remapped_lem id n w known = rw (remapped, known) refl

  -- The stand-in at `suc h` gives way to the handle at `suc p`, which the entry has.
  module _ (self key p h inst n u : ℕ) (o : Object) (cs : List (ℕ × ℕ)) (r : ObjHandle)
      (w : World) where
    abbrev locked : World
    locked = record w { handles = assign (suc p) (owned_once_more r) w.handles }

    abbrev replaced_in : World
    replaced_in = assigned self key p h inst o cs (owned_once_more r) locked

    abbrev pub stepped : World
    stepped = record replaced_in {
      handles =
          assign (suc p)
            (record (owned_once_more (owned_once_more r)) {
              owners = (owned_once_more (owned_once_more r)).owners - 1;
            })
            replaced_in.handles;
    }

    still_there :
        p ≢ h → find (suc p) replaced_in.handles ≡ some (owned_once_more (owned_once_more r))
    still_there apart =
        let other : (suc h == suc p) ≡ false =
          ==_ne (suc h) (suc p) (λ e. apart (omega (arith, e))) in
        rw
          (
            find-erase (suc h) (suc p)
                (assign (suc p) (owned_once_more (owned_once_more r)) locked.handles),
            other,
            find-assign_self (suc p) (owned_once_more (owned_once_more r)) locked.handles,
          )
          refl

    -- What the handles are then.
    pub stepped-handles :
        (b : ℕ)
        → find b stepped.handles ≡ (
            if suc p == b
            then some (owned_once_more r)
            else if suc h == b
            then none
            else find b w.handles)
    stepped-handles b =
        let count : r.owners + 1 + 1 - 1 ≡ r.owners + 1 = omega arith in
        let r₂ = owned_once_more (owned_once_more r) in
        rw
          (
            find-assign (suc p) b (record r₂ { owners = r.owners + 1 + 1 - 1 }) replaced_in.handles,
            find-erase (suc h) b (assign (suc p) r₂ locked.handles),
            find-assign (suc p) b r₂ locked.handles,
            find-assign (suc p) b (owned_once_more r) w.handles,
            count,
          )
          (elim (Bool-cases (suc p == b)) [ inl e ↦ rw e refl | inr e ↦ rw e refl ])

    pub link_components-step :
        (rest : List (ℕ × ℕ))
        → find (suc h) w.handles ≡ some (stand_in inst)
        → find inst id_remap ≡ some n
        → find n w.entries ≡ some (record { unique = u; handle = suc p })
        → find (suc p) w.handles ≡ some r
        → p ≢ h
        → find self w.objects ≡ some o
        → o.body ≡ game_object cs
        → find key cs ≡ some (suc h)
        → link_components id_remap self ((key, suc h) ∷ rest) w
          ≡ link_components id_remap self rest stepped
    unfolding link_components
    link_components-step rest temporary known entry there apart object body before =
        let other : (suc p == suc h) ≡ false =
          ==_ne (suc p) (suc h) (λ e. apart (omega (arith, e))) in
        let still : find (suc h) locked.handles ≡ some (stand_in inst) =
          rw (find-assign (suc p) (suc h) (owned_once_more r) w.handles, other) temporary in
        after_ok (load_handle (suc h)) _ w (ap (λ t. or_fault t w) temporary)
        ∙ after_ok (remapped id_remap inst) _ w (remapped_lem inst n w known)
        ∙ after_ok (get_object n) _ w
            (get_object_lem n (record { unique = u; handle = suc p }) r w entry there)
        ∙ after_ok (assign_component self key (suc p)) _ locked (
            assign_component-stand_in self key p h inst o cs (owned_once_more r) locked
              (find-assign_self (suc p) (owned_once_more r) w.handles) still apart object body
              before)
        ∙ after_ok (release (suc p)) _ replaced_in (
            release_lem p (owned_once_more (owned_once_more r)) replaced_in (still_there apart)
              (==_ne (r.owners + 1 + 1) 1 (λ e. omega (arith, e))))
