-- ===== src/Objects/Manager/Sound/Dropped.antt =====
-- Erasing the entry of a deleted object keeps the invariant.
use packaged_task.Base.{
  ℕ, suc, ◌≡◌, ◌≢◌, ap, sym, subst, ◌∙◌, List, ◌++◌, find, erase, find-erase, All, some, true,
  ==_ne, arith,
}
use packaged_task.Objects.State.{Object, World, ObjEntry, ok, load_object, or_fault}
use packaged_task.Objects.Handles.{release_all}
use packaged_task.Objects.Steps.{after_ok}
use packaged_task.Objects.Manager.{owned_handles, destroy_object, erase_entry}
use packaged_task.Objects.Manager.Counts.{count, count-append}
use packaged_task.Objects.Manager.Nullify.{body_of}
use packaged_task.Objects.Manager.Owned.{handles_of, owned_by_same, OwnsEach-same, others_same}
use packaged_task.Objects.Manager.Sound.{is_led, is_led-absent, Sound}
use packaged_task.Objects.Manager.Sound.Erased.{
  erase-OwnsEach, erase-apart, erase-is_led, erase-count,
}
use packaged_task.Objects.Manager.Sound.Released.{release_all_held}

-- An object that no entry has can go.
erase_object-Sound :
    (es : List (ℕ × ObjEntry)) (held : List (ℕ × ℕ)) (a id : ℕ) (w : World)
    → Sound es held w
    → All (λ r. (r.1.unique ≢ a) × (r.0 ≢ id)) es
    → (entries : List (ℕ × ObjEntry))
    → Sound es held (record w { objects = erase a w.objects; entries = entries })
erase_object-Sound es held a id w s apart entries =
    let same = others_same a id w.objects es apart in
    record {
      owned = s.owned;
      led = λ h r f set.
          let (o, entry, at, alive) = s.led h r f set in
          (
            o,
            entry,
            find-erase a r.ptr w.objects
                ∙ rw
                    (==_ne a r.ptr (λ q. ground (
                      arith,
                      is_led-absent a id h es apart,
                      subst (λ (n : ℕ). is_led es h n ≡ true) (sym q) entry,
                    )))
                    at,
            alive,
          );
      objects_below = λ b o f. s.objects_below b o (ground (arith, find-erase a b w.objects));
      ids_below = s.ids_below;
      own = OwnsEach-same w.objects (erase a w.objects) es same s.own;
      counted = λ h. rw (owned_by_same w.objects (erase a w.objects) es same) (s.counted h);
    }

-- The entry is forgotten: what its object owns is held from outside.
forget-Sound :
    (held : List (ℕ × ℕ)) (id : ℕ) (e : ObjEntry) (o : Object) (w : World)
    → Sound w.entries held w
    → find id w.entries ≡ some e
    → find e.unique w.objects ≡ some o
    → o.is_del_it ≡ true
    → Sound (erase id w.entries) (owned_handles o.body ++ held) w
forget-Sound held id e o w s at there deleted = record {
  owned = s.owned;
  led = λ h r f set.
      let (p, entry, leads, alive) = s.led h r f set in
      let other : r.ptr ≢ e.unique = λ q.
        ground
          (arith, there, deleted, alive, subst (λ (n : ℕ). find n w.objects ≡ some p) q leads) in
      (p, erase-is_led w.objects id e w.entries h r.ptr s.own at other entry, leads, alive);
  objects_below = s.objects_below;
  ids_below = λ k d f. s.ids_below k d (ground (arith, find-erase id k w.entries));
  own = erase-OwnsEach w.objects id e w.entries s.own;
  counted = λ h.
      let its = ap (λ x. count (suc h) (handles_of (body_of x))) there in
      omega (
        arith,
        s.counted h,
        count-append (suc h) (owned_handles o.body) held,
        erase-count w.objects id e w.entries (suc h) s.own at,
        its,
      );
}

pub erase_entry_held :
    (held : List (ℕ × ℕ)) (id : ℕ) (e : ObjEntry) (o : Object) (w : World)
    → Sound w.entries held w
    → find id w.entries ≡ some e
    → find e.unique w.objects ≡ some o
    → o.is_del_it ≡ true
    → (w' : World) × (erase_entry id e w ≡ ok tt w')
      × Sound w'.entries held w'
      × (w'.entries ≡ erase id w.entries)
unfolding erase_entry destroy_object
erase_entry_held held id e o w s at there deleted =
    let (w₁, released, s₁, frame) =
      release_all_held (erase id w.entries) (owned_handles o.body) held w
        (forget-Sound held id e o w s at there deleted) in
    let left = ap (λ (v : World). erase id v.entries) frame in
    (
      record w₁ { objects = erase e.unique w₁.objects; entries = erase id w₁.entries },
      after_ok (destroy_object e.unique) _ w (
          after_ok (load_object e.unique) _ w (ap (λ p. or_fault p w) there)
          ∙ after_ok (release_all (owned_handles o.body)) _ w released),
      subst
          (λ (es : List (ℕ × ObjEntry)).
            Sound es held
              (record w₁ { objects = erase e.unique w₁.objects; entries = erase id w₁.entries }))
          (sym left)
          (erase_object-Sound (erase id w.entries) held e.unique id w₁ s₁
            (erase-apart w.objects id e w.entries s.own at) (erase id w₁.entries)),
      left,
    )
