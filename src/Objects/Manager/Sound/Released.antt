-- ===== src/Objects/Manager/Sound/Released.antt =====
-- Giving up owned handles keeps the invariant.
use packaged_task.Base.{
  ℕ, zero, suc, ◌-◌, ◌≡◌, ◌≢◌, refl, ap, sym, subst, ◌∙◌, inl, inr, List, [], ◌∷◌, ◌++◌, find,
  assign, erase, find-erase, find-assign, Option-cases, some, Bool-cases, true, false, ◌==◌, arith,
}
use packaged_task.Objects.State.{Object, World, ObjHandle, ObjEntry, ok, ◌>>=◌}
use packaged_task.Objects.Handles.{destroy_handle, release, release_all}
use packaged_task.Objects.Steps.{after_ok, release_lem}
use packaged_task.Objects.Manager.Counts.{count}
use packaged_task.Objects.Manager.Nullify.{body_of, Marked, delete_pointee_marks}
use packaged_task.Objects.Manager.Owned.{owned_by_same, OwnsEach-same, all_same}
use packaged_task.Objects.Manager.Sound.{is_led, is_led_unique, behind_body, Sound}
use packaged_task.Objects.Manager.Sound.Owners.{held-Sound, recounted-Sound}

module _ (es : List (ℕ × ObjEntry)) (held : List (ℕ × ℕ)) (key p : ℕ) (r : ObjHandle) (w : World)
    (s : Sound es ((key, suc p) ∷ held) w) (there : find (suc p) w.handles ≡ some r) where
  -- One of several owners.
  abbrev shared_handles : List (ℕ × ObjHandle)
  shared_handles = assign (suc p) (record r { owners = r.owners - 1 }) w.handles

  shared-Sound : (r.owners == 1) ≡ false → Sound es held (record w { handles = shared_handles })
  unfolding count
  shared-Sound shared =
      recounted-Sound es ((key, suc p) ∷ held) held (suc p) (r.owners - 1) r w s there
        (ground (arith, s.owned (suc p) r there))
        λ h. ground (
          arith,
          s.counted h,
          find-assign (suc p) (suc h) (record r { owners = r.owners - 1 }) w.handles,
          there,
        )

  -- The last owner.
  last-Sound :
      (objects : List (ℕ × Object))
      → r.owners ≡ 1
      → Marked r.ptr w.objects objects
      → Sound es held (record w { objects = objects; handles = erase (suc p) w.handles })
  unfolding count
  last-Sound objects last m = record {
    owned = λ h q f. s.owned h q (kept h q f);
    led = λ h q f set.
        let (o, entry, at, alive) = s.led h q (kept h q f) set in
        (
          o,
          entry,
          m.others q.ptr (λ same.
                other_handle h q f (subst (λ (a : ℕ). is_led es h a ≡ true) same entry)
                  (λ z. set (same ∙ z)))
              ∙ at,
          alive,
        );
    objects_below = λ a o f.
        let (q, at) = behind_body (find a w.objects) (sym (m.bodies a) ∙ ap body_of f) in
        s.objects_below a q at;
    ids_below = s.ids_below;
    own = OwnsEach-same w.objects objects es (all_same w.objects objects es m.bodies) s.own;
    counted = λ h.
        rw (owned_by_same w.objects objects es (all_same w.objects objects es m.bodies))
          (ground (arith, s.counted h, find-erase (suc p) (suc h) w.handles, there, last));
  }
    where
      kept :
          (h : ℕ) (q : ObjHandle)
          → find h (erase (suc p) w.handles) ≡ some q
          → find h w.handles ≡ some q
      kept h q f = ground (arith, find-erase (suc p) h w.handles)

      other_handle :
          (h : ℕ) (q : ObjHandle)
          → find h (erase (suc p) w.handles) ≡ some q
          → is_led es h r.ptr ≡ true
          → r.ptr ≢ 0
          → ⊥
      other_handle h q f led set =
          let (o, mine, at, alive) = s.led (suc p) r there set in
          let same = is_led_unique w.objects es (suc p) h r.ptr s.own mine led in
          ground (arith, find-erase (suc p) h w.handles, same)

  -- Giving up one handle.
  release_owned :
      (w' : World) × (release (suc p) w ≡ ok tt w')
      × Sound es held w'
      × (w' ≡ record w { objects = w'.objects; handles = w'.handles })
  unfolding release destroy_handle
  release_owned = elim (Bool-cases (r.owners == 1)) [
    | inl last ↦
        let (objects, marked, m) =
          delete_pointee_marks r.ptr w
            (λ set. let (o, entry, at, alive) = s.led (suc p) r there set in (o, at)) in
        (
          record w { objects = objects; handles = erase (suc p) w.handles },
          rw (there, ◌>>=◌, last, marked) refl,
          last-Sound objects (ground arith) m,
          refl,
        )
    | inr shared ↦ (
      record w { handles = shared_handles },
      release_lem p r w there shared,
      shared-Sound shared,
      refl,
    )
  ]

-- A handle that is owned can be given up, and so can all.
pub release_held :
    (es : List (ℕ × ObjEntry)) (held : List (ℕ × ℕ)) (key h : ℕ) (w : World)
    → Sound es ((key, h) ∷ held) w
    → (w' : World) × (release h w ≡ ok tt w')
      × Sound es held w'
      × (w' ≡ record w { objects = w'.objects; handles = w'.handles })
unfolding release count
release_held es held key zero w s =
    (w, refl, held-Sound es ((key, zero) ∷ held) held w s (λ h. ground arith), refl)
release_held es held key (suc p) w s = elim (Option-cases (find (suc p) w.handles)) [
  | inl gone ↦ absurd (ground (arith, s.counted p, gone))
  | inr (r, there) ↦ release_owned es held key p r w s there
]

pub release_all_held :
    (es : List (ℕ × ObjEntry)) (cs held : List (ℕ × ℕ)) (w : World)
    → Sound es (cs ++ held) w
    → (w' : World) × (release_all cs w ≡ ok tt w')
      × Sound es held w'
      × (w' ≡ record w { objects = w'.objects; handles = w'.handles })
unfolding release_all
release_all_held es [] held w s = (w, refl, s, refl)
release_all_held es ((key, h) ∷ cs) held w s =
    let (w₁, first, s₁, frame₁) = release_held es (cs ++ held) key h w s in
    let (w', rest, s', frame) = release_all_held es cs held w₁ s₁ in
    (
      w',
      after_ok (release h) _ w first ∙ rest,
      s',
      frame ∙ ap (λ (v : World). record v { objects = w'.objects; handles = w'.handles }) frame₁,
    )
