-- ===== src/Objects/Manager/Sound/Created.antt =====
-- `createDefaultObj` keeps the invariant, and hands out an owned handle.
use packaged_task.Base.{
  ℕ, suc, ◌+◌, ◌^◌, ◌<◌, ◌≡◌, ◌≢◌, refl, ap, sym, subst, ◌∙◌, inl, inr, List, [], ◌∷◌, ◌++◌, find,
  find-assign, find-assign_self, assign-fresh, All, Option-cases, none, some, Bool-cases, false,
  ◌==◌, if◌then◌else◌, ==_ne, arith,
}
use packaged_task.Rtti.{Registry, Rtti, Result, class_id_to_rtti}
use packaged_task.Objects.State.{Object, Body, World, ObjHandle, ObjEntry, ok}
use packaged_task.Objects.Manager.{Factory, created, create_default_obj, owned_handles}
use packaged_task.Objects.Manager.Registered.{registered, create_default_obj_lem}
use packaged_task.Objects.Manager.Counts.{count}
use packaged_task.Objects.Manager.Nullify.{body_of}
use packaged_task.Objects.Manager.Owned.{handles_of, owned_by_same, OwnsEach-same}
use packaged_task.Objects.Manager.Sound.{IsLed, Sound}
use packaged_task.Objects.Manager.Sound.Attached.{others_replaced}
use packaged_task.Objects.Manager.Sound.Appended.{
  append-OwnsEach, owned_by-append, is_led-append, old_entries,
}

module _ (held : List (ℕ × ℕ)) (b : Body) (w : World) (s : Sound w.entries held w)
    (bare : owned_handles b ≡ []) where
  -- The memory with the new object at the next address and its handle at that behind it.
  abbrev grown : World
  grown = registered w.next_address (created b) (record w { next_address = suc w.next_address })

  abbrev new_entry : ObjEntry
  new_entry = record { unique = w.next_address; handle = suc w.next_address }

  abbrev new_object : Object
  new_object = record { instance_id = w.next_available_id; is_del_it = false; body = b }

  old : All (λ r. (r.1.unique ≢ new_entry.unique) × (r.0 ≢ w.next_available_id)) w.entries
  old =
      old_entries w.objects w.next_address w.next_available_id w.entries s.own s.objects_below
        s.ids_below

  no_id : find w.next_available_id w.entries ≡ none
  no_id = elim (Option-cases (find w.next_available_id w.entries)) [
    | inl gone ↦ gone
    | inr (e, at) ↦ absurd (omega (arith, s.ids_below w.next_available_id e at))
  ]

  no_handle : find (suc w.next_address) w.handles ≡ none
  no_handle = elim (Option-cases (find (suc w.next_address) w.handles)) [
    | inl gone ↦ gone
    | inr (r, at) ↦ absurd (omega (arith, s.owned (suc w.next_address) r at))
  ]

  entries_lem : grown.entries ≡ w.entries ++ ((w.next_available_id, new_entry) ∷ [])
  entries_lem = assign-fresh w.next_available_id new_entry w.entries no_id

  same_objects :
      All
        (λ r. body_of (find r.1.unique grown.objects) ≡ body_of (find r.1.unique w.objects))
        w.entries
  same_objects =
      others_replaced w.objects w.next_address w.next_available_id new_object w.entries old

  new_there : find w.next_address grown.objects ≡ some new_object
  new_there = find-assign_self w.next_address new_object w.objects

  grown_handle :
      (h : ℕ)
      → find h grown.handles ≡ (
          if suc w.next_address == h
          then some (record { ptr = w.next_address; link_key = 0; owners = 1 })
          else find h w.handles)
  grown_handle h =
      find-assign (suc w.next_address) h (record { ptr = w.next_address; link_key = 0; owners = 1 })
        w.handles

  grown-IsLed :
      (h : ℕ) (r : ObjHandle)
      → find h grown.handles ≡ some r
      → r.ptr ≢ 0
      → IsLed (w.entries ++ ((w.next_available_id, new_entry) ∷ [])) grown.objects h r.ptr
  grown-IsLed h r f set = elim (Bool-cases (suc w.next_address == h)) [
    | inl same ↦
        let at : suc w.next_address ≡ h = ground arith in
        let leads : w.next_address ≡ r.ptr = ground (arith, grown_handle h) in
        (
          new_object,
          is_led-append w.entries w.next_available_id new_entry h r.ptr ∙ ground (arith, at, leads),
          subst (λ (a : ℕ). find a grown.objects ≡ some new_object) leads new_there,
          refl,
        )
    | inr other ↦
        let (o, entry, at, alive) = s.led h r (ground (arith, grown_handle h)) set in
        (
          o,
          is_led-append w.entries w.next_available_id new_entry h r.ptr ∙ ground (arith, entry),
          find-assign w.next_address r.ptr new_object w.objects
              ∙ rw (==_ne w.next_address r.ptr (λ q. omega (arith, q, s.objects_below r.ptr o at)))
                  at,
          alive,
        )
  ]

  grown-Sound :
      Sound
        (w.entries ++ ((w.next_available_id, new_entry) ∷ []))
        ((0, suc w.next_address) ∷ held)
        grown
  unfolding count
  grown-Sound = record {
    owned = λ h r f. elim (Bool-cases (suc w.next_address == h)) [
      | inl same ↦ ground (arith, grown_handle h)
      | inr other ↦ omega (arith, s.owned h r (ground (arith, grown_handle h)))
    ];
    led = grown-IsLed;
    objects_below = λ a o f. elim (Bool-cases (w.next_address == a)) [
      | inl same ↦ ground arith
      | inr other ↦ omega (
        arith,
        s.objects_below a o (ground (arith, find-assign w.next_address a new_object w.objects)),
      )
    ];
    ids_below = λ k e f. elim (Bool-cases (w.next_available_id == k)) [
      | inl same ↦ ground arith
      | inr other ↦ omega (
        arith,
        s.ids_below k e
            (ground (arith, find-assign w.next_available_id k new_entry w.entries, entries_lem)),
      )
    ];
    own =
        append-OwnsEach grown.objects w.next_available_id new_entry b w.entries
          (OwnsEach-same w.objects grown.objects w.entries same_objects s.own) old
          (ap body_of new_there);
    counted = λ h.
        let mine = ap handles_of (ap body_of new_there) ∙ bare in
        rw
          (
            owned_by-append grown.objects w.next_available_id new_entry w.entries mine,
            owned_by_same w.objects grown.objects w.entries same_objects,
          )
          (ground (arith, s.counted h, grown_handle (suc h), no_handle));
  }

-- `createDefaultObj` of a registered class whose factory makes an object without handles.
pub create_default_obj_held :
    (reg : Registry Factory) (c : ℕ) (rtti : Rtti Factory) (held : List (ℕ × ℕ)) (w : World)
    → class_id_to_rtti reg c ≡ Result.ok rtti
    → owned_handles rtti.factory ≡ []
    → w.next_available_id + 1 < 2 ^ 32
    → Sound w.entries held w
    → (w' : World) × (create_default_obj reg c w ≡ ok (suc w.next_address) w')
      × Sound w'.entries ((0, suc w.next_address) ∷ held) w'
create_default_obj_held reg c rtti held w known bare room s =
    let b = rtti.factory in
    (
      grown held b w s bare,
      create_default_obj_lem reg c rtti w known (no_id held b w s bare) room,
      subst
          (λ (es : List (ℕ × ObjEntry)).
            Sound es ((0, suc w.next_address) ∷ held) (grown held b w s bare))
          (sym (entries_lem held b w s bare)) (grown-Sound held b w s bare),
    )
