-- ===== src/Objects/Manager/Release.antt =====
-- What `releaseUnusedObjects` removes.
use packaged_task.Base.{
  ℕ, ◌≡◌, ◌≢◌, refl, ap, sym, ◌∙◌, inl, inr, List, [], ◌∷◌, find, erase, find-erase, All, none,
  some, Bool, Bool-cases, true, false, ◌==◌, ==_ne, if◌then◌else◌, arith,
}
use packaged_task.Objects.State.{Object, World, ObjEntry, ok, ◌>>=◌}
use packaged_task.Objects.Handles.{release_all}
use packaged_task.Objects.Manager.{
  owned_handles, destroy_object, erase_entry, release_if_deleted, release_entries,
  release_unused_objects,
}

-- Entries with objects of their own under identifiers of their own, of which the deleted ones own no
-- handles.
abbrev pub IsSweepable : List (ℕ × Object) → List (ℕ × ObjEntry) → Type 0
IsSweepable objects [] = Unit {0}
IsSweepable objects ((id, e) ∷ rest) =
    ((o : Object) × (find e.unique objects ≡ some o)
      × (o.is_del_it ≡ true → owned_handles o.body ≡ []))
    × All (λ r. (r.1.unique ≢ e.unique) × (r.0 ≢ id)) rest
    × IsSweepable objects rest

-- Whether the object of an entry is deleted.
abbrev pub deleted_entry : List (ℕ × Object) → ObjEntry → Bool
deleted_entry objects e = elim (find e.unique objects) [ none ↦ false | some o ↦ o.is_del_it ]

-- Whether an identifier has an entry with a deleted object.
abbrev pub is_unused : List (ℕ × Object) → List (ℕ × ObjEntry) → ℕ → Bool
is_unused objects [] k = false
is_unused objects ((id, e) ∷ rest) k =
    if id == k then deleted_entry objects e else is_unused objects rest k

-- An object that is erased is none of those of other entries.
erase-IsSweepable :
    (a id : ℕ) (objects : List (ℕ × Object)) (es : List (ℕ × ObjEntry))
    → All (λ r. (r.1.unique ≢ a) × (r.0 ≢ id)) es
    → IsSweepable objects es
    → IsSweepable (erase a objects) es
erase-IsSweepable a id objects [] others s = tt
erase-IsSweepable a id objects ((j, e) ∷ rest) others s =
    let (o, there, owns) = s.0 in
    (
      (
        o,
        find-erase a e.unique objects ∙ rw (==_ne a e.unique (λ q. others.0.0 (sym q))) there,
        owns,
      ),
      s.1,
      erase-IsSweepable a id objects rest others.1 s.2,
    )

is_unused-erase :
    (a id k : ℕ) (objects : List (ℕ × Object)) (es : List (ℕ × ObjEntry))
    → All (λ r. (r.1.unique ≢ a) × (r.0 ≢ id)) es
    → is_unused (erase a objects) es k ≡ is_unused objects es k
is_unused-erase a id k objects [] others = refl
is_unused-erase a id k objects ((j, e) ∷ rest) others =
    let same : find e.unique (erase a objects) ≡ find e.unique objects =
      find-erase a e.unique objects ∙ rw (==_ne a e.unique (λ q. others.0.0 (sym q))) refl in
    ap
      (λ f.
        if j == k
        then elim f [ none ↦ false | some o ↦ o.is_del_it ]
        else is_unused (erase a objects) rest k)
      same
    ∙ ap (λ b. if j == k then deleted_entry objects e else b)
        (is_unused-erase a id k objects rest others.1)

-- The identifier of an earlier entry comes in no later one.
is_unused_absent :
    (a id : ℕ) (objects : List (ℕ × Object)) (es : List (ℕ × ObjEntry))
    → All (λ r. (r.1.unique ≢ a) × (r.0 ≢ id)) es
    → is_unused objects es id ≡ false
is_unused_absent a id objects [] others = refl
is_unused_absent a id objects ((j, e) ∷ rest) others =
    rw (==_ne j id others.0.1) (is_unused_absent a id objects rest others.1)

-- A round at a deleted object, and at another one.
release_deleted :
    (id : ℕ) (e : ObjEntry) (o : Object) (w : World)
    → find e.unique w.objects ≡ some o
    → o.is_del_it ≡ true
    → owned_handles o.body ≡ []
    → release_if_deleted id e w
      ≡ ok tt (record w { objects = erase e.unique w.objects; entries = erase id w.entries })
unfolding release_if_deleted erase_entry destroy_object release_all
release_deleted id e o w there deleted owns = rw (there, ◌>>=◌, deleted, there, owns) refl

release_kept :
    (id : ℕ) (e : ObjEntry) (o : Object) (w : World)
    → find e.unique w.objects ≡ some o
    → o.is_del_it ≡ false
    → release_if_deleted id e w ≡ ok tt w
unfolding release_if_deleted
release_kept id e o w there kept = rw (there, ◌>>=◌, kept) refl

release_entries_lem :
    (es : List (ℕ × ObjEntry)) (w : World)
    → IsSweepable w.objects es
    → (w' : World) × (release_entries es w ≡ ok tt w')
      × ((k : ℕ)
          → find k w'.entries ≡ (if is_unused w.objects es k then none else find k w.entries))
unfolding release_entries
release_entries_lem [] w s = (w, refl, λ k. refl)
release_entries_lem ((id, e) ∷ rest) w s =
    let (o, there, owns) = s.0 in
    elim (Bool-cases o.is_del_it) [
      | inl deleted ↦
          let swept : World = record w {
            objects = erase e.unique w.objects;
            entries = erase id w.entries;
          } in
          let (w', ends, found) =
            release_entries_lem rest swept (erase-IsSweepable e.unique id w.objects rest s.1 s.2) in
          (
            w',
            rw (release_deleted id e o w there deleted (owns deleted), ◌>>=◌) ends,
            λ k. ground (
              arith,
              found k,
              find-erase id k w.entries,
              there,
              deleted,
              is_unused-erase e.unique id k w.objects rest s.1,
            ),
          )
      | inr kept ↦
          let (w', ends, found) = release_entries_lem rest w s.2 in
          (
            w',
            rw (release_kept id e o w there kept, ◌>>=◌) ends,
            λ k.
                ground
                  (arith, found k, there, kept, is_unused_absent e.unique id w.objects rest s.1),
          )
    ]

-- Where no identifier has two entries, each entry has an object of its own, and the deleted objects
-- own no handles, `releaseUnusedObjects` succeeds and erases exactly the entries whose objects are
-- deleted.
pub release_unused_objects_lem :
    (w : World)
    → IsSweepable w.objects w.entries
    → (w' : World) × (release_unused_objects w ≡ ok tt w')
      × ((k : ℕ)
          → find k w'.entries
            ≡ (if is_unused w.objects w.entries k then none else find k w.entries))
unfolding release_unused_objects
release_unused_objects_lem w s = release_entries_lem w.entries w s
