-- ===== src/Objects/Manager/Sound/Swept.antt =====
-- `releaseUnusedObjects` keeps the invariant.
use packaged_task.Base.{
  ℕ, ◌≡◌, ◌≢◌, refl, ap, sym, subst, ◌∙◌, inl, inr, List, [], ◌∷◌, find, find-erase, All, some,
  Bool-cases, ◌==◌, ==_ne, ==_refl, arith,
}
use packaged_task.Objects.State.{Object, World, ObjEntry, ok, ◌>>=◌}
use packaged_task.Objects.Steps.{after_ok}
use packaged_task.Objects.Manager.{release_if_deleted, release_entries, release_unused_objects}
use packaged_task.Objects.Manager.Owned.{OwnsEach}
use packaged_task.Objects.Manager.Sound.{behind_body, Sound}
use packaged_task.Objects.Manager.Sound.Dropped.{erase_entry_held}

-- Every entry has its object.
pub entry_object :
    (objects : List (ℕ × Object)) (es : List (ℕ × ObjEntry)) (id : ℕ) (e : ObjEntry)
    → OwnsEach objects es
    → find id es ≡ some e
    → (o : Object) × (find e.unique objects ≡ some o)
unfolding find
entry_object objects [] id e owns at = absurd (cc)
entry_object objects ((j, d) ∷ es) id e owns at = elim (Bool-cases (j == id)) [
  | inl same ↦
      let entry : d ≡ e = ground arith in
      subst (λ (x : ObjEntry). (o : Object) × (find x.unique objects ≡ some o)) entry
        (behind_body (find d.unique objects) owns.0.1)
  | inr other ↦ entry_object objects es id e owns.2 (ground arith)
]

-- A round of the loop: the other entries stay.
release_if_deleted_held :
    (held : List (ℕ × ℕ)) (id : ℕ) (e : ObjEntry) (w : World)
    → Sound w.entries held w
    → find id w.entries ≡ some e
    → (w' : World) × (release_if_deleted id e w ≡ ok tt w')
      × Sound w'.entries held w'
      × ((k : ℕ) → k ≢ id → find k w'.entries ≡ find k w.entries)
unfolding release_if_deleted
release_if_deleted_held held id e w s at =
    let (o, there) = entry_object w.objects w.entries id e s.own at in
    elim (Bool-cases o.is_del_it) [
      | inl deleted ↦
          let (w', erased, s', left) = erase_entry_held held id e o w s at there deleted in
          (
            w',
            rw (there, ◌>>=◌, deleted) erased,
            s',
            λ k other.
                ap (find k) left
                ∙ find-erase id k w.entries
                ∙ rw (==_ne id k (λ q. other (sym q))) refl,
          )
      | inr kept ↦ (w, rw (there, ◌>>=◌, kept) refl, s, λ k other. refl)
    ]

-- Entries of a manager that are still to be looked at.
abbrev Ahead : World → List (ℕ × ObjEntry) → Type 0
Ahead w [] = Unit {0}
Ahead w ((id, e) ∷ es) = (find id w.entries ≡ some e) × All (λ r. r.0 ≢ id) es × Ahead w es

Ahead-kept :
    (w w' : World) (id : ℕ) (es : List (ℕ × ObjEntry))
    → All (λ r. r.0 ≢ id) es
    → ((k : ℕ) → k ≢ id → find k w'.entries ≡ find k w.entries)
    → Ahead w es
    → Ahead w' es
Ahead-kept w w' id [] others same ahead = tt
Ahead-kept w w' id ((j, e) ∷ es) (here, others) same ahead =
    (same j here ∙ ahead.0, ahead.1, Ahead-kept w w' id es others same ahead.2)

release_entries_held :
    (held : List (ℕ × ℕ)) (es : List (ℕ × ObjEntry)) (w : World)
    → Sound w.entries held w
    → Ahead w es
    → (w' : World) × (release_entries es w ≡ ok tt w') × Sound w'.entries held w'
unfolding release_entries
release_entries_held held [] w s ahead = (w, refl, s)
release_entries_held held ((id, e) ∷ es) w s ahead =
    let (w₁, round, s₁, same) = release_if_deleted_held held id e w s ahead.0 in
    let (w', rest, s') =
      release_entries_held held es w₁ s₁ (Ahead-kept w w₁ id es ahead.1 same ahead.2) in
    (w', after_ok (release_if_deleted id e) _ w round ∙ rest, s')

-- All entries are ahead at the start.
other_ids :
    (a id : ℕ) (es : List (ℕ × ObjEntry))
    → All (λ r. (r.1.unique ≢ a) × (r.0 ≢ id)) es
    → All (λ r. r.0 ≢ id) es
other_ids a id [] others = tt
other_ids a id ((j, e) ∷ es) (here, others) = (here.1, other_ids a id es others)

found_other :
    (id k : ℕ) (d : ObjEntry) (es : List (ℕ × ObjEntry))
    → All (λ r. r.0 ≢ id) es
    → find k es ≡ some d
    → k ≢ id
unfolding find
found_other id k d [] others at = absurd (cc)
found_other id k d ((j, e) ∷ es) (here, others) at = elim (Bool-cases (j == k)) [
  | inl same ↦ λ q. here (ground (arith, q))
  | inr more ↦ found_other id k d es others (ground arith)
]

all-Ahead :
    (objects : List (ℕ × Object)) (es : List (ℕ × ObjEntry)) (w : World)
    → OwnsEach objects es
    → ((k : ℕ) (e : ObjEntry) → find k es ≡ some e → find k w.entries ≡ some e)
    → Ahead w es
unfolding find
all-Ahead objects [] w owns within = tt
all-Ahead objects ((id, e) ∷ es) w owns within =
    let others = other_ids e.unique id es owns.1 in
    (
      within id e (rw (==_refl id) refl),
      others,
      all-Ahead objects es w owns.2
          λ k d at. within k d (rw (==_ne id k (λ q. found_other id k d es others at (sym q))) at),
    )

-- `releaseUnusedObjects` succeeds wherever the invariant holds, and keeps it.
pub release_unused_objects_held :
    (held : List (ℕ × ℕ)) (w : World)
    → Sound w.entries held w
    → (w' : World) × (release_unused_objects w ≡ ok tt w') × Sound w'.entries held w'
unfolding release_unused_objects
release_unused_objects_held held w s =
    release_entries_held held w.entries w s (all-Ahead w.objects w.entries w s.own (λ k e at. at))
