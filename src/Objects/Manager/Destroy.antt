-- ===== src/Objects/Manager/Destroy.antt =====
-- What `~GameObjectManager` leaves behind.
use packaged_task.Base.{
  ℕ, suc, ◌+◌, ◌≤◌, ◌≡◌, ◌≢◌, refl, ap, sym, ◌∙◌, List, [], ◌∷◌, find, erase, find-erase, Option,
  Option-cases, inl, inr, none, some, Bool, Bool-cases, true, false, ◌==◌, if◌then◌else◌, arith,
}
use packaged_task.Objects.State.{Body, World, ObjHandle, ObjEntry, ok, load_object, or_fault}
use packaged_task.Objects.Handles.{release_all}
use packaged_task.Objects.Manager.{
  owned_handles, destroy_object, erase_entry, nullify_entries, destroy_entries, destroy_manager,
}
use packaged_task.Objects.Manager.Counts.{
  fewer, fewer-fewer, owners_of, owners_of-fewer, count, count-append, IsCleared, Released,
  Released-IsCleared, release_all_cleared,
}
use packaged_task.Objects.Manager.Nullify.{
  IsAlive, is_handle, cut_off, body_of, nullify_entries_lem,
}
use packaged_task.Objects.Steps.{after_ok}
use packaged_task.Objects.Manager.Owned.{
  handles_of, owned_by, OwnsEach, owned_by_same, OwnsEach-same, all_same, others_same,
}

-- The round at an entry.
erase_entry_lem :
    (id : ℕ) (e : ObjEntry) (b : Body) (w : World)
    → body_of (find e.unique w.objects) ≡ some b
    → IsCleared w
    → ((h : ℕ) → count (suc h) (owned_handles b) ≤ owners_of (find (suc h) w.handles))
    → (handles : List (ℕ × ObjHandle)) × (erase_entry id e w
        ≡ ok tt (record w {
          objects = erase e.unique w.objects;
          handles = handles;
          entries = erase id w.entries;
        }))
      × Released (λ h. count h (owned_handles b)) w handles
unfolding erase_entry destroy_object
erase_entry_lem id e b w there clear enough = elim (Option-cases (find e.unique w.objects)) [
  | inl gone ↦ absurd (ground (arith, there, gone))
  | inr (o, found) ↦
      let body : o.body ≡ b = ground (arith, there, found) in
      let (handles, ends, all) = release_all_cleared (owned_handles b) w clear enough in
      (
        handles,
        after_ok (destroy_object e.unique)
            (λ _ w. ok tt (record w { entries = erase id w.entries })) w
            (after_ok (load_object e.unique) _ w (ap (λ o. or_fault o w) found)
              ∙ after_ok (release_all (owned_handles o.body)) _ w
                  (ap (λ x. release_all (owned_handles x) w) body ∙ ends)),
        all,
      )
]

-- Whether an identifier or an object is that of an entry.
unfoldable pub has_id : List (ℕ × ObjEntry) → ℕ → Bool
has_id [] k = false
has_id ((id, e) ∷ es) k = if id == k then true else has_id es k

unfoldable pub has_object : List (ℕ × ObjEntry) → ℕ → Bool
has_object [] a = false
has_object ((id, e) ∷ es) a = if e.unique == a then true else has_object es a

find-has_id : (es : List (ℕ × ObjEntry)) (k : ℕ) → (if has_id es k then none else find k es) ≡ none
unfolding has_id find
find-has_id [] k = refl
find-has_id ((id, e) ∷ es) k = ground (arith, find-has_id es k)

-- The destruction of `mObjects`.
destroy_entries_lem :
    (es : List (ℕ × ObjEntry)) (w : World)
    → OwnsEach w.objects es
    → IsCleared w
    → ((h : ℕ) → count (suc h) (owned_by w.objects es) ≤ owners_of (find (suc h) w.handles))
    → (w' : World) × (destroy_entries es w ≡ ok tt w')
      × ((k : ℕ) → find k w'.entries ≡ (if has_id es k then none else find k w.entries))
      × ((a : ℕ) → find a w'.objects ≡ (if has_object es a then none else find a w.objects))
      × Released (λ h. count h (owned_by w.objects es)) w w'.handles
unfolding destroy_entries has_id has_object count
destroy_entries_lem [] w owns clear enough = (
  w,
  refl,
  λ k. refl,
  λ a. refl,
  λ h. elim (find (suc h) w.handles) as (λ o. o ≡ fewer o 0) [ none ↦ refl | some r ↦ refl ],
)
destroy_entries_lem ((id, e) ∷ es) w owns clear enough =
    let (b, there) = owns.0 in
    let mine : List (ℕ × ℕ) = handles_of (body_of (find e.unique w.objects)) in
    let its : mine ≡ owned_handles b = ap handles_of there in
    let others = owned_by w.objects es in
    let split = λ (h : ℕ).
      count-append (suc h) mine others ∙ ap (λ l. count (suc h) l + count (suc h) others) its in
    let (handles, round, lost) =
      erase_entry_lem id e b w there clear (λ h. omega (arith, enough h, split h)) in
    let w₁ : World = record w {
      objects = erase e.unique w.objects;
      handles = handles;
      entries = erase id w.entries;
    } in
    let same = others_same e.unique id w.objects es owns.1 in
    let left : owned_by w₁.objects es ≡ others = owned_by_same w.objects w₁.objects es same in
    let (w', rest, ids, objects, gone) =
      destroy_entries_lem es w₁ (OwnsEach-same w.objects w₁.objects es same owns.2)
        (Released-IsCleared (λ h. count h (owned_handles b)) w handles clear lost)
        (λ h.
          rw
            (
              left,
              lost h,
              owners_of-fewer (find (suc h) w.handles) (count (suc h) (owned_handles b)),
            )
            (omega (arith, enough h, split h))) in
    (
      w',
      after_ok (erase_entry id e) _ w round ∙ rest,
      λ k. ground (arith, ids k, find-erase id k w.entries),
      λ a. ground (arith, objects a, find-erase e.unique a w.objects),
      λ h.
          gone h
          ∙ ap (λ l. fewer (find (suc h) handles) (count (suc h) l)) left
          ∙ ap (λ o. fewer o (count (suc h) others)) (lost h)
          ∙ fewer-fewer (find (suc h) w.handles) _ _
          ∙ ap (fewer (find (suc h) w.handles)) (sym (split h)),
    )

-- Each handle has an address and an owner, and leads nowhere or to an object, and then it is an
-- entry's.
pub record IsSound (w : World) : Type 0 where
  pub alive : IsAlive w
  pub led :
      (h : ℕ) (r : ObjHandle) → find h w.handles ≡ some r → r.ptr ≢ 0 → is_handle w.entries h ≡ true
  pub own : OwnsEach w.objects w.entries
  pub counted :
      (h : ℕ) → count (suc h) (owned_by w.objects w.entries) ≤ owners_of (find (suc h) w.handles)

-- What the first loop has cut off leads nowhere, and has its owners.
cut_all :
    (b : Bool) (o : Option ObjHandle)
    → ((r : ObjHandle) → o ≡ some r → r.ptr ≢ 0 → b ≡ true)
    → cut_off b o ≡ cut_off true o
cut_all b none led = refl
cut_all true (some r) led = refl
cut_all false (some r) led = elim (Bool-cases (r.ptr == 0)) [
  | inl null ↦ ground arith
  | inr set ↦ absurd (ground (arith, led r refl (λ e. ground arith)))
]

cut-IsCleared : (o : Option ObjHandle) (r : ObjHandle) → cut_off true o ≡ some r → r.ptr ≡ 0
cut-IsCleared none r e = cc
cut-IsCleared (some q) r e = ground arith

owners_of-cut_off : (o : Option ObjHandle) → owners_of (cut_off true o) ≡ owners_of o
owners_of-cut_off none = refl
owners_of-cut_off (some r) = refl

-- The destructor succeeds and leaves no entry and none of the entries' objects, but every other
-- object. A handle has lost as many owners as the entries' game objects held, and is gone if there
-- were no others; one that is left leads nowhere, so that none dangles. Each handle has at least the
-- owners that the game objects are, and leads nowhere or to an object, in which case it is the
-- handle of an entry; each entry has an object of its own.
pub destroy_manager_lem :
    (w : World)
    → IsSound w
    → (w' : World) × (destroy_manager w ≡ ok tt w')
      × ((k : ℕ) → find k w'.entries ≡ none)
      × ((a : ℕ)
          → body_of (find a w'.objects)
            ≡ (if has_object w.entries a then none else body_of (find a w.objects)))
      × ((h : ℕ)
          → find (suc h) w'.handles
            ≡ fewer
                (cut_off true (find (suc h) w.handles))
                (count (suc h) (owned_by w.objects w.entries)))
unfolding destroy_manager
destroy_manager_lem w s =
    let (objects, handles, first, bodies, cut) = nullify_entries_lem w.entries w s.alive in
    let w₁ : World = record w { objects = objects; handles = handles } in
    let same = all_same w.objects objects w.entries bodies in
    let kept : owned_by objects w.entries ≡ owned_by w.objects w.entries =
      owned_by_same w.objects objects w.entries same in
    let all = λ (h : ℕ). cut h ∙ cut_all (is_handle w.entries h) (find h w.handles) (s.led h) in
    let (w', second, ids, gone, lost) =
      destroy_entries_lem w.entries w₁ (OwnsEach-same w.objects objects w.entries same s.own)
        (λ h r e. cut-IsCleared (find (suc h) w.handles) r (sym (all (suc h)) ∙ e))
        (λ h. rw (kept, all (suc h), owners_of-cut_off (find (suc h) w.handles)) (s.counted h)) in
    (
      w',
      after_ok (nullify_entries w.entries) _ w first ∙ second,
      λ k. ids k ∙ find-has_id w.entries k,
      λ a. ground (arith, gone a, bodies a),
      λ h.
          lost h
          ∙ ap (λ l. fewer (find (suc h) handles) (count (suc h) l)) kept
          ∙ ap (λ o. fewer o (count (suc h) (owned_by w.objects w.entries))) (all (suc h)),
    )
