-- ===== src/Objects/Linking/Made.antt =====
-- What the first loop of `deserialize` has made of a list of records.
use packaged_task.Base.{
  ℕ, suc, ◌+◌, ◌<◌, ◌≡◌, ◌≢◌, refl, ap, sym, subst, ◌∙◌, List, [], ◌∷◌, ◌++◌, length, All, find,
  find-assign, find-assign_self, append_assoc, append-nil, ==_ne, some, arith,
}
use packaged_task.Objects.State.{World}
use packaged_task.Objects.Stored.{Stored}
use packaged_task.Objects.Deserialize.{Loaded}
use packaged_task.Objects.Loading.{inst_of, load_world, load_one, load_records}
use packaged_task.Objects.Loading.Loop.{IsRoomy, load_world-IsRoomy, next_id-load_world}
use packaged_task.Objects.Linking.{links_of, entry_at, next_at, entries_of}
use packaged_task.Objects.Linking.Placed.{
  IsPlaced, still-HaveStandIns, next-load_world, load_world-IsPlaced, load_world-below,
  load_world-entries,
}

abbrev pub ArePlaced : World → List Stored → (a id : ℕ) → Type 0
ArePlaced w [] a id = Unit {0}
ArePlaced w (x ∷ xs) a id = IsPlaced w x a id × ArePlaced w xs (next_at x a) (id + 1)

-- Below an address two memories are the same.
abbrev AreSameBelow : (w w' : World) → (last : ℕ) → Type 0
AreSameBelow w w' last =
    (b : ℕ)
    → b < last
    → (find b w'.objects ≡ find b w.objects) × (find b w'.handles ≡ find b w.handles)

still-IsPlaced :
    (x : Stored) (a id : ℕ) (w w' : World)
    → AreSameBelow w w' (next_at x a)
    → IsPlaced w x a id
    → IsPlaced w' x a id
still-IsPlaced x a id w w' same placed = record {
  object = (same a (omega arith)).0 ∙ placed.object;
  handle = (same (suc (a + length (links_of x))) (omega arith)).1 ∙ placed.handle;
  stand_ins =
      still-HaveStandIns (links_of x) (suc a) (next_at x a) w w' (omega arith)
        (λ b below. (same b below).1) placed.stand_ins;
}

pub load_records-ArePlaced :
    (xs : List Stored) (a id : ℕ) (w : World) (l : Loaded)
    → w.next_address ≡ a
    → w.next_available_id ≡ id
    → ArePlaced (load_records xs w l).0 xs a id × AreSameBelow w (load_records xs w l).0 a
unfolding load_records
load_records-ArePlaced [] a id w l place first = (tt, λ b below. (refl, refl))
load_records-ArePlaced (x ∷ xs) a id w l place first =
    let there = next-load_world x w ∙ ap (next_at x) place in
    let (others, same) =
      load_records-ArePlaced xs (next_at x a) (id + 1) (load_world x w) (load_one x w l) there
        (next_id-load_world x w ∙ ap (λ i. i + 1) first) in
    let placed =
      subst (λ i. IsPlaced (load_world x w) x a i) first
        (subst (λ b. IsPlaced (load_world x w) x b w.next_available_id) place
          (load_world-IsPlaced x w)) in
    (
      (
        still-IsPlaced x a id (load_world x w) (load_records xs (load_world x w) (load_one x w l)).0
            same placed,
        others,
      ),
      λ b below.
          let (objects, handles) = same b (omega (arith, below)) in
          let (objects', handles') = load_world-below x w b (omega (arith, below, place)) in
          (objects ∙ objects', handles ∙ handles'),
    )

pub load_records-entries :
    (xs : List Stored) (a id : ℕ) (w : World) (l : Loaded)
    → w.next_address ≡ a
    → w.next_available_id ≡ id
    → IsRoomy w
    → (load_records xs w l).0.entries ≡ w.entries ++ entries_of xs a id
unfolding load_records
load_records-entries [] a id w l place first roomy = sym (append-nil w.entries)
load_records-entries (x ∷ xs) a id w l place first roomy =
    load_records-entries xs (next_at x a) (id + 1) (load_world x w) (load_one x w l)
      (next-load_world x w ∙ ap (next_at x) place) (next_id-load_world x w ∙ ap (λ i. i + 1) first)
      (load_world-IsRoomy x w roomy)
    ∙ ap (λ es. es ++ entries_of xs (next_at x a) (id + 1))
        (load_world-entries x w (roomy w.next_available_id (omega arith)))
    ∙ append_assoc w.entries ((w.next_available_id, entry_at x w.next_address) ∷ [])
        (entries_of xs (next_at x a) (id + 1))
    ∙ ap (λ i. w.entries ++ ((i, entry_at x w.next_address) ∷ entries_of xs (next_at x a) (id + 1)))
        first
    ∙ ap (λ b. w.entries ++ ((id, entry_at x b) ∷ entries_of xs (next_at x a) (id + 1))) place

-- No two records have the same identifier.
abbrev pub AreDistinct : List Stored → Type 0
AreDistinct [] = Unit {0}
AreDistinct (x ∷ xs) = All (λ y. inst_of y ≢ inst_of x) xs × AreDistinct xs

-- The map leads from each record's identifier to the new one.
abbrev pub AreRemapped : (id_remap : List (ℕ × ℕ)) → List Stored → (id : ℕ) → Type 0
AreRemapped id_remap [] id = Unit {0}
AreRemapped id_remap (x ∷ xs) id =
    (find (inst_of x) id_remap ≡ some id) × AreRemapped id_remap xs (id + 1)

not_remapped :
    (inst : ℕ) (xs : List Stored) (w : World) (l : Loaded)
    → All (λ y. inst_of y ≢ inst) xs
    → find inst (load_records xs w l).1.id_remap ≡ find inst l.id_remap
unfolding load_records
not_remapped inst [] w l others = refl
not_remapped inst (x ∷ xs) w l (other, others) =
    not_remapped inst xs (load_world x w) (load_one x w l) others
    ∙ find-assign (inst_of x) inst w.next_available_id l.id_remap
    ∙ rw (==_ne (inst_of x) inst other) refl

pub load_records-AreRemapped :
    (xs : List Stored) (id : ℕ) (w : World) (l : Loaded)
    → w.next_available_id ≡ id
    → AreDistinct xs
    → AreRemapped (load_records xs w l).1.id_remap xs id
unfolding load_records
load_records-AreRemapped [] id w l first distinct = tt
load_records-AreRemapped (x ∷ xs) id w l first (others, distinct) = (
  not_remapped (inst_of x) xs (load_world x w) (load_one x w l) others
      ∙ find-assign_self (inst_of x) w.next_available_id l.id_remap
      ∙ ap some first,
  load_records-AreRemapped xs (id + 1) (load_world x w) (load_one x w l)
      (next_id-load_world x w ∙ ap (λ i. i + 1) first) distinct,
)
