-- ===== src/Objects/Linking/Targets.antt =====
-- Where the identifiers of a stream lead after its first reading.
use packaged_task.Base.{
  ℕ, suc, ◌+◌, ◌≤◌, ◌≡◌, refl, ap, sym, ◌∙◌, List, [], ◌∷◌, length, All, find, ==_ne, ==_refl,
  ==_iff, some_cancel, Bool, Bool-cases, inl, inr, some, none, true, false, ◌==◌, if◌then◌else◌,
  arith,
}
use packaged_task.Objects.State.{World, ObjEntry, ObjHandle}
use packaged_task.Objects.Stored.{Stored, component_of, game_object_of}
use packaged_task.Objects.Loading.{inst_of}
use packaged_task.Objects.Linking.{links_of, entry_at, next_at, entries_of}
use packaged_task.Objects.Linking.Links.{Leads}
use packaged_task.Objects.Linking.Entries.{IsClosed}
use packaged_task.Objects.Linking.Placed.{handle_to}
use packaged_task.Objects.Linking.Made.{ArePlaced, AreRemapped}

-- Whether a record has an identifier; the address of its object, and that before its handle.
unfoldable pub has_record : (xs : List Stored) → (inst : ℕ) → Bool
has_record [] inst = false
has_record (x ∷ xs) inst = if inst_of x == inst then true else has_record xs inst

unfoldable pub object_in : (xs : List Stored) → (a inst : ℕ) → ℕ
object_in [] a inst = 0
object_in (x ∷ xs) a inst = if inst_of x == inst then a else object_in xs (next_at x a) inst

unfoldable pub handle_in : (xs : List Stored) → (a inst : ℕ) → ℕ
handle_in [] a inst = 0
handle_in (x ∷ xs) a inst =
    if inst_of x == inst then a + length (links_of x) else handle_in xs (next_at x a) inst

abbrev pub entry_in : (xs : List Stored) → (a inst : ℕ) → ObjEntry
entry_in xs a inst = record { unique = object_in xs a inst; handle = suc (handle_in xs a inst) }

module _ (id_remap : List (ℕ × ℕ)) (inst : ℕ) where
  leads_from :
      (xs : List Stored) (a id : ℕ)
      → AreRemapped id_remap xs id
      → has_record xs inst ≡ true
      → (n : ℕ) × (id ≤ n)
        × (find inst id_remap ≡ some n)
        × (find n (entries_of xs a id) ≡ some (entry_in xs a inst))
  unfolding has_record object_in handle_in find
  leads_from [] a id mapped there = absurd (ground (arith, there))
  leads_from (x ∷ xs) a id (first, mapped) there = elim (Bool-cases (inst_of x == inst)) [
    | inl same ↦ (
      id,
      omega arith,
      ap (λ i. find i id_remap) (sym ((==_iff (inst_of x) inst).0 same)) ∙ first,
      rw (==_refl id, same) refl,
    )
    | inr other ↦
        let (n, late, known, entry) =
          leads_from xs (next_at x a) (id + 1) mapped (rw other at there) in
        (n, omega (arith, late), known, rw (==_ne id n (λ e. omega (arith, e, late)), other) entry)
  ]

-- What the records refer to is among them, and a component has a game object.
abbrev pub IsKnown : (all : List Stored) → Stored → Type 0
IsKnown all (component_of inst none) = ⊥
IsKnown all (component_of inst (some g)) = has_record all g ≡ true
IsKnown all (game_object_of inst links) = All (λ l. has_record all l.1 ≡ true) links

module _ (id_remap : List (ℕ × ℕ)) (all : List Stored) (a id : ℕ)
    (mapped : AreRemapped id_remap all id) where
  leads_lem :
      (inst : ℕ)
      → has_record all inst ≡ true
      → Leads id_remap (object_in all a) (handle_in all a) (entries_of all a id) inst
  leads_lem inst there =
      let (n, late, known, entry) = leads_from id_remap inst all a id mapped there in
      (n, known, entry)

  lead_links :
      (links : List (ℕ × ℕ))
      → All (λ l. has_record all l.1 ≡ true) links
      → All
          (λ l. Leads id_remap (object_in all a) (handle_in all a) (entries_of all a id) l.1)
          links
  lead_links [] there = tt
  lead_links (l ∷ links) (here, there) = (leads_lem l.1 here, lead_links links there)

  known-IsClosed :
      (x : Stored)
      → IsKnown all x
      → IsClosed id_remap (object_in all a) (handle_in all a) (entries_of all a id) x
  known-IsClosed (component_of inst none) known = known
  known-IsClosed (component_of inst (some g)) known = leads_lem g known
  known-IsClosed (game_object_of inst links) known = lead_links links known

  pub All-IsClosed :
      (xs : List Stored)
      → All (IsKnown all) xs
      → All (IsClosed id_remap (object_in all a) (handle_in all a) (entries_of all a id)) xs
  All-IsClosed [] known = tt
  All-IsClosed (x ∷ xs) (known, others) = (known-IsClosed x known, All-IsClosed xs others)

-- The handles of the entries are there.
pub placed-AreLive :
    (xs : List Stored) (a id : ℕ) (w : World)
    → ArePlaced w xs a id
    → (n : ℕ) (e : ObjEntry) → find n (entries_of xs a id) ≡ some e
    → (r : ObjHandle) × (find e.handle w.handles ≡ some r)
unfolding find
placed-AreLive [] a id w placed n e found = absurd (ground (arith, found))
placed-AreLive (x ∷ xs) a id w (placed, others) n e found = elim (Bool-cases (id == n)) [
  | inl same ↦
      let this : entry_at x a ≡ e = some_cancel (rw same at found) in
      (handle_to a, ap (λ i. find i.handle w.handles) (sym this) ∙ placed.handle)
  | inr other ↦ placed-AreLive xs (next_at x a) (id + 1) w others n e (rw other at found)
]
