-- ===== src/Objects/Manager/Valid.antt =====
-- The invariant of the memory and its manager: identifiers and addresses are fresh, every entry has
-- its object, and no handle dangles.
use packaged_task.Base.{
  ℕ, suc, ◌+◌, ◌<◌, ◌≡◌, ◌≢◌, sym, ◌∙◌, ◌⊎◌, inl, inr, List, find, assign, find-assign,
  Option-cases, none, some, some_cancel, Bool-cases, ◌==◌, arith,
}
use packaged_task.Objects.State.{Object, World, ObjHandle, ObjEntry}
use packaged_task.Objects.Manager.Registered.{registered}

pub record IsValid (w : World) : Type 0 where
  pub first : (0 < w.next_available_id) × (0 < w.next_address)
  pub ids :
      (id : ℕ) (e : ObjEntry) → find id w.entries ≡ some e → (0 < id) × (id < w.next_available_id)
  pub object_addresses :
      (a : ℕ) (o : Object) → find a w.objects ≡ some o → (0 < a) × (a < w.next_address)
  pub handle_addresses :
      (h : ℕ) (r : ObjHandle) → find h w.handles ≡ some r → (0 < h) × (h < w.next_address)
  pub entry_objects :
      (id : ℕ) (e : ObjEntry)
      → find id w.entries ≡ some e
      → (o : Object) × (find e.unique w.objects ≡ some o) × (o.instance_id ≡ id)
  pub handle_objects :
      (h : ℕ) (r : ObjHandle)
      → find h w.handles ≡ some r
      → r.ptr ≢ 0
      → (o : Object) × (find r.ptr w.objects ≡ some o)

-- A key at which nothing may be found, since all that is found lies below it.
not_found {ℓ} :
    {V : Type ℓ} (n : ℕ) (m : List (ℕ × V))
    → ((v : V) → find n m ≡ some v → n < n)
    → find n m ≡ none
not_found n m below = elim (Option-cases (find n m)) [
  | inl e ↦ e
  | inr (v, e) ↦ absurd (omega (arith, below v e))
]

module _ {w : World} (v : IsValid w) where
  pub fresh_id : find w.next_available_id w.entries ≡ none
  fresh_id = not_found w.next_available_id w.entries (λ e found. (v.ids _ e found).1)

  pub fresh_object : find w.next_address w.objects ≡ none
  fresh_object = not_found w.next_address w.objects (λ o found. (v.object_addresses _ o found).1)

  pub fresh_handle : find w.next_address w.handles ≡ none
  fresh_handle = not_found w.next_address w.handles (λ r found. (v.handle_addresses _ r found).1)

-- What is found after an assignment is the new value, or was there before.
pub found_assigned {ℓ} :
    {V : Type ℓ} (k j : ℕ) (x y : V) (m : List (ℕ × V))
    → find j (assign k x m) ≡ some y
    → ((k ≡ j) × (x ≡ y)) ⊎ ((k ≢ j) × (find j m ≡ some y))
found_assigned k j x y m e = elim (Bool-cases (k == j)) [
  | inl same ↦ inl (ground arith, some_cancel (sym (find-assign k j x m ∙ rw same) ∙ e))
  | inr other ↦ inr (ground arith, sym (find-assign k j x m ∙ rw other) ∙ e)
]

pub still_found {ℓ} :
    {V : Type ℓ} (k j : ℕ) (x y : V) (m : List (ℕ × V))
    → find j m ≡ some y
    → (z : V) × (find j (assign k x m) ≡ some z)
still_found k j x y m e = elim (Bool-cases (k == j)) [
  | inl same ↦ (x, find-assign k j x m ∙ rw same)
  | inr other ↦ (y, find-assign k j x m ∙ rw other e)
]

-- An object that lies outside the manager, and below the next address.
pub record IsLoose (w : World) (a : ℕ) (o : Object) : Type 0 where
  pub at : find a w.objects ≡ some o
  pub unowned : (id : ℕ) (e : ObjEntry) → find id w.entries ≡ some e → e.unique ≢ a

-- Whatever lies below a bound, or is the bound itself, lies below the next one.
pub bounded_assigned {ℓ} :
    {V : Type ℓ} (n : ℕ) (x : V) (m : List (ℕ × V))
    → 0 < n
    → ((j : ℕ) (y : V) → find j m ≡ some y → (0 < j) × (j < n))
    → (j : ℕ) (y : V) → find j (assign n x m) ≡ some y
    → (0 < j) × (j < suc n)
bounded_assigned n x m some_n below j y e = elim (found_assigned n j x y m e) [
  | inl (same, _) ↦ omega arith
  | inr (_, old) ↦ omega (arith, below j y old)
]

module _ (a : ℕ) (o : Object) (w : World) (v : IsValid w) (loose : IsLoose w a o) where
  registered_ids :
      (id : ℕ) (e : ObjEntry)
      → find id (registered a o w).entries ≡ some e
      → (0 < id) × (id < w.next_available_id + 1)
  registered_ids id e f = omega (arith, bounded_assigned _ _ w.entries v.first.0 v.ids id e f)

  registered_objects :
      (b : ℕ) (p : Object)
      → find b (registered a o w).objects ≡ some p
      → (0 < b) × (b < suc w.next_address)
  registered_objects b p f = elim (found_assigned a b _ p w.objects f) [
    | inl (same, _) ↦ omega (arith, v.object_addresses a o loose.at)
    | inr (_, old) ↦ omega (arith, v.object_addresses b p old)
  ]

  registered_entry_objects :
      (id : ℕ) (e : ObjEntry)
      → find id (registered a o w).entries ≡ some e
      → (p : Object) × (find e.unique (registered a o w).objects ≡ some p) × (p.instance_id ≡ id)
  registered_entry_objects id e f = elim (found_assigned _ id _ e w.entries f) [
    | inl (same, entry) ↦ (
      record o { instance_id = w.next_available_id },
      ground (
        arith,
        entry,
        find-assign a a (record o { instance_id = w.next_available_id }) w.objects,
      ),
      same,
    )
    | inr (_, old) ↦
        let (p, at, id_of) = v.entry_objects id e old in
        (
          p,
          ground (
            arith,
            loose.unowned id e old,
            find-assign a e.unique (record o { instance_id = w.next_available_id }) w.objects,
          ),
          id_of,
        )
  ]

  registered_handle_objects :
      (h : ℕ) (r : ObjHandle)
      → find h (registered a o w).handles ≡ some r
      → r.ptr ≢ 0
      → (p : Object) × (find r.ptr (registered a o w).objects ≡ some p)
  registered_handle_objects h r f set = elim (found_assigned _ h _ r w.handles f) [
    | inl (_, new) ↦ (
      record o { instance_id = w.next_available_id },
      ground
          (arith, new, find-assign a a (record o { instance_id = w.next_available_id }) w.objects),
    )
    | inr (_, old) ↦
        let (p, at) = v.handle_objects h r old set in still_found a r.ptr _ p w.objects at
  ]

  -- Registering an object that no entry owns keeps the invariant.
  pub registered-IsValid : IsValid (registered a o w)
  registered-IsValid = record {
    first = omega (arith, v.first);
    ids = registered_ids;
    object_addresses = registered_objects;
    handle_addresses = bounded_assigned _ _ w.handles v.first.1 v.handle_addresses;
    entry_objects = registered_entry_objects;
    handle_objects = registered_handle_objects;
  }
