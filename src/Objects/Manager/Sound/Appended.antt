-- ===== src/Objects/Manager/Sound/Appended.antt =====
-- A list of entries with one more.
use packaged_task.Base.{
  ℕ, ◌<◌, ◌≡◌, ◌≢◌, refl, ap, sym, inl, inr, List, [], ◌∷◌, ◌++◌, find, All, some, Bool-cases, ◌==◌,
  ==_refl, ◌&&◌, ◌||◌, arith,
}
use packaged_task.Objects.State.{Object, Body, ObjEntry}
use packaged_task.Objects.Manager.Nullify.{body_of}
use packaged_task.Objects.Manager.Owned.{OwnsEach, owned_by, handles_of}
use packaged_task.Objects.Manager.Sound.{is_led, behind_body}

-- Entries with an object and an identifier that are not theirs, and an entry with these.
pub append-OwnsEach :
    (objects : List (ℕ × Object)) (id : ℕ) (e : ObjEntry) (b : Body) (es : List (ℕ × ObjEntry))
    → OwnsEach objects es
    → All (λ r. (r.1.unique ≢ e.unique) × (r.0 ≢ id)) es
    → body_of (find e.unique objects) ≡ some b
    → OwnsEach objects (es ++ ((id, e) ∷ []))
append-OwnsEach objects id e b [] owns others there = ((b, there), tt, tt)
append-OwnsEach objects id e b ((j, d) ∷ es) owns (here, others) there =
    (owns.0, all_append es owns.1, append-OwnsEach objects id e b es owns.2 others there)
  where
    all_append :
        (xs : List (ℕ × ObjEntry))
        → All (λ r. (r.1.unique ≢ d.unique) × (r.0 ≢ j)) xs
        → All (λ r. (r.1.unique ≢ d.unique) × (r.0 ≢ j)) (xs ++ ((id, e) ∷ []))
    all_append [] apart = ((λ q. here.0 (sym q), λ q. here.1 (sym q)), tt)
    all_append (x ∷ xs) (one, apart) = (one, all_append xs apart)

pub owned_by-append :
    (objects : List (ℕ × Object)) (id : ℕ) (e : ObjEntry) (es : List (ℕ × ObjEntry))
    → handles_of (body_of (find e.unique objects)) ≡ []
    → owned_by objects (es ++ ((id, e) ∷ [])) ≡ owned_by objects es
owned_by-append objects id e [] nothing = rw nothing refl
owned_by-append objects id e ((j, d) ∷ es) nothing =
    ap (λ l. handles_of (body_of (find d.unique objects)) ++ l)
      (owned_by-append objects id e es nothing)

pub is_led-append :
    (es : List (ℕ × ObjEntry)) (id : ℕ) (e : ObjEntry) (h a : ℕ)
    → is_led (es ++ ((id, e) ∷ [])) h a ≡ (is_led es h a || (e.handle == h && e.unique == a))
unfolding is_led
is_led-append [] id e h a = ground arith
is_led-append ((j, d) ∷ es) id e h a = ground (arith, is_led-append es id e h a)

-- Objects of entries are old, and their identifiers.
pub old_entries :
    (objects : List (ℕ × Object)) (n m : ℕ) (es : List (ℕ × ObjEntry))
    → OwnsEach objects es
    → ((a : ℕ) (o : Object) → find a objects ≡ some o → a < n)
    → ((k : ℕ) (e : ObjEntry) → find k es ≡ some e → k < m)
    → All (λ r. (r.1.unique ≢ n) × (r.0 ≢ m)) es
unfolding find
old_entries objects n m [] owns below ids = tt
old_entries objects n m ((j, e) ∷ es) owns below ids =
    let (o, there) = behind_body (find e.unique objects) owns.0.1 in
    let first = ids j e (rw (==_refl j) refl) in
    (
      (λ q. omega (arith, q, below e.unique o there), λ q. omega (arith, q, first)),
      old_entries objects n m es owns.2 below λ k d at. elim (Bool-cases (j == k)) [
        | inl same ↦ ground (arith, first)
        | inr other ↦ ids k d (rw other at)
      ],
    )
