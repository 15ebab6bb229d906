-- ===== src/Objects/Manager/Sound/Erased.antt =====
-- A list of entries without one of them.
use packaged_task.Base.{
  ℕ, ◌+◌, ◌≡◌, ◌≢◌, refl, ap, sym, subst, ◌∙◌, inl, inr, List, [], ◌∷◌, find, erase, All, some,
  Bool-cases, true, ◌==◌, ==_ne, arith,
}
use packaged_task.Objects.State.{Object, ObjEntry}
use packaged_task.Objects.Manager.Counts.{count, count-append}
use packaged_task.Objects.Manager.Nullify.{body_of}
use packaged_task.Objects.Manager.Owned.{OwnsEach, owned_by, handles_of}
use packaged_task.Objects.Manager.Sound.{is_led}

-- What an entry is that is taken out of the list.
erase_absent :
    (a id : ℕ) (es : List (ℕ × ObjEntry))
    → All (λ r. (r.1.unique ≢ a) × (r.0 ≢ id)) es
    → erase id es ≡ es
unfolding erase
erase_absent a id [] others = refl
erase_absent a id ((j, e) ∷ es) (here, others) =
    rw (==_ne j id here.1, erase_absent a id es others) refl

erase_same :
    (a j id : ℕ) (es : List (ℕ × ObjEntry))
    → j ≡ id
    → All (λ r. (r.1.unique ≢ a) × (r.0 ≢ j)) es
    → erase id es ≡ es
erase_same a j id es key others =
    erase_absent a id es (subst (λ (k : ℕ). All (λ r. (r.1.unique ≢ a) × (r.0 ≢ k)) es) key others)

all_erase {κ} :
    (P : ℕ × ObjEntry → Type κ) (id : ℕ) (es : List (ℕ × ObjEntry)) → All P es → All P (erase id es)
unfolding erase
all_erase P id [] holds = tt
all_erase P id ((j, e) ∷ es) (here, holds) = elim (Bool-cases (j == id)) [
  | inl same ↦ rw same (all_erase P id es holds)
  | inr other ↦ rw other (here, all_erase P id es holds)
]

-- Entry `e` of identifier `id` is the first of the list, or another one.
module _ (objects : List (ℕ × Object)) (id : ℕ) (e : ObjEntry) where
  pub erase-OwnsEach :
      (es : List (ℕ × ObjEntry)) → OwnsEach objects es → OwnsEach objects (erase id es)
  unfolding erase
  erase-OwnsEach [] owns = tt
  erase-OwnsEach ((j, d) ∷ es) owns = elim (Bool-cases (j == id)) [
    | inl same ↦ rw same (erase-OwnsEach es owns.2)
    | inr other ↦ rw other (
      owns.0,
      all_erase (λ r. (r.1.unique ≢ d.unique) × (r.0 ≢ j)) id es owns.1,
      erase-OwnsEach es owns.2,
    )
  ]

  all_found {κ} :
      (P : ℕ × ObjEntry → Type κ) (es : List (ℕ × ObjEntry))
      → All P es
      → find id es ≡ some e
      → P (id, e)
  unfolding find
  all_found P [] holds at = absurd (cc)
  all_found P ((j, d) ∷ es) (here, holds) at = elim (Bool-cases (j == id)) [
    | inl same ↦
        let entry : d ≡ e = ground arith in
        let key : j ≡ id = ground arith in
        subst (λ (k : ℕ). P (k, e)) key (subst (λ (x : ObjEntry). P (j, x)) entry here)
    | inr other ↦ all_found P es holds (ground arith)
  ]

  -- No other entry has its object or its identifier.
  pub erase-apart :
      (es : List (ℕ × ObjEntry))
      → OwnsEach objects es
      → find id es ≡ some e
      → All (λ r. (r.1.unique ≢ e.unique) × (r.0 ≢ id)) (erase id es)
  unfolding erase find
  erase-apart [] owns at = absurd (cc)
  erase-apart ((j, d) ∷ es) owns at = elim (Bool-cases (j == id)) [
    | inl same ↦
        let entry : d ≡ e = ground arith in
        let key : j ≡ id = ground arith in
        rw (same, erase_same d.unique j id es key owns.1)
          (subst (λ (x : ObjEntry). All (λ r. (r.1.unique ≢ x.unique) × (r.0 ≢ id)) es) entry
            (subst (λ (k : ℕ). All (λ r. (r.1.unique ≢ d.unique) × (r.0 ≢ k)) es) key owns.1))
    | inr other ↦
        let apart = all_found (λ r. (r.1.unique ≢ d.unique) × (r.0 ≢ j)) es owns.1 (ground arith) in
        rw other
          ((λ q. apart.0 (sym q), λ q. apart.1 (sym q)), erase-apart es owns.2 (ground arith))
  ]

  -- A handle of another object is still that of an entry.
  pub erase-is_led :
      (es : List (ℕ × ObjEntry)) (h a : ℕ)
      → OwnsEach objects es
      → find id es ≡ some e
      → a ≢ e.unique
      → is_led es h a ≡ true
      → is_led (erase id es) h a ≡ true
  unfolding erase find is_led
  erase-is_led [] h a owns at other led = absurd (cc)
  erase-is_led ((j, d) ∷ es) h a owns at other led = elim (Bool-cases (j == id)) [
    | inl same ↦
        let entry : d ≡ e = ground arith in
        let key : j ≡ id = ground arith in
        rw (same, erase_same d.unique j id es key owns.1)
          (ground (
            arith,
            led,
            ==_ne d.unique a (λ q. other (sym q ∙ ap (λ (x : ObjEntry). x.unique) entry)),
          ))
    | inr more ↦ rw more (ground (arith, led, erase-is_led es h a owns.2 (ground arith) other))
  ]

  -- The entries own what it owns and what the others own.
  pub erase-count :
      (es : List (ℕ × ObjEntry)) (h : ℕ)
      → OwnsEach objects es
      → find id es ≡ some e
      → count h (owned_by objects es)
        ≡ count h (handles_of (body_of (find e.unique objects)))
          + count h (owned_by objects (erase id es))
  unfolding erase find
  erase-count [] h owns at = absurd (cc)
  erase-count ((j, d) ∷ es) h owns at = elim (Bool-cases (j == id)) [
    | inl same ↦
        let entry : d ≡ e = ground arith in
        let key : j ≡ id = ground arith in
        rw (same, erase_same d.unique j id es key owns.1)
          (count-append h (handles_of (body_of (find d.unique objects))) (owned_by objects es)
            ∙ ap
                (λ (x : ObjEntry).
                  count h (handles_of (body_of (find x.unique objects)))
                  + count h (owned_by objects es))
                entry)
    | inr more ↦
        let mine : List (ℕ × ℕ) = handles_of (body_of (find d.unique objects)) in
        let its : List (ℕ × ℕ) = handles_of (body_of (find e.unique objects)) in
        rw more (
          omega (
            arith,
            count-append h mine (owned_by objects es),
            count-append h mine (owned_by objects (erase id es)),
            erase-count es h owns.2 (ground arith),
          ))
  ]
