-- ===== src/Rtti/Derived.antt =====
-- `IsDerivedFromClassID` decides the ancestor relation, and its loop ends on a registry without
-- cycles.
use packaged_task.Base.{
  ℕ, zero, suc, ◌<◌, ◌≡◌, refl, ◌≢◌, ◌↔◌, ◌==◌, Option, none, some, Bool, true, false, arith, ◌+◌,
  if◌then◌else◌,
}
use native.Mathlib.Decide.{ℕ_discrete}
use packaged_task.Rtti.{Registry, undefined, get_super_class_id, is_derived_from_class_id}

module _ {ℓ} {F : Type ℓ} (reg : Registry F) where
  -- `c` is `d`, or its registered base derives from `d`. No class derives from or is -1.
  pub data Derives : ℕ → ℕ → Type 0 where
    same : {c d : ℕ} → c ≢ undefined → c ≡ d → Derives c d
    base : {c d : ℕ} → c ≢ undefined → Derives (get_super_class_id reg c) d → Derives c d

  -- The base of every class ranks below it, as long as there is one.
  abbrev pub IsRanked : (ℕ → ℕ) → Type 0
  IsRanked rank =
      (c : ℕ) → get_super_class_id reg c ≢ undefined → rank (get_super_class_id reg c) < rank c

  derived_step :
      (fuel c d : ℕ)
      → is_derived_from_class_id (suc fuel) reg c d ≡ (
          if c == undefined
          then some false
          else if c == d
          then some true
          else is_derived_from_class_id fuel reg (get_super_class_id reg c) d)
  unfolding is_derived_from_class_id
  derived_step fuel c d = refl

  derived_sound : (fuel c d : ℕ) → is_derived_from_class_id fuel reg c d ≡ some true → Derives c d
  derived_sound zero c d e = unfold is_derived_from_class_id in cc
  derived_sound (suc fuel) c d e = elim (ℕ_discrete c undefined) [
    | yes top ↦ absurd (ground (arith, derived_step fuel c d))
    | no inner ↦ elim (ℕ_discrete c d) [
      | yes found ↦ same inner found
      | no more ↦ base inner (derived_sound fuel _ d (ground (arith, derived_step fuel c d)))
    ]
  ]

  derived_complete :
      (fuel c d : ℕ) → is_derived_from_class_id fuel reg c d ≡ some false → ¬ Derives c d
  derived_complete zero c d e h = unfold is_derived_from_class_id in cc
  derived_complete (suc fuel) c d e (same inner found) = ground (arith, derived_step fuel c d)
  derived_complete (suc fuel) c d e (base inner h) = ground (
    arith,
    derived_step fuel c d,
    λ (f : is_derived_from_class_id fuel reg (get_super_class_id reg c) d ≡ some false).
        derived_complete fuel (get_super_class_id reg c) d f h,
  )

  derived_top : (fuel d : ℕ) → 0 < fuel → is_derived_from_class_id fuel reg undefined d ≡ some false
  derived_top zero d h = elim h [ ]
  derived_top (suc fuel) d h = rw (derived_step fuel undefined d)

  derived_past_top :
      (fuel c d : ℕ)
      → get_super_class_id reg c ≡ undefined
      → 0 < fuel
      → is_derived_from_class_id fuel reg (get_super_class_id reg c) d ≡ some false
  derived_past_top fuel c d top h = rw top (derived_top fuel d h)

  derived_ends :
      (rank : ℕ → ℕ) (fuel c d : ℕ)
      → IsRanked rank
      → rank c + 1 < fuel
      → is_derived_from_class_id fuel reg c d ≢ none
  derived_ends rank zero c d ranked enough = elim enough [ ]
  derived_ends rank (suc fuel) c d ranked enough =
      elim (ℕ_discrete (get_super_class_id reg c) undefined) [
        | yes top ↦ ground (arith, derived_step fuel c d, derived_past_top fuel c d top)
        | no inner ↦ ground (
          arith,
          derived_step fuel c d,
          ranked c inner,
          derived_ends rank fuel (get_super_class_id reg c) d ranked,
        )
      ]

  decided :
      (fuel c d : ℕ) (answer : Option Bool)
      → is_derived_from_class_id fuel reg c d ≡ answer
      → answer ≢ none
      → (found : Bool) × (is_derived_from_class_id fuel reg c d ≡ some found)
        × ((found ≡ true) ↔ Derives c d)
  decided fuel c d none e ends = absurd (ends refl)
  decided fuel c d (some true) e ends = (true, e, ((λ _. derived_sound fuel c d e), (λ _. refl)))
  decided fuel c d (some false) e ends =
      (false, e, ((λ f. cc), (λ h. absurd (derived_complete fuel c d e h))))

  -- On a registry whose classes have ranks that fall towards the root, the loop of
  -- `IsDerivedFromClassID` ends within the rank of the class and two more rounds, and its answer is
  -- true exactly if the class is or inherits from the other one.
  pub is_derived_from_class_id-Derives :
      (rank : ℕ → ℕ) (fuel c d : ℕ)
      → IsRanked rank
      → rank c + 1 < fuel
      → (found : Bool) × (is_derived_from_class_id fuel reg c d ≡ some found)
        × ((found ≡ true) ↔ Derives c d)
  is_derived_from_class_id-Derives rank fuel c d ranked enough =
      decided fuel c d (is_derived_from_class_id fuel reg c d) refl
        (derived_ends rank fuel c d ranked enough)
