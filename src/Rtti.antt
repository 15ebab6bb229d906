-- ===== src/Rtti.antt =====
-- src/core/object.h and src/core/object.cpp: the run-time type information of the object classes. A
-- class identifier is the bit pattern of an `int32_t`; the registry is the map
-- `s_mClassIDToRttiMap`.
pub mod Lookup
pub mod Derived
use packaged_task.Base.{
  ℕ, zero, suc, ◌-◌, ◌^◌, List, [], ◌∷◌, ◌==◌, if◌then◌else◌, find, assign, Option, none, some,
  Bool, true, false,
}
use mathlib.Core.Option
use Prim.Native.String.{String}
use text.Mathlib.Text.{◌==◌ as str_eq}

-- -1, the identifier of no class.
abbrev pub undefined : ℕ
undefined = 2 ^ 32 - 1

-- `F` is the type of the factory functions.
pub record Rtti {ℓ} (F : Type ℓ) : Type ℓ where
  pub base : ℕ
  pub size : ℕ
  pub class_name : String
  pub factory : F

abbrev pub Registry {ℓ} : Type ℓ → Type ℓ
Registry F = List (ℕ × Rtti F)

-- What a function with an `assert` or an exception ends in.
pub data Result {ℓ} (A : Type ℓ) : Type ℓ where
  ok : A → Result A
  assertion_failed not_found : Result A

module _ {ℓ} {F : Type ℓ} where
  unfoldable pub class_id_to_rtti : Registry F → ℕ → Result (Rtti F)
  class_id_to_rtti reg class_id =
      if class_id == undefined
      then assertion_failed
      else elim (find class_id reg) [ none ↦ not_found | some rtti ↦ ok rtti ]

  -- Both assertions, then `s_mClassIDToRttiMap[inClassID] = rtti`.
  unfoldable pub register_class : Registry F → ℕ → ℕ → String → ℕ → F → Result (Registry F)
  register_class reg class_id base_class name size func =
      if class_id == undefined then assertion_failed else elim (find class_id reg) [
        | some _ ↦ assertion_failed
        | none ↦ ok (
            assign class_id
              (record { base = base_class; size = size; class_name = name; factory = func }) reg)
      ]

  unfoldable pub get_super_class_id : Registry F → ℕ → ℕ
  get_super_class_id reg class_id = elim (find class_id reg) [
    | none ↦ undefined
    | some rtti ↦ rtti.base
  ]

  -- The `while` loop on fuel: `none` stands for a loop that is still running.
  unfoldable pub is_derived_from_class_id : (fuel : ℕ) → Registry F → ℕ → ℕ → Option Bool
  is_derived_from_class_id zero reg search derived_from = none
  is_derived_from_class_id (suc fuel) reg search derived_from =
      let next = is_derived_from_class_id fuel reg (get_super_class_id reg search) derived_from in
      if search == undefined then some false else if search == derived_from then some true else next

  -- The first class of that name in the order of iteration, or -1.
  unfoldable pub string_to_class_id : Registry F → String → ℕ
  string_to_class_id [] name = undefined
  string_to_class_id ((key, rtti) ∷ reg) name =
      if str_eq rtti.class_name name then key else string_to_class_id reg name

  unfoldable pub class_id_to_string : Registry F → ℕ → String
  class_id_to_string reg class_id = elim (find class_id reg) [
    | none ↦ ""
    | some rtti ↦ rtti.class_name
  ]
