-- ===== src/Rtti/Lookup.antt =====
-- What the registry answers after a registration, and the two translations between names and
-- identifiers.
use packaged_task.Base.{
  ℕ, ◌≡◌, ◌≢◌, ◌==◌, if◌then◌else◌, [], ◌∷◌, All, none, some, find, find-assign, arith,
}
use Prim.Native.String.{String}
use text.Mathlib.TextEquality.{eq_iff}
use packaged_task.Rtti.{
  Rtti, Registry, ok, assertion_failed, class_id_to_rtti, register_class, string_to_class_id,
  class_id_to_string,
}

module _ {ℓ} {F : Type ℓ} where
  -- After a registration that passes its assertions the new class is found with the data given, and
  -- every other identifier is answered as before.
  pub class_id_to_rtti-register_class :
      (reg reg' : Registry F) (c base : ℕ) (name : String) (size : ℕ) (func : F) (k : ℕ)
      → register_class reg c base name size func ≡ ok reg'
      → class_id_to_rtti reg' k ≡ (
          if k == c
          then ok (record { base = base; size = size; class_name = name; factory = func })
          else class_id_to_rtti reg k)
  unfolding register_class class_id_to_rtti
  class_id_to_rtti-register_class reg reg' c base name size func k e = ground (
    arith,
    find-assign c k (record { base = base; size = size; class_name = name; factory = func }) reg,
  )

  -- A second registration of an identifier fails its assertion.
  pub register_class_twice :
      (reg reg' : Registry F) (c base : ℕ) (name : String) (size : ℕ) (func : F) (base' : ℕ)
      (name' : String) (size' : ℕ) (func' : F)
      → register_class reg c base name size func ≡ ok reg'
      → register_class reg' c base' name' size' func' ≡ assertion_failed
  unfolding register_class
  register_class_twice reg reg' c base name size func base' name' size' func' e = ground (
    arith,
    find-assign c c (record { base = base; size = size; class_name = name; factory = func }) reg,
  )

  -- No two entries share an identifier or a name.
  abbrev pub IsDistinct : Registry F → Type ℓ
  IsDistinct [] = Unit
  IsDistinct ((k, rtti) ∷ reg) =
      (find k reg ≡ none) × All (λ e. e.1.class_name ≢ rtti.class_name) reg × IsDistinct reg

  name_found :
      (reg : Registry F) (c : ℕ) (name : String) (rtti : Rtti F)
      → All (λ e. e.1.class_name ≢ name) reg
      → find c reg ≡ some rtti
      → rtti.class_name ≢ name
  unfolding find
  name_found [] c name rtti others e = cc
  name_found ((k, r) ∷ reg) c name rtti others e =
      ground (arith, others.0, name_found reg c name rtti others.1)

  name_leads_back :
      (reg : Registry F) (c : ℕ) (rtti : Rtti F)
      → IsDistinct reg
      → find c reg ≡ some rtti
      → string_to_class_id reg rtti.class_name ≡ c
  unfolding find string_to_class_id
  name_leads_back [] c rtti distinct e = cc
  name_leads_back ((k, r) ∷ reg) c rtti distinct e = ground (
    arith,
    distinct.0,
    eq_iff r.class_name rtti.class_name,
    name_found reg c r.class_name rtti distinct.1,
    name_leads_back reg c rtti distinct.2,
  )

  -- The name of a registered class leads back to its identifier, if the registry repeats neither.
  pub string_to_class_id-class_id_to_string :
      (reg : Registry F) (c : ℕ) (rtti : Rtti F)
      → IsDistinct reg
      → find c reg ≡ some rtti
      → string_to_class_id reg (class_id_to_string reg c) ≡ c
  unfolding class_id_to_string
  string_to_class_id-class_id_to_string reg c rtti distinct e =
      rw (e, class_id_to_string) (name_leads_back reg c rtti distinct e)
