-- ===== src/Base/Maps.antt =====
-- A `std::unordered_map` keyed by integers, as an association list in the order of iteration.
use Prim.Native.Nat.{ℕ}
use mathlib.Core.Path.{◌≡◌, refl}
use mathlib.Core.List.{List, [], ◌∷◌, ◌++◌}
use mathlib.Core.Option.{Option, none, some}
use native.Mathlib.Omega.{arith}
use packaged_task.Base.Tests.{◌==◌, if◌then◌else◌}

module _ {ℓ} {V : Type ℓ} where
  -- `find`: `none` stands for `end()`.
  unfoldable pub find : ℕ → List (ℕ × V) → Option V
  find k [] = none
  find k ((j, v) ∷ m) = if j == k then some v else find k m

  -- `m[k] = v`: a fresh key is linked at the end.
  unfoldable pub assign : ℕ → V → List (ℕ × V) → List (ℕ × V)
  assign k v [] = (k, v) ∷ []
  assign k v ((j, w) ∷ m) = if j == k then (k, v) ∷ m else (j, w) ∷ assign k v m

  unfoldable pub erase : ℕ → List (ℕ × V) → List (ℕ × V)
  erase k [] = []
  erase k ((j, w) ∷ m) = if j == k then erase k m else (j, w) ∷ erase k m

  pub find-assign :
      (k j : ℕ) (v : V) (m : List (ℕ × V))
      → find j (assign k v m) ≡ (if k == j then some v else find j m)
  unfolding find assign
  find-assign k j v [] = refl
  find-assign k j v ((i, w) ∷ m) = ground (arith, find-assign k j v m)

  pub find-erase :
      (k j : ℕ) (m : List (ℕ × V)) → find j (erase k m) ≡ (if k == j then none else find j m)
  unfolding find erase
  find-erase k j [] = ground arith
  find-erase k j ((i, w) ∷ m) = ground (arith, find-erase k j m)

  -- `m[k] = v` at a key that is not there yet.
  pub assign-fresh :
      (k : ℕ) (v : V) (m : List (ℕ × V)) → find k m ≡ none → assign k v m ≡ m ++ ((k, v) ∷ [])
  unfolding find assign
  assign-fresh k v [] h = refl
  assign-fresh k v ((j, w) ∷ m) h = ground (arith, assign-fresh k v m)

  pub assign-assign :
      (k : ℕ) (v w : V) (m : List (ℕ × V)) → assign k v (assign k w m) ≡ assign k v m
  unfolding assign
  assign-assign k v w [] = ground arith
  assign-assign k v w ((j, u) ∷ m) = ground (arith, assign-assign k v w m)

  pub find-assign_self : (k : ℕ) (v : V) (m : List (ℕ × V)) → find k (assign k v m) ≡ some v
  find-assign_self k v m = ground (arith, find-assign k k v m)
