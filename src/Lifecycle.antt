-- ===== src/Lifecycle.antt =====
-- src/core/module.h: `Module<T>`, a singleton that is started up and shut down by hand. The
-- constructor of `T` and the hooks `onStartUp` and `onShutDown` are the client's, and may throw
-- (`none`).
pub mod Once
use packaged_task.Base.{Bool, true, false, not, ◌&&◌, Option, none, some, if◌then◌else◌}

-- `_instance()`, `isStartedUp()` and `isDestroyed()`.
pub record Module {ℓ} (T : Type ℓ) : Type ℓ where
  pub inst : Option T
  pub is_started_up : Bool
  pub is_destroyed : Bool

-- The static variables before any call.
abbrev pub initial {ℓ} : {T : Type ℓ} → Module T
initial = record { inst = none; is_started_up = false; is_destroyed = false }

pub data Error : Type 0 where
  not_started already_destroyed already_started already_shut_down never_started : Error
  thrown_by_client : Error

-- The state after the call, and what the call returned or threw. `fault` dereferences a null pointer.
pub data Result {ℓ} (A : Type ℓ) : Type ℓ where
  ok : A → Result A
  err : Error → Result A
  fault : Result A

module _ {ℓ} {T : Type ℓ} where
  -- `instance()` and `instancePtr()`
  unfoldable pub instance_of : Module T → Result T
  instance_of m =
      if not m.is_started_up
      then err not_started
      else if m.is_destroyed
      then err already_destroyed
      else elim m.inst [ none ↦ fault | some t ↦ ok t ]

  unfoldable pub started : Module T → Bool
  started m = m.is_started_up && not m.is_destroyed

  -- What is left of `startUp` when the constructor has returned.
  unfoldable pub run_on_start_up : (T → Option T) → T → Module T → Module T × Result (Unit {0})
  run_on_start_up on_start_up t m = elim (on_start_up t) [
    | none ↦ (record m { inst = some t; is_started_up = true }, err thrown_by_client)
    | some t' ↦ (record m { inst = some t'; is_started_up = true }, ok tt)
  ]

  -- `startUp(args...)`, with the outcome of the constructor at these arguments. The form with a
  -- `SubType` has the same body.
  unfoldable pub start_up : Option T → (T → Option T) → Module T → Module T × Result (Unit {0})
  start_up constructed on_start_up m =
      if m.is_started_up then (m, err already_started) else elim constructed [
        | none ↦ (m, err thrown_by_client)
        | some t ↦ run_on_start_up on_start_up t m
      ]

  unfoldable pub run_on_shut_down : (T → Option T) → T → Module T → Module T × Result (Unit {0})
  run_on_shut_down on_shut_down t m = elim (on_shut_down t) [
    | none ↦ (m, err thrown_by_client)
    | some t' ↦ (record m { inst = none; is_destroyed = true }, ok tt)
  ]

  unfoldable pub shut_down : (T → Option T) → Module T → Module T × Result (Unit {0})
  shut_down on_shut_down m =
      if m.is_destroyed
      then (m, err already_shut_down)
      else if not m.is_started_up
      then (m, err never_started)
      else elim m.inst [ none ↦ (m, fault) | some t ↦ run_on_shut_down on_shut_down t m ]
