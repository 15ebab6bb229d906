-- ===== src/Lifecycle/Once.antt =====
-- Over any history of calls `Module<T>` refines a machine of three phases, in which a module is
-- started up once at most.
use packaged_task.Base.{
  ℕ, suc, ◌≤◌, ◌≡◌, refl, List, [], ◌∷◌, Bool, true, false, Option, none, some, arith, Option-cases,
  inl, inr,
}
use packaged_task.Lifecycle.{
  Module, initial, not_started, already_destroyed, already_started, already_shut_down,
  never_started, thrown_by_client, Result, ok, err, instance_of, started, start_up, run_on_start_up,
  shut_down, run_on_shut_down,
}

-- A call with the outcome of the client's code.
pub data Call {ℓ} (T : Type ℓ) : Type ℓ where
  starts : Option T → (T → Option T) → Call T
  shuts : (T → Option T) → Call T

pub data Phase {ℓ} (T : Type ℓ) : Type ℓ where
  never gone : Phase T
  up : T → Phase T

module _ {ℓ} {T : Type ℓ} where
  unfoldable pub step : Module T → Call T → Module T × Result (Unit {0})
  step m (starts constructed hook) = start_up constructed hook m
  step m (shuts hook) = shut_down hook m

  unfoldable pub run : Module T → List (Call T) → Module T × List (Result (Unit {0}))
  run m [] = (m, [])
  run m (c ∷ cs) = let (m', r) = step m c in let (m'', rs) = run m' cs in (m'', r ∷ rs)

  -- The abstract machine. A start whose hook throws leaves the module started, a shutdown whose hook
  -- throws leaves it as it was.
  unfoldable pub phase_step : Phase T → Call T → Phase T × Result (Unit {0})
  phase_step never (starts none hook) = (never, err thrown_by_client)
  phase_step never (starts (some t) hook) = elim (hook t) [
    | none ↦ (up t, err thrown_by_client)
    | some t' ↦ (up t', ok tt)
  ]
  phase_step never (shuts hook) = (never, err never_started)
  phase_step (up t) (starts constructed hook) = (up t, err already_started)
  phase_step (up t) (shuts hook) = elim (hook t) [
    | none ↦ (up t, err thrown_by_client)
    | some t' ↦ (gone, ok tt)
  ]
  phase_step gone (starts constructed hook) = (gone, err already_started)
  phase_step gone (shuts hook) = (gone, err already_shut_down)

  unfoldable pub phase_run : Phase T → List (Call T) → Phase T × List (Result (Unit {0}))
  phase_run p [] = (p, [])
  phase_run p (c ∷ cs) =
      let (p', r) = phase_step p c in let (p'', rs) = phase_run p' cs in (p'', r ∷ rs)

  -- The static variables in a phase.
  abbrev pub concrete : Phase T → Module T
  concrete never = initial
  concrete (up t) = record { inst = some t; is_started_up = true; is_destroyed = false }
  concrete gone = record { inst = none; is_started_up = true; is_destroyed = true }

  step-phase_step :
      (p : Phase T) (c : Call T)
      → step (concrete p) c ≡ (concrete (phase_step p c).0, (phase_step p c).1)
  unfolding step phase_step start_up run_on_start_up shut_down run_on_shut_down
  step-phase_step never (starts none hook) = refl
  step-phase_step never (starts (some t) hook) = ground arith
  step-phase_step never (shuts hook) = refl
  step-phase_step (up t) (starts constructed hook) = refl
  step-phase_step (up t) (shuts hook) = ground arith
  step-phase_step gone (starts constructed hook) = refl
  step-phase_step gone (shuts hook) = refl

  run_phases :
      (p : Phase T) (cs : List (Call T))
      → run (concrete p) cs ≡ (concrete (phase_run p cs).0, (phase_run p cs).1)
  unfolding run phase_run
  run_phases p [] = refl
  run_phases p (c ∷ cs) = rw (step-phase_step p c, run_phases (phase_step p c).0 cs)

  -- From the initial static variables every history of startups and shutdowns returns and throws what
  -- the machine of three phases does, and leaves the variables of its phase.
  pub run-phase_run :
      (cs : List (Call T))
      → run initial cs ≡ (concrete (phase_run never cs).0, (phase_run never cs).1)
  run-phase_run cs = run_phases never cs

  -- What `instance()` answers in a phase.
  unfoldable pub phase_instance : Phase T → Result T
  phase_instance never = err not_started
  phase_instance (up t) = ok t
  phase_instance gone = err already_destroyed

  unfoldable pub is_up : Phase T → Bool
  is_up never = false
  is_up (up t) = true
  is_up gone = false

  -- After any history `instance()` answers by the phase, so it never follows a null pointer, and
  -- `isStarted()` is true exactly between the startup and the shutdown.
  pub instance_of-run :
      (cs : List (Call T))
      → (instance_of (run initial cs).0 ≡ phase_instance (phase_run never cs).0)
        × (started (run initial cs).0 ≡ is_up (phase_run never cs).0)
  unfolding instance_of started phase_instance is_up
  instance_of-run cs = rw (run-phase_run cs) (answers (phase_run never cs).0)
    where
      answers :
          (p : Phase T)
          → (instance_of (concrete p) ≡ phase_instance p) × (started (concrete p) ≡ is_up p)
      answers never = (refl, refl)
      answers (up t) = (refl, refl)
      answers gone = (refl, refl)

  -- The startups in a history that return normally.
  unfoldable pub starts_done : List (Call T) → List (Result (Unit {0})) → ℕ
  starts_done (starts constructed hook ∷ cs) (ok _ ∷ rs) = suc (starts_done cs rs)
  starts_done (_ ∷ cs) (_ ∷ rs) = starts_done cs rs
  starts_done _ _ = 0

  budget : Phase T → ℕ
  budget never = 1
  budget (up t) = 0
  budget gone = 0

  starts_bounded : (p : Phase T) (cs : List (Call T)) → starts_done cs (phase_run p cs).1 ≤ budget p
  unfolding starts_done phase_run phase_step budget
  starts_bounded p [] = omega arith
  starts_bounded never (starts none hook ∷ cs) = starts_bounded never cs
  starts_bounded never (starts (some t) hook ∷ cs) = elim (Option-cases (hook t)) [
    | inl e ↦ ground (arith, starts_bounded (up t) cs)
    | inr (t', e) ↦ ground (arith, starts_bounded (up t') cs)
  ]
  starts_bounded never (shuts hook ∷ cs) = starts_bounded never cs
  starts_bounded (up t) (starts constructed hook ∷ cs) = starts_bounded (up t) cs
  starts_bounded (up t) (shuts hook ∷ cs) =
      ground (arith, starts_bounded (up t) cs, starts_bounded gone cs)
  starts_bounded gone (starts constructed hook ∷ cs) = starts_bounded gone cs
  starts_bounded gone (shuts hook ∷ cs) = starts_bounded gone cs

  -- In any history at most one startup returns normally.
  pub starts_done-run : (cs : List (Call T)) → starts_done cs (run initial cs).1 ≤ 1
  starts_done-run cs = rw (run-phase_run cs) (unfold budget in starts_bounded never cs)
