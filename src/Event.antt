-- ===== src/Event.antt =====
-- src/core/event.h: `SpecEvent`, the delegates of one event, and `EventSystem`, the events by the
-- hash of their names. `D` is the type of the delegates. Each operation holds the spin lock of its
-- object from its first line to its end, so they follow one another.
pub mod Delegates
pub mod Subscriptions
use packaged_task.Base.{
  ℕ, suc, ◌+◌, ◌%◌, ◌^◌, List, [], ◌∷◌, ◌++◌, Option, none, some, Bool, true, false, ◌==◌, find,
  assign, if◌then◌else◌,
}
use packaged_task.ThreadPool.{ThreadPool, submit}

pub record DelegateHolder {ℓ} (D : Type ℓ) : Type ℓ where
  pub delegate : D
  pub object : ℕ

pub record SpecEvent {ℓ} (D : Type ℓ) : Type ℓ where
  pub delegates : List (DelegateHolder D)
  pub next_available_id : ℕ

module _ {ℓ} {D : Type ℓ} where
  abbrev pub empty_event : SpecEvent D
  empty_event = record { delegates = []; next_available_id = 0 }

  -- `bind`: `++m_next_available_ID` on a `uint32_t`.
  unfoldable pub bind : D → SpecEvent D → SpecEvent D × ℕ
  bind fn e =
      let evh = (e.next_available_id + 1) % 2 ^ 32 in
      (
        record {
          delegates = e.delegates ++ (record { delegate = fn; object = evh } ∷ []);
          next_available_id = evh;
        },
        evh,
      )

  -- `remove_if` and `erase`
  unfoldable pub remove_delegates : ℕ → List (DelegateHolder D) → List (DelegateHolder D)
  remove_delegates evh [] = []
  remove_delegates evh (d ∷ ds) =
      if d.object == evh then remove_delegates evh ds else d ∷ remove_delegates evh ds

  unfoldable pub unbind : ℕ → SpecEvent D → SpecEvent D
  unbind evh e = record e { delegates = remove_delegates evh e.delegates }

  -- `call`: one task for each delegate, which runs it on the arguments; `apply` is that run. The
  -- arguments are forwarded into each delegate's `std::bind`, and `moved` is what that leaves of them
  -- for the next one: a moved-from value of an argument that is an rvalue, the same value of an
  -- lvalue. The result is the pool and the futures.
  unfoldable pub submit_all {κ μ} :
      {R : Type κ} {A : Type μ}
      → (apply : D → A → Option R) (moved : A → A) → A
      → List (DelegateHolder D)
      → ThreadPool R
      → ThreadPool R × List ℕ
  submit_all apply moved args [] pool = (pool, [])
  submit_all apply moved args (d ∷ ds) pool =
      let (pool', future) = submit (apply d.delegate args) pool in
      let (pool'', futures) = submit_all apply moved (moved args) ds pool' in
      (pool'', future ∷ futures)

  unfoldable pub call {κ μ} :
      {R : Type κ} {A : Type μ}
      → (apply : D → A → Option R) (moved : A → A) → A
      → SpecEvent D
      → ThreadPool R
      → ThreadPool R × List ℕ
  call apply moved args e pool = submit_all apply moved args e.delegates pool

-- `EventsMap`: the key is the hash of the event's name.
abbrev pub EventSystem {ℓ} : Type ℓ → Type ℓ
EventSystem D = List (ℕ × SpecEvent D)

module _ {ℓ} {D : Type ℓ} where
  -- An event that was registered before loses its delegates.
  unfoldable pub register_event : (event_hash : ℕ) → EventSystem D → EventSystem D
  register_event event_hash s = assign event_hash empty_event s

  unfoldable pub subscribe_to_event : ℕ → D → EventSystem D → EventSystem D × ℕ
  subscribe_to_event event_hash fn s = elim (find event_hash s) [
    | none ↦ (s, 0)
    | some e ↦ let (e', evh) = bind fn e in (assign event_hash e' s, evh)
  ]

  unfoldable pub un_subscribe_from_event : ℕ → (evh : ℕ) → EventSystem D → EventSystem D
  un_subscribe_from_event event_hash evh s = elim (find event_hash s) [
    | none ↦ s
    | some e ↦ assign event_hash (unbind evh e) s
  ]

  unfoldable pub raise_event {κ μ} :
      {R : Type κ} {A : Type μ}
      → ℕ
      → (apply : D → A → Option R) (moved : A → A) → A
      → EventSystem D
      → ThreadPool R
      → ThreadPool R × List ℕ
  raise_event event_hash apply moved args s pool = elim (find event_hash s) [
    | none ↦ (pool, [])
    | some e ↦ call apply moved args e pool
  ]
