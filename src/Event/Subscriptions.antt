-- ===== src/Event/Subscriptions.antt =====
-- Subscriptions as the raising of events sees them.
use packaged_task.Base.{
  ℕ, ◌+◌, ◌^◌, ◌<◌, ◌≡◌, ◌∙◌, [], Option, none, some, ◌==◌, if◌then◌else◌, find, assign,
  find-assign, arith, Bool-cases, ==_iff, inl, inr,
}
use packaged_task.ThreadPool.{ThreadPool}
use packaged_task.Event.{
  SpecEvent, EventSystem, bind, unbind, submit_all, call, empty_event, register_event,
  subscribe_to_event, un_subscribe_from_event, raise_event,
}
use packaged_task.Event.Delegates.{IsValid, unbind-bind}

module _ {ℓ} {D : Type ℓ} where
  subscribed_twice :
      (h k : ℕ) (fn : D) (s : EventSystem D) (e : SpecEvent D)
      → find h s ≡ some e
      → find k
          (un_subscribe_from_event h (subscribe_to_event h fn s).1 (subscribe_to_event h fn s).0)
        ≡ (if h == k then some (unbind (bind fn e).1 (bind fn e).0) else find k s)
  unfolding subscribe_to_event un_subscribe_from_event
  subscribed_twice h k fn s e f = ground (
    arith,
    find-assign h h (bind fn e).0 s,
    find-assign h k (bind fn e).0 s,
    find-assign h k (unbind (bind fn e).1 (bind fn e).0) (assign h (bind fn e).0 s),
  )

module _ {ℓ κ μ} {D : Type ℓ} {R : Type κ} {A : Type μ} (apply : D → A → Option R) (moved : A → A)
    (args : A) where
  raise_found :
      (h : ℕ) (s s' : EventSystem D) (pool : ThreadPool R)
      → find h s ≡ find h s'
      → raise_event h apply moved args s pool ≡ raise_event h apply moved args s' pool
  unfolding raise_event
  raise_found h s s' pool e = rw (e, raise_event)

  raise_delegates :
      (h : ℕ) (s s' : EventSystem D) (e e' : SpecEvent D) (pool : ThreadPool R)
      → find h s ≡ some e
      → find h s' ≡ some e'
      → e.delegates ≡ e'.delegates
      → raise_event h apply moved args s pool ≡ raise_event h apply moved args s' pool
  unfolding raise_event call
  raise_delegates h s s' e e' pool f f' d = rw (f, f', raise_event, d)

  -- Subscribing to an event that is not registered returns 0 and changes nothing, unsubscribing from
  -- it changes nothing, and raising it submits no task and returns no future.
  pub unregistered :
      (h evh : ℕ) (fn : D) (s : EventSystem D) (pool : ThreadPool R)
      → find h s ≡ none
      → (subscribe_to_event h fn s ≡ (s, 0))
        × (un_subscribe_from_event h evh s ≡ s)
        × (raise_event h apply moved args s pool ≡ (pool, []))
  unfolding subscribe_to_event un_subscribe_from_event raise_event
  unregistered h evh fn s pool e = ground arith

  -- Whatever event is raised later, a subscription that is taken back at once leaves no trace, if
  -- the handles of the event are valid and its counter has not run through all 32 bits.
  pub subscribe_unsubscribe :
      (h k : ℕ) (fn : D) (s : EventSystem D) (e : SpecEvent D) (pool : ThreadPool R)
      → find h s ≡ some e
      → IsValid e
      → e.next_available_id + 1 < 2 ^ 32
      → raise_event k apply moved args
          (un_subscribe_from_event h (subscribe_to_event h fn s).1 (subscribe_to_event h fn s).0)
          pool
        ≡ raise_event k apply moved args s pool
  subscribe_unsubscribe h k fn s e pool f v small = elim (Bool-cases (h == k)) [
    | inl same ↦
        let same' : h ≡ k = (==_iff h k).0 same in
        raise_delegates k _ s (unbind (bind fn e).1 (bind fn e).0) e pool
          (subscribed_twice h k fn s e f ∙ rw same) (rw same' at f) (unbind-bind fn e small v)
    | inr other ↦ raise_found k _ s pool (subscribed_twice h k fn s e f ∙ rw other)
  ]

  -- Registering an event drops the delegates that it had, and leaves every other event alone.
  pub raise-register_event :
      (h k : ℕ) (s : EventSystem D) (pool : ThreadPool R)
      → raise_event k apply moved args (register_event h s) pool
        ≡ (if h == k then (pool, []) else raise_event k apply moved args s pool)
  unfolding register_event raise_event call submit_all
  raise-register_event h k s pool = ground (arith, find-assign h k (empty_event {D = D}) s)
