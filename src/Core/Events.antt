-- ===== src/Core/Events.antt =====
-- The events of `Core`.
use packaged_task.Base.{
  ℕ, ◌≡◌, refl, ap, List, length, [], ◌∷◌, ◌++◌, find, find-assign_self, Option, some,
}
use packaged_task.ThreadPool.{ThreadPool, submit}
use packaged_task.Event.{
  DelegateHolder, SpecEvent, EventSystem, bind, submit_all, call, subscribe_to_event, raise_event,
}
use packaged_task.Event.Delegates.{forwarded}
use packaged_task.Core.{Core, add_functor, raise_core_event}

module _ {D R A : Type 0} (apply : D → A → Option R) (moved : A → A) where
  -- A delegate at the end is submitted last, with what the others have left of the arguments.
  submit_all-append :
      (args : A) (ds : List (DelegateHolder D)) (d : DelegateHolder D) (pool : ThreadPool R)
      → submit_all apply moved args (ds ++ (d ∷ [])) pool ≡ (
        (submit
            (apply d.delegate (forwarded moved (length ds) args))
            (submit_all apply moved args ds pool).0).0,
        (submit_all apply moved args ds pool).1
            ++ ((submit
                  (apply d.delegate (forwarded moved (length ds) args))
                  (submit_all apply moved args ds pool).0).1
                ∷ []),
      )
  unfolding submit_all forwarded
  submit_all-append args [] d pool = refl
  submit_all-append args (e ∷ ds) d pool =
      let (pool', future) = submit (apply e.delegate args) pool in
      ap (λ r. (r.0, future ∷ r.1)) (submit_all-append (moved args) ds d pool')

  raise-subscribe_to_event :
      (h : ℕ) (fn : D) (args : A) (s : EventSystem D) (e : SpecEvent D) (pool : ThreadPool R)
      → find h s ≡ some e
      → raise_event h apply moved args (subscribe_to_event h fn s).0 pool ≡ (
        (submit
            (apply fn (forwarded moved (length e.delegates) args))
            (raise_event h apply moved args s pool).0).0,
        (raise_event h apply moved args s pool).1
            ++ ((submit
                  (apply fn (forwarded moved (length e.delegates) args))
                  (raise_event h apply moved args s pool).0).1
                ∷ []),
      )
  unfolding raise_event subscribe_to_event call bind
  raise-subscribe_to_event h fn args s e pool there =
      rw (there, subscribe_to_event, find-assign_self h (bind fn e).0 s, raise_event)
        (submit_all-append args e.delegates _ pool)

  -- Raising an event that is registered, after a functor has been added to it, does what raising it
  -- before does, and then submits the new functor: its future is the last. It runs on what
  -- forwarding the arguments to each delegate before it has left of them.
  pub raise-add_functor :
      (h : ℕ) (fn : D) (args : A) (c : Core D R) (e : SpecEvent D)
      → find h c.event_system ≡ some e
      → ((raise_core_event h apply moved args (add_functor h fn c).0).0.thread_pool
          ≡ (submit
              (apply fn (forwarded moved (length e.delegates) args))
              (raise_core_event h apply moved args c).0.thread_pool).0)
        × ((raise_core_event h apply moved args (add_functor h fn c).0).1
            ≡ (raise_core_event h apply moved args c).1
              ++ ((submit
                    (apply fn (forwarded moved (length e.delegates) args))
                    (raise_core_event h apply moved args c).0.thread_pool).1
                  ∷ []))
  unfolding raise_core_event add_functor
  raise-add_functor h fn args c e there =
      let both = raise-subscribe_to_event h fn args c.event_system e c.thread_pool there in
      (ap (λ r. r.0) both, ap (λ r. r.1) both)
