-- ===== src/Event/Delegates.antt =====
-- The handles that `SpecEvent` gives out, and the tasks that a call submits.
use packaged_task.Base.{
  ℕ, zero, suc, ◌+◌, ◌%◌, ◌^◌, ◌<◌, ◌≤◌, ◌≡◌, refl, ap, sym, ◌∙◌, List, [], ◌∷◌, ◌++◌, Option,
  arith, append_assoc, append-nil,
}
use packaged_task.ThreadPool.{ThreadPool, count_up, post, submit}
use packaged_task.Event.{
  DelegateHolder, SpecEvent, bind, remove_delegates, unbind, submit_all, call,
}

-- What is left of the arguments after they have been forwarded a number of times.
unfoldable pub forwarded {μ} : {A : Type μ} → (moved : A → A) → ℕ → A → A
forwarded moved zero args = args
forwarded moved (suc n) args = forwarded moved n (moved args)

forwarded-moved {μ} :
    {A : Type μ} (moved : A → A) (n : ℕ) (args : A)
    → moved (forwarded moved n args) ≡ forwarded moved (suc n) args
unfolding forwarded
forwarded-moved moved zero args = refl
forwarded-moved moved (suc n) args = forwarded-moved moved n (moved args)

module _ {ℓ} {D : Type ℓ} where
  -- Handles rise along the list, lie above `low` and are at most `high`.
  abbrev pub Rising : (low high : ℕ) → List (DelegateHolder D) → Type 0
  Rising low high [] = low ≤ high
  Rising low high (d ∷ ds) = (low < d.object) × Rising d.object high ds

  -- No handle is 0, none occurs twice, and none is above the counter.
  abbrev pub IsValid : SpecEvent D → Type 0
  IsValid e = Rising 0 e.next_available_id e.delegates

  Rising-mono :
      (low low' high : ℕ) (ds : List (DelegateHolder D))
      → low' ≤ low
      → Rising low high ds
      → Rising low' high ds
  Rising-mono low low' high [] h r = omega arith
  Rising-mono low low' high (d ∷ ds) h r = (omega arith, r.1)

  Rising-append :
      (low high : ℕ) (ds : List (DelegateHolder D)) (d : DelegateHolder D)
      → Rising low high ds
      → d.object ≡ suc high
      → Rising low (suc high) (ds ++ (d ∷ []))
  Rising-append low high [] d r e = (omega arith, omega arith)
  Rising-append low high (x ∷ ds) d r e = (r.0, Rising-append x.object high ds d r.1 e)

  remove-Rising :
      (evh low high : ℕ) (ds : List (DelegateHolder D))
      → Rising low high ds
      → Rising low high (remove_delegates evh ds)
  unfolding remove_delegates
  remove-Rising evh low high [] r = r
  remove-Rising evh low high (d ∷ ds) r = ground (
    arith,
    remove-Rising evh d.object high ds r.1,
    Rising-mono d.object low high (remove_delegates evh ds),
  )

  bind_fresh :
      (e : SpecEvent D)
      → e.next_available_id + 1 < 2 ^ 32
      → (e.next_available_id + 1) % 2 ^ 32 ≡ suc e.next_available_id
  bind_fresh e h = omega arith

  -- Subscribing, while the counter has not run through all 32 bits, keeps the handles of an event
  -- above 0, distinct and at most the counter.
  pub bind-IsValid :
      (fn : D) (e : SpecEvent D)
      → e.next_available_id + 1 < 2 ^ 32
      → IsValid e
      → IsValid (bind fn e).0
  unfolding bind
  bind-IsValid fn e small v =
      rw (bind_fresh e small) (Rising-append 0 e.next_available_id e.delegates _ v refl)

  pub unbind-IsValid : (evh : ℕ) (e : SpecEvent D) → IsValid e → IsValid (unbind evh e)
  unfolding unbind
  unbind-IsValid evh e v = remove-Rising evh 0 e.next_available_id e.delegates v

  remove-above :
      (evh low high : ℕ) (ds : List (DelegateHolder D))
      → Rising low high ds
      → high < evh
      → remove_delegates evh ds ≡ ds
  unfolding remove_delegates
  remove-above evh low high [] r h = refl
  remove-above evh low high (d ∷ ds) r h =
      ground (arith, remove-above evh d.object high ds r.1 h, below d.object ds r.1)
    where
      below : (l : ℕ) (xs : List (DelegateHolder D)) → Rising l high xs → l ≤ high
      below l [] q = q
      below l (x ∷ xs) q = omega (arith, below x.object xs q.1)

  remove-append :
      (evh : ℕ) (ds es : List (DelegateHolder D))
      → remove_delegates evh (ds ++ es) ≡ remove_delegates evh ds ++ remove_delegates evh es
  unfolding remove_delegates
  remove-append evh [] es = refl
  remove-append evh (d ∷ ds) es = ground (arith, remove-append evh ds es)

  remove_self :
      (evh : ℕ) (fn : D) → remove_delegates evh (record { delegate = fn; object = evh } ∷ []) ≡ []
  unfolding remove_delegates
  remove_self evh fn = ground arith

  -- Unbinding the handle that `bind` has just returned leaves the delegates that were there before.
  pub unbind-bind :
      (fn : D) (e : SpecEvent D)
      → e.next_available_id + 1 < 2 ^ 32
      → IsValid e
      → (unbind (bind fn e).1 (bind fn e).0).delegates ≡ e.delegates
  unfolding bind unbind
  unbind-bind fn e small v = rw (bind_fresh e small) (
      rw
        (
          remove-append (suc e.next_available_id) e.delegates,
          remove-above (suc e.next_available_id) 0 e.next_available_id e.delegates v (omega arith),
          remove_self (suc e.next_available_id) fn,
        )
        (append-nil e.delegates))

  -- The tasks of a call, numbered from a future on: the one at an index runs on what is left of the
  -- arguments after that many delegates.
  unfoldable pub numbered {κ μ} :
      {R : Type κ} {A : Type μ}
      → (apply : D → A → Option R) (moved : A → A) → A
      → (future index : ℕ) → List (DelegateHolder D)
      → List (ℕ × Option R)
  numbered apply moved args future index [] = []
  numbered apply moved args future index (d ∷ ds) =
      (future, apply d.delegate (forwarded moved index args))
      ∷ numbered apply moved args (suc future) (suc index) ds

  unfoldable pub numbers : ℕ → List (DelegateHolder D) → List ℕ
  numbers n [] = []
  numbers n (d ∷ ds) = n ∷ numbers (suc n) ds

  module _ {κ μ} {R : Type κ} {A : Type μ} (apply : D → A → Option R) (moved : A → A) where
    posted-submit_all :
        (args : A) (index : ℕ) (ds : List (DelegateHolder D)) (p : ThreadPool R)
        → (submit_all apply moved (forwarded moved index args) ds p).0.posted
          ≡ p.posted ++ numbered apply moved args p.submitted index ds
    unfolding submit_all submit count_up post numbered
    posted-submit_all args index [] p = sym (append-nil p.posted)
    posted-submit_all args index (d ∷ ds) p =
        let task = apply d.delegate (forwarded moved index args) in
        ap (λ a. (submit_all apply moved a ds (submit task p).0).0.posted)
          (forwarded-moved moved index args)
        ∙ posted-submit_all args (suc index) ds (submit task p).0
        ∙ append_assoc p.posted ((p.submitted, task) ∷ [])
            (numbered apply moved args (suc p.submitted) (suc index) ds)

    futures-submit_all :
        (args : A) (ds : List (DelegateHolder D)) (p : ThreadPool R)
        → (submit_all apply moved args ds p).1 ≡ numbers p.submitted ds
    unfolding submit_all submit count_up post numbers
    futures-submit_all args [] p = refl
    futures-submit_all args (d ∷ ds) p =
        ap (◌∷◌ p.submitted)
          (futures-submit_all (moved args) ds (submit (apply d.delegate args) p).0)

    -- A call posts one task for each delegate, in the order of the subscriptions, behind the tasks
    -- that wait already, and returns their futures in the same order. The first delegate runs on the
    -- arguments, and each later one on what forwarding them to all the delegates before it has left.
    pub call-numbered :
        (args : A) (e : SpecEvent D) (pool : ThreadPool R)
        → ((call apply moved args e pool).0.posted
            ≡ pool.posted ++ numbered apply moved args pool.submitted 0 e.delegates)
          × ((call apply moved args e pool).1 ≡ numbers pool.submitted e.delegates)
    unfolding call forwarded
    call-numbered args e pool =
        (posted-submit_all args 0 e.delegates pool, futures-submit_all args e.delegates pool)
