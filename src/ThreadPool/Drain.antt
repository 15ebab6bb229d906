-- ===== src/ThreadPool/Drain.antt =====
-- Runs in which the workers finish what they have begun, and what waits.
use packaged_task.Base.{
  ℕ, ◌+◌, ◌^◌, ◌<◌, ◌≡◌, refl, ap, ◌∙◌, List, [], ◌∷◌, ◌++◌, length, true, false, Option, arith,
  ◌⊎◌, inl, inr,
}
use packaged_task.ThreadPool.{
  ThreadPool, create, count_up, post, count_done, stop, Step, counts, posts, takes, ends, sets,
  stops, exits, joined, Reach, here, next, Reach-trans,
}
use packaged_task.ThreadPool.Count.{weigh, weigh_from, threw, tasks, Reach-IsCounted}

module _ {ℓ} {R : Type ℓ} where
  -- The threads of a pool that is not stopped are inside `run()`.
  threads_stay :
      (pool_size : ℕ) {q : ThreadPool R}
      → Reach (create pool_size) q
      → (q.stopped ≡ true) ⊎ ((q.exited ≡ 0) × (q.threads ≡ pool_size))
  unfolding create count_up post stop
  threads_stay pool_size here = inr (refl, refl)
  threads_stay pool_size (next r s) = still s (threads_stay pool_size r)
    where
      still :
          {p q : ThreadPool R}
          → Step p q
          → (p.stopped ≡ true) ⊎ ((p.exited ≡ 0) × (p.threads ≡ pool_size))
          → (q.stopped ≡ true) ⊎ ((q.exited ≡ 0) × (q.threads ≡ pool_size))
      still (counts p task _) v = v
      still (posts p before task after _) v = v
      still (takes p t rest _ _ _) v = v
      still (ends p before t after _) v = v
      still (sets p before t after _) v = v
      still (stops p _) v = inl refl
      still (exits p closed _) v = inl closed
      still (joined p _ _) v = v

  module _ (weight : ℕ × Option R → ℕ) where
    -- The weight of what the workers have begun.
    abbrev pub begun : ThreadPool R → ℕ
    begun p = weigh weight p.running + weigh weight p.ending + weigh weight p.futures

    -- A pool in which everything that was begun in `p` has its result, and what it keeps of `p`.
    pub record IsFinished (p q : ThreadPool R) : Type ℓ where
      pub none_running : q.running ≡ []
      pub none_ending : q.ending ≡ []
      pub same_posted : q.posted ≡ p.posted
      pub same_submitting : q.submitting ≡ p.submitting
      pub same_submitted : q.submitted ≡ p.submitted
      pub same_threads : q.threads ≡ p.threads
      pub same_exited : q.exited ≡ p.exited
      pub same_stopped : q.stopped ≡ p.stopped
      pub same_phase : q.phase ≡ p.phase
      pub kept : weigh weight q.futures ≡ begun p

    carry :
        (p q : ThreadPool R) (running ending futures : List (ℕ × Option R)) (num_tasks : ℕ)
        → weigh weight running + weigh weight ending + weigh weight futures ≡ begun p
        → IsFinished
            (record p {
              running = running;
              ending = ending;
              futures = futures;
              num_tasks = num_tasks;
            })
            q
        → IsFinished p q
    carry p q running ending futures num_tasks e d = record {
      none_running = d.none_running;
      none_ending = d.none_ending;
      same_posted = d.same_posted;
      same_submitting = d.same_submitting;
      same_submitted = d.same_submitted;
      same_threads = d.same_threads;
      same_exited = d.same_exited;
      same_stopped = d.same_stopped;
      same_phase = d.same_phase;
      kept = d.kept ∙ e;
    }

    -- The oldest running task ends and its future is set.
    abbrev over : (p : ThreadPool R) (t : ℕ × Option R) → List (ℕ × Option R) → ThreadPool R
    over p t rest = record p {
      running = rest;
      futures = t ∷ p.futures;
      num_tasks = count_done t.1 p.num_tasks;
    }

    over-Reach :
        (p : ThreadPool R) (t : ℕ × Option R) (rest : List (ℕ × Option R))
        → p.running ≡ t ∷ rest
        → Reach p (over p t rest)
    over-Reach p t rest e = next (next here (ends p [] t rest e)) (sets _ [] t p.ending refl)

    pub finish_all :
        (running ending : List (ℕ × Option R)) (p : ThreadPool R)
        → p.running ≡ running
        → p.ending ≡ ending
        → (q : ThreadPool R) × Reach p q × IsFinished p q
    unfolding weigh
    finish_all [] [] p e₁ e₂ = (
      p,
      here,
      record {
        none_running = e₁;
        none_ending = e₂;
        same_posted = refl;
        same_submitting = refl;
        same_submitted = refl;
        same_threads = refl;
        same_exited = refl;
        same_stopped = refl;
        same_phase = refl;
        kept = omega (arith, ap (weigh weight) e₁, ap (weigh weight) e₂);
      },
    )
    finish_all running (t ∷ rest) p e₁ e₂ =
        let p' = record p { ending = rest; futures = t ∷ p.futures } in
        let (q, reach, d) = finish_all running rest p' e₁ refl in
        (
          q,
          Reach-trans (next here (sets p [] t rest e₂)) reach,
          carry p q p.running rest (t ∷ p.futures) p.num_tasks (omega (arith, ap (weigh weight) e₂))
              d,
        )
    finish_all (t ∷ rest) [] p e₁ e₂ =
        let (q, reach, d) = finish_all rest [] (over p t rest) refl e₂ in
        (
          q,
          Reach-trans (over-Reach p t rest e₁) reach,
          carry p q rest p.ending (t ∷ p.futures) (count_done t.1 p.num_tasks)
              (omega (arith, ap (weigh weight) e₁)) d,
        )

    -- A pool that has run until nothing is left of what was posted in `p`.
    pub record IsDrained (p q : ThreadPool R) : Type ℓ where
      pub none_posted : q.posted ≡ []
      pub none_running : q.running ≡ []
      pub none_ending : q.ending ≡ []
      pub same_submitting : q.submitting ≡ p.submitting
      pub same_submitted : q.submitted ≡ p.submitted
      pub kept : weigh weight q.futures ≡ weigh weight p.posted + weigh weight p.futures

    drain_from :
        (posted : List (ℕ × Option R)) (p : ThreadPool R)
        → p.posted ≡ posted
        → p.running ≡ []
        → p.ending ≡ []
        → p.stopped ≡ false
        → p.exited < p.threads
        → (q : ThreadPool R) × Reach p q × IsDrained p q
    unfolding weigh
    drain_from [] p e₁ e₂ e₃ open' free = (
      p,
      here,
      record {
        none_posted = e₁;
        none_running = e₂;
        none_ending = e₃;
        same_submitting = refl;
        same_submitted = refl;
        kept = omega (arith, ap (weigh weight) e₁);
      },
    )
    drain_from (t ∷ rest) p e₁ e₂ e₃ open' free =
        let taken = record p { posted = rest; running = p.running ++ (t ∷ []) } in
        let one : taken.running ≡ t ∷ [] = ap (λ r. r ++ (t ∷ [])) e₂ in
        let idle : length p.running + length p.ending + p.exited < p.threads =
          omega (arith, free, ap length e₂, ap length e₃) in
        let (q, reach, d) = drain_from rest (over taken t []) refl refl e₃ open' free in
        (
          q,
          Reach-trans (next here (takes p t rest open' e₁ idle))
              (Reach-trans (over-Reach taken t [] one) reach),
          record {
            none_posted = d.none_posted;
            none_running = d.none_running;
            none_ending = d.none_ending;
            same_submitting = d.same_submitting;
            same_submitted = d.same_submitted;
            kept = omega (arith, d.kept, ap (weigh weight) e₁);
          },
        )

    -- Every state that clients and workers reach, of a pool that has a thread and is not stopped, can
    -- run on until no task waits, runs or is ending. Then the results are those of all tasks posted,
    -- each once, with its own outcome and under the number of tasks posted before it: any weight of
    -- numbers and outcomes adds up to the same over both. And the counter is the number of the
    -- results that are exceptions and of the calls of `submit` that have counted and not yet posted.
    -- There must be fewer than 2 ^ 64 calls.
    pub drain :
        (pool_size : ℕ) {p : ThreadPool R} (r : Reach (create pool_size) p)
        → p.stopped ≡ false
        → 0 < pool_size
        → length p.submitting + p.submitted < 2 ^ 64
        → (q : ThreadPool R) × Reach p q
          × (q.posted ≡ [])
          × (q.running ≡ [])
          × (q.ending ≡ [])
          × (weigh weight q.futures ≡ weigh_from weight 0 (tasks r))
          × (q.num_tasks ≡ length p.submitting + weigh threw q.futures)
    unfolding weigh
    drain pool_size {p} r open' some_thread small =
        let (m, on, f) = finish_all p.running p.ending p refl refl in
        let room : m.exited < m.threads = free (threads_stay pool_size r) f in
        let (q, further, d) =
          drain_from m.posted m refl f.none_running f.none_ending (f.same_stopped ∙ open') room in
        let before = Reach-IsCounted weight pool_size r small in
        let reach = Reach-trans on further in
        let after = Reach-IsCounted weight pool_size (Reach-trans r reach) (
          omega (
            arith,
            small,
            ap length d.same_submitting,
            ap length f.same_submitting,
            d.same_submitted,
            f.same_submitted,
          )) in
        (
          q,
          reach,
          d.none_posted,
          d.none_running,
          d.none_ending,
          omega (arith, d.kept, f.kept, ap (weigh weight) f.same_posted, before.whole),
          omega (
            arith,
            after.counted,
            ap length d.none_posted,
            ap length d.none_running,
            ap (weigh threw) d.none_ending,
            ap length d.same_submitting,
            ap length f.same_submitting,
          ),
        )
      where
        free :
            {m : ThreadPool R}
            → (p.stopped ≡ true) ⊎ ((p.exited ≡ 0) × (p.threads ≡ pool_size))
            → IsFinished p m
            → m.exited < m.threads
        free (inl closed) f = absurd (ground (arith, closed, open'))
        free (inr (inside, size)) f =
            omega (arith, f.same_exited, f.same_threads, inside, size, some_thread)
