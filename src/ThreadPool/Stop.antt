-- ===== src/ThreadPool/Stop.antt =====
-- The destructor (src/core/threadpool.h): `stop`, and then the joins, which wait for the tasks that
-- are running.
use packaged_task.Base.{
  ℕ, zero, suc, ◌+◌, ◌-◌, ◌≤◌, ◌≡◌, refl, ap, sym, ◌∙◌, List, [], ◌∷◌, ◌++◌, length, append_assoc,
  append-nil, true, Option, arith, ◌⊎◌, inl, inr,
}
use packaged_task.ThreadPool.{
  ThreadPool, joining, destroyed, count_up, post, stop, Step, counts, posts, takes, ends, sets,
  stops, exits, joined, Reach, here, next, Reach-trans,
}
use packaged_task.ThreadPool.Count.{weigh, middle}
use packaged_task.ThreadPool.Drain.{begun, IsFinished, finish_all}

module _ {ℓ} {R : Type ℓ} (weight : ℕ × Option R → ℕ) where
  -- No more threads are busy or have left than there are.
  abbrev pub IsManned : ThreadPool R → Type 0
  IsManned p = length p.running + length p.ending + p.exited ≤ p.threads

  -- What a pool keeps whose destructor has begun in `p`.
  record IsClosed (p q : ThreadPool R) : Type ℓ where
    stopped : q.stopped ≡ true
    phase : (q.phase ≡ joining) ⊎ (q.phase ≡ destroyed)
    fresh : List (ℕ × Option R)
    posted : q.posted ≡ p.posted ++ fresh
    manned : IsManned q
    kept : begun weight q ≡ begun weight p

  IsClosed-step : {p q r : ThreadPool R} → Step q r → IsClosed p q → IsClosed p r
  unfolding count_up post stop weigh
  IsClosed-step (counts q task _) v = record {
    stopped = v.stopped;
    phase = v.phase;
    fresh = v.fresh;
    posted = v.posted;
    manned = v.manned;
    kept = v.kept;
  }
  IsClosed-step {p} (posts q before task after e) v = record {
    stopped = v.stopped;
    phase = v.phase;
    fresh = v.fresh ++ ((q.submitted, task) ∷ []);
    posted =
        ap (λ waiting. waiting ++ ((q.submitted, task) ∷ [])) v.posted
        ∙ append_assoc p.posted v.fresh ((q.submitted, task) ∷ []);
    manned = v.manned;
    kept = v.kept;
  }
  IsClosed-step (takes q t rest open' _ _) v = absurd (ground (arith, open', v.stopped))
  IsClosed-step (ends q before t after e) v =
      let (sum, long) = middle weight weight q.running before after t e in
      record {
        stopped = v.stopped;
        phase = v.phase;
        fresh = v.fresh;
        posted = v.posted;
        manned = omega (arith, v.manned, long);
        kept = omega (arith, v.kept, sum);
      }
  IsClosed-step (sets q before t after e) v =
      let (sum, long) = middle weight weight q.ending before after t e in
      record {
        stopped = v.stopped;
        phase = v.phase;
        fresh = v.fresh;
        posted = v.posted;
        manned = omega (arith, v.manned, long);
        kept = omega (arith, v.kept, sum);
      }
  IsClosed-step (stops q _) v = record {
    stopped = refl;
    phase = inl refl;
    fresh = v.fresh;
    posted = v.posted;
    manned = v.manned;
    kept = v.kept;
  }
  IsClosed-step (exits q _ free) v = record {
    stopped = v.stopped;
    phase = v.phase;
    fresh = v.fresh;
    posted = v.posted;
    manned = omega (arith, free);
    kept = v.kept;
  }
  IsClosed-step (joined q _ _) v = record {
    stopped = v.stopped;
    phase = inr refl;
    fresh = v.fresh;
    posted = v.posted;
    manned = v.manned;
    kept = v.kept;
  }

  IsClosed-reach : {p q : ThreadPool R} → IsManned p → Reach (stop p) q → IsClosed p q
  unfolding stop
  IsClosed-reach {p} manned here = record {
    stopped = refl;
    phase = inl refl;
    fresh = [];
    posted = sym (append-nil p.posted);
    manned = manned;
    kept = refl;
  }
  IsClosed-reach manned (next r s) = IsClosed-step s (IsClosed-reach manned r)

  -- The threads leave `run()` one by one, and the last join returns.
  all_exit :
      (k : ℕ) (q : ThreadPool R)
      → q.stopped ≡ true
      → q.phase ≡ joining
      → q.running ≡ []
      → q.ending ≡ []
      → q.exited + k ≡ q.threads
      → (r : ThreadPool R) × Reach q r
        × (r.phase ≡ destroyed)
        × (r.running ≡ [])
        × (r.ending ≡ [])
        × (r.futures ≡ q.futures)
  all_exit zero q closed waits e₁ e₂ room =
      (_, next here (joined q waits (omega (arith, room))), refl, e₁, e₂, refl)
  all_exit (suc k) q closed waits e₁ e₂ room =
      let step = exits q closed (omega (arith, room, ap length e₁, ap length e₂)) in
      let (r, reach, over, none₁, none₂, same) =
        all_exit k (record q { exited = suc q.exited }) closed waits e₁ e₂ (omega (arith, room)) in
      (r, Reach-trans (next here step) reach, over, none₁, none₂, same)

  join_all :
      (p q : ThreadPool R)
      → IsClosed p q
      → (r : ThreadPool R) × Reach q r
        × (r.phase ≡ destroyed)
        × (r.running ≡ [])
        × (r.ending ≡ [])
        × (weigh weight r.futures ≡ begun weight p)
  join_all p q v =
      let (m, on, f) = finish_all weight q.running q.ending q refl refl in leave m on f v.phase
    where
      leave :
          (m : ThreadPool R)
          → Reach q m
          → IsFinished weight q m
          → (q.phase ≡ joining) ⊎ (q.phase ≡ destroyed)
          → (r : ThreadPool R) × Reach q r
            × (r.phase ≡ destroyed)
            × (r.running ≡ [])
            × (r.ending ≡ [])
            × (weigh weight r.futures ≡ begun weight p)
      leave m on f (inr gone) =
          (m, on, f.same_phase ∙ gone, f.none_running, f.none_ending, f.kept ∙ v.kept)
      leave m on f (inl waits) =
          let room : m.exited + (m.threads - m.exited) ≡ m.threads =
            omega (arith, v.manned, f.same_threads, f.same_exited) in
          let (r, further, over, none₁, none₂, same) =
            all_exit (m.threads - m.exited) m (f.same_stopped ∙ v.stopped) (f.same_phase ∙ waits)
              f.none_running f.none_ending room in
          (r, Reach-trans on further, over, none₁, none₂, ap (weigh weight) same ∙ f.kept ∙ v.kept)

  -- Whatever happens to a pool after the destructor's `stop`: no task that was waiting starts, since
  -- they go on waiting in front of those posted later, and the tasks that run, are ending or have a
  -- result stay the same, each with its number and outcome, as any weight of these shows. And from
  -- every such state the joins can come to their end, when nothing runs and the results are those of
  -- these tasks. No more threads are busy at the `stop` than there are.
  pub destructor_lem :
      (p q : ThreadPool R)
      → IsManned p
      → Reach (stop p) q
      → ((fresh : List (ℕ × Option R)) × (q.posted ≡ p.posted ++ fresh))
        × (begun weight q ≡ begun weight p)
        × ((r : ThreadPool R) × Reach q r
            × (r.phase ≡ destroyed)
            × (r.running ≡ [])
            × (r.ending ≡ [])
            × (weigh weight r.futures ≡ begun weight p))
  destructor_lem p q manned reach =
      let v = IsClosed-reach manned reach in ((v.fresh, v.posted), v.kept, join_all p q v)
