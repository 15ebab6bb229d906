-- ===== src/ThreadPool/Count.antt =====
-- What `getNumTasks()` counts, and where each task is, in every interleaving of clients and workers.
use packaged_task.Base.{
  ℕ, suc, ◌+◌, ◌-◌, ◌==◌, if◌then◌else◌, ◌^◌, ◌≤◌, ◌<◌, ◌≡◌, List, [], ◌∷◌, ◌++◌, Option, none,
  some, length, length-append, arith, ap, refl, sym, subst, append-nil,
}
use packaged_task.ThreadPool.{
  ThreadPool, create, count_up, post, count_done, stop, Step, counts, posts, takes, ends, sets,
  stops, exits, joined, Reach, here, next, default_pool_size,
}

-- A machine with at least two cores gets one thread less than cores, and one with a single core one
-- thread. Where `hardware_concurrency()` answers 0, for unknown, the difference wraps, and the
-- constructor asks for 2 ^ 32 - 1 threads.
pub default_pool_size_lem :
    (num_cores : ℕ)
    → num_cores < 2 ^ 32
    → default_pool_size num_cores
      ≡ (if num_cores == 0 then 2 ^ 32 - 1 else if num_cores == 1 then 1 else num_cores - 1)
unfolding default_pool_size
default_pool_size_lem num_cores small = ground arith

module _ {ℓ} {R : Type ℓ} where
  -- The sum of a weight of the tasks.
  unfoldable pub weigh : (ℕ × Option R → ℕ) → List (ℕ × Option R) → ℕ
  weigh weight [] = 0
  weigh weight (t ∷ ts) = weight t + weigh weight ts

  weigh-append :
      (weight : ℕ × Option R → ℕ) (ts us : List (ℕ × Option R))
      → weigh weight (ts ++ us) ≡ weigh weight ts + weigh weight us
  unfolding weigh
  weigh-append weight [] us = omega arith
  weigh-append weight (t ∷ ts) us = omega (arith, weigh-append weight ts us)

  -- The same, of tasks that have the numbers from one on.
  unfoldable pub weigh_from : (ℕ × Option R → ℕ) → ℕ → List (Option R) → ℕ
  weigh_from weight n [] = 0
  weigh_from weight n (t ∷ ts) = weight (n, t) + weigh_from weight (suc n) ts

  weigh_from-append :
      (weight : ℕ × Option R → ℕ) (n m : ℕ) (ts : List (Option R)) (t : Option R)
      → m ≡ n + length ts
      → weigh_from weight n (ts ++ (t ∷ [])) ≡ weigh_from weight n ts + weight (m, t)
  unfolding weigh_from
  weigh_from-append weight n m [] t e =
      let same : m ≡ n = omega (arith, e) in omega (arith, ap (λ k. weight (k, t)) same)
  weigh_from-append weight n m (u ∷ ts) t e =
      omega (arith, weigh_from-append weight (suc n) m ts t (omega (arith, e)))

  -- The tasks that clients have posted, in order.
  posted_by : {p q : ThreadPool R} → Step p q → List (Option R)
  posted_by (counts p task _) = []
  posted_by (posts p before task after _) = task ∷ []
  posted_by (takes p t rest _ _ _) = []
  posted_by (ends p before t after _) = []
  posted_by (sets p before t after _) = []
  posted_by (stops p _) = []
  posted_by (exits p _ _) = []
  posted_by (joined p _ _) = []

  unfoldable pub tasks : {p q : ThreadPool R} → Reach p q → List (Option R)
  unfolding posted_by
  tasks here = []
  tasks (next r s) = tasks r ++ posted_by s

  -- Whether a task has thrown.
  unfoldable pub threw : ℕ × Option R → ℕ
  threw (n, none) = 1
  threw (n, some r) = 0

  pub record IsCounted (weight : ℕ × Option R → ℕ) (all : List (Option R)) (p : ThreadPool R)
      : Type 0 where
    pub counted :
        p.num_tasks
        ≡ length p.submitting
          + length p.posted
          + length p.running
          + weigh threw p.ending
          + weigh threw p.futures
    pub numbered : p.submitted ≡ length all
    pub total :
        p.submitted ≡ length p.posted + length p.running + length p.ending + length p.futures
    pub whole :
        weigh_from weight 0 all
        ≡ weigh weight p.posted
          + weigh weight p.running
          + weigh weight p.ending
          + weigh weight p.futures
    pub busy : length p.running + length p.ending + p.exited ≤ p.threads

  weigh-threw-le : (ts : List (ℕ × Option R)) → weigh threw ts ≤ length ts
  unfolding weigh threw
  weigh-threw-le [] = omega arith
  weigh-threw-le ((n, none) ∷ ts) = omega (arith, weigh-threw-le ts)
  weigh-threw-le ((n, some r) ∷ ts) = omega (arith, weigh-threw-le ts)

  -- The calls of `submit` so far.
  abbrev calls : ThreadPool R → ℕ
  calls p = length p.submitting + p.submitted

  calls_mono : {p q : ThreadPool R} → Step p q → calls p ≤ calls q
  unfolding count_up post stop
  calls_mono (counts p task _) = omega (arith, length-append p.submitting (task ∷ []))
  calls_mono (posts p before task after e) =
      omega (arith, ap length e, length-append before (task ∷ after), length-append before after)
  calls_mono (takes p t rest _ _ _) = omega arith
  calls_mono (ends p before t after _) = omega arith
  calls_mono (sets p before t after _) = omega arith
  calls_mono (stops p _) = omega arith
  calls_mono (exits p _ _) = omega arith
  calls_mono (joined p _ _) = omega arith

  module _ (weight : ℕ × Option R → ℕ) where
    -- Where a task stands in a list does not matter.
    pub middle :
        (w : ℕ × Option R → ℕ) (ts before after : List (ℕ × Option R)) (t : ℕ × Option R)
        → ts ≡ before ++ (t ∷ after)
        → (weigh w ts ≡ w t + weigh w (before ++ after))
          × (length ts ≡ suc (length (before ++ after)))
    unfolding weigh
    middle w ts before after t e = (
      omega (arith, ap (weigh w) e, weigh-append w before (t ∷ after), weigh-append w before after),
      omega (arith, ap length e, length-append before (t ∷ after), length-append before after),
    )

    same :
        (all : List (Option R)) (q : ThreadPool R)
        → IsCounted weight all q
        → IsCounted weight (all ++ []) q
    same all q v = subst (λ ts. IsCounted weight ts q) (sym (append-nil all)) v

    counts-IsCounted :
        (all : List (Option R)) (p : ThreadPool R) (task : Option R)
        → calls p + 1 < 2 ^ 64
        → IsCounted weight all p
        → IsCounted weight all (record (count_up p) { submitting = p.submitting ++ (task ∷ []) })
    unfolding count_up
    counts-IsCounted all p task small v = record {
      counted = omega (
        arith,
        v,
        weigh-threw-le p.ending,
        weigh-threw-le p.futures,
        length-append p.submitting (task ∷ []),
      );
      numbered = v.numbered;
      total = v.total;
      whole = v.whole;
      busy = v.busy;
    }

    posts-IsCounted :
        (all : List (Option R)) (p : ThreadPool R) (before : List (Option R)) (task : Option R)
        (after : List (Option R))
        → p.submitting ≡ before ++ (task ∷ after)
        → IsCounted weight all p
        → IsCounted weight
            (all ++ (task ∷ []))
            (post task (record p { submitting = before ++ after }))
    unfolding post weigh
    posts-IsCounted all p before task after e v =
        let long = length-append p.posted ((p.submitted, task) ∷ []) in
        record {
          counted = omega (
            arith,
            v.counted,
            long,
            ap length e,
            length-append before (task ∷ after),
            length-append before after,
          );
          numbered = omega (arith, v.numbered, length-append all (task ∷ []));
          total = omega (arith, v.total, long);
          whole = omega (
            arith,
            v.whole,
            weigh_from-append weight 0 p.submitted all task (omega (arith, v.numbered)),
            weigh-append weight p.posted ((p.submitted, task) ∷ []),
          );
          busy = v.busy;
        }

    takes-IsCounted :
        (all : List (Option R)) (p : ThreadPool R) (t : ℕ × Option R) (rest : List (ℕ × Option R))
        → p.posted ≡ t ∷ rest
        → length p.running + length p.ending + p.exited < p.threads
        → IsCounted weight all p
        → IsCounted weight all (record p { posted = rest; running = p.running ++ (t ∷ []) })
    unfolding weigh
    takes-IsCounted all p t rest e free v =
        let long = length-append p.running (t ∷ []) in
        record {
          counted = omega (arith, v.counted, ap length e, long);
          numbered = v.numbered;
          total = omega (arith, v.total, ap length e, long);
          whole =
              omega (arith, v.whole, ap (weigh weight) e, weigh-append weight p.running (t ∷ []));
          busy = omega (arith, free, long);
        }

    ends-IsCounted :
        (all : List (Option R)) (p : ThreadPool R) (before : List (ℕ × Option R)) (n : ℕ)
        (result : Option R) (after : List (ℕ × Option R))
        → calls p < 2 ^ 64
        → p.running ≡ before ++ ((n, result) ∷ after)
        → IsCounted weight all p
        → IsCounted weight all (record p {
          running = before ++ after;
          ending = (n, result) ∷ p.ending;
          num_tasks = count_done result p.num_tasks;
        })
    unfolding count_done weigh threw
    ends-IsCounted all p before n result after small e v =
        let (sum, long) = middle weight p.running before after (n, result) e in
        record {
          counted = less result long;
          numbered = v.numbered;
          total = omega (arith, v.total, long);
          whole = omega (arith, v.whole, sum);
          busy = omega (arith, v.busy, long);
        }
      where
        less :
            (r : Option R)
            → length p.running ≡ suc (length (before ++ after))
            → count_done r p.num_tasks
              ≡ length p.submitting
                + length p.posted
                + length (before ++ after)
                + (threw (n, r) + weigh threw p.ending)
                + weigh threw p.futures
        less none long = omega (arith, v.counted, long)
        less (some r) long =
            omega (arith, v, long, weigh-threw-le p.ending, weigh-threw-le p.futures, small)

    sets-IsCounted :
        (all : List (Option R)) (p : ThreadPool R) (before : List (ℕ × Option R)) (t : ℕ × Option R)
        (after : List (ℕ × Option R))
        → p.ending ≡ before ++ (t ∷ after)
        → IsCounted weight all p
        → IsCounted weight all (record p { ending = before ++ after; futures = t ∷ p.futures })
    unfolding weigh
    sets-IsCounted all p before t after e v =
        let (sum, long) = middle weight p.ending before after t e in
        let (thrown, _) = middle threw p.ending before after t e in
        record {
          counted = omega (arith, v.counted, thrown);
          numbered = v.numbered;
          total = omega (arith, v.total, long);
          whole = omega (arith, v.whole, sum);
          busy = omega (arith, v.busy, long);
        }

    Step-IsCounted :
        {p q : ThreadPool R} (all : List (Option R)) (s : Step p q)
        → calls q < 2 ^ 64
        → IsCounted weight all p
        → IsCounted weight (all ++ posted_by s) q
    unfolding posted_by count_up stop
    Step-IsCounted {q = q} all (counts p task _) small v = same all q (
        counts-IsCounted all p task (omega (arith, small, length-append p.submitting (task ∷ [])))
          v)
    Step-IsCounted all (posts p before task after e) small v =
        posts-IsCounted all p before task after e v
    Step-IsCounted {q = q} all (takes p t rest _ e free) small v =
        same all q (takes-IsCounted all p t rest e free v)
    Step-IsCounted {q = q} all (ends p before (n, result) after e) small v =
        same all q (ends-IsCounted all p before n result after small e v)
    Step-IsCounted {q = q} all (sets p before t after e) small v =
        same all q (sets-IsCounted all p before t after e v)
    Step-IsCounted {q = q} all (stops p _) small v = same all q (record {
      counted = v.counted;
      numbered = v.numbered;
      total = v.total;
      whole = v.whole;
      busy = v.busy;
    })
    Step-IsCounted {q = q} all (exits p _ free) small v = same all q (record {
      counted = v.counted;
      numbered = v.numbered;
      total = v.total;
      whole = v.whole;
      busy = omega (arith, free);
    })
    Step-IsCounted {q = q} all (joined p _ _) small v = same all q (record {
      counted = v.counted;
      numbered = v.numbered;
      total = v.total;
      whole = v.whole;
      busy = v.busy;
    })

    -- In every state that clients, workers and the owner reach with fewer than 2 ^ 64 calls of
    -- `submit`, between any two of their actions: the counter is the number of tasks that are being
    -- submitted, wait or run and, beyond those, of the tasks that have thrown. The tasks that wait,
    -- run, are ending or have a result are those that were posted, each once, with its own outcome
    -- and under the number of tasks posted before it: any weight of numbers and outcomes adds up to
    -- the same over both. No more tasks run or are ending than there are threads.
    pub Reach-IsCounted :
        (pool_size : ℕ) {q : ThreadPool R} (r : Reach (create pool_size) q)
        → length q.submitting + q.submitted < 2 ^ 64
        → IsCounted weight (tasks r) q
    unfolding create tasks weigh weigh_from
    Reach-IsCounted pool_size here small = record {
      counted = refl;
      numbered = refl;
      total = refl;
      whole = refl;
      busy = omega arith;
    }
    Reach-IsCounted pool_size (next r s) small =
        Step-IsCounted (tasks r) s small
          (Reach-IsCounted pool_size r (omega (arith, calls_mono s, small)))
