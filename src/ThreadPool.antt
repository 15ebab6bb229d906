-- ===== src/ThreadPool.antt =====
-- src/core/threadpool.h: `submit`, `wrap_task` and the workers. boost's `io_service` is a queue of
-- handlers, from which a free thread inside `run()` takes the oldest, until `stop()`. A task is given
-- by what its function does when it is run: the value that it returns, or `none` if it throws.
pub mod Count
pub mod Drain
pub mod Stop
use packaged_task.Base.{
  ℕ, zero, suc, ◌+◌, ◌-◌, ◌%◌, ◌^◌, List, [], ◌∷◌, ◌++◌, Option, none, some, Bool, true, false, ltb,
  length, ◌≡◌, ◌<◌, if◌then◌else◌,
}

-- `std::max<uint32_t>(1, num_cores - 1)`: the pool of the constructor without arguments.
unfoldable pub default_pool_size : (num_cores : ℕ) → ℕ
default_pool_size num_cores = let n = (num_cores + 2 ^ 32 - 1) % 2 ^ 32 in if ltb 1 n then n else 1

-- The destructor has not begun, waits for the threads, or has joined them all.
pub data Phase : Type 0 where
  alive joining destroyed : Phase

-- `submitting` are the tasks of clients that are inside `submit`, counted and not yet posted.
-- `posted` is the queue of the `io_service`, oldest first; `running` are the tasks that a worker is
-- inside `wrap_task` of, each with the number of its future, and `ending` those whose `wrap_task` is
-- over and whose future is not set yet; `futures` are the outcomes that are ready. A task's future
-- has the number of tasks posted before it. `exited` counts the threads that have left `run()`.
pub record ThreadPool {ℓ} (R : Type ℓ) : Type ℓ where
  pub threads : ℕ
  pub phase : Phase
  pub stopped : Bool
  pub submitting : List (Option R)
  pub posted : List (ℕ × Option R)
  pub running : List (ℕ × Option R)
  pub ending : List (ℕ × Option R)
  pub futures : List (ℕ × Option R)
  pub submitted : ℕ
  pub num_tasks : ℕ
  pub exited : ℕ

module _ {ℓ} {R : Type ℓ} where
  -- `ThreadPool(std::size_t pool_size)`, when its threads have entered `run()`.
  unfoldable pub create : (pool_size : ℕ) → ThreadPool R
  create pool_size = record {
    threads = pool_size;
    phase = alive;
    stopped = false;
    submitting = [];
    posted = [];
    running = [];
    ending = [];
    futures = [];
    submitted = 0;
    num_tasks = 0;
    exited = 0;
  }

  -- `++m_num_tasks` of `submit`, on a `size_t`.
  unfoldable pub count_up : ThreadPool R → ThreadPool R
  count_up p = record p { num_tasks = (p.num_tasks + 1) % 2 ^ 64 }

  -- `m_io_serv.post` of `submit`.
  unfoldable pub post : Option R → ThreadPool R → ThreadPool R
  post task p = record p {
    posted = p.posted ++ ((p.submitted, task) ∷ []);
    submitted = suc p.submitted;
  }

  -- `submit`, as its caller sees it: the new pool and the number of the future.
  unfoldable pub submit : Option R → ThreadPool R → ThreadPool R × ℕ
  submit task p = (post task (count_up p), p.submitted)

  -- The end of `wrap_task`: `--m_num_tasks` is skipped by an exception, which the `packaged_task`
  -- stores in the future.
  unfoldable pub count_done : Option R → ℕ → ℕ
  count_done none num_tasks = num_tasks
  count_done (some r) num_tasks = (num_tasks + 2 ^ 64 - 1) % 2 ^ 64

  -- `m_io_serv.stop()` of the destructor, behind which it joins the threads.
  unfoldable pub stop : ThreadPool R → ThreadPool R
  stop p = record p { stopped = true; phase = joining }

  -- What clients, workers and the owner may do next. As boost documents it, `run()` hands the queue
  -- out in order to threads that are free, until `stop()`, after which they leave it.
  pub data Step : ThreadPool R → ThreadPool R → Type ℓ where
    counts :
        (p : ThreadPool R) (task : Option R)
        → p.phase ≡ alive
        → Step p (record (count_up p) { submitting = p.submitting ++ (task ∷ []) })
    posts :
        (p : ThreadPool R) (before : List (Option R)) (task : Option R) (after : List (Option R))
        → p.submitting ≡ before ++ (task ∷ after)
        → Step p (post task (record p { submitting = before ++ after }))
    takes :
        (p : ThreadPool R) (t : ℕ × Option R) (rest : List (ℕ × Option R))
        → p.stopped ≡ false
        → p.posted ≡ t ∷ rest
        → length p.running + length p.ending + p.exited < p.threads
        → Step p (record p { posted = rest; running = p.running ++ (t ∷ []) })
    ends :
        (p : ThreadPool R) (before : List (ℕ × Option R)) (t : ℕ × Option R)
        (after : List (ℕ × Option R))
        → p.running ≡ before ++ (t ∷ after)
        → Step p (record p {
          running = before ++ after;
          ending = t ∷ p.ending;
          num_tasks = count_done t.1 p.num_tasks;
        })
    sets :
        (p : ThreadPool R) (before : List (ℕ × Option R)) (t : ℕ × Option R)
        (after : List (ℕ × Option R))
        → p.ending ≡ before ++ (t ∷ after)
        → Step p (record p { ending = before ++ after; futures = t ∷ p.futures })
    stops : (p : ThreadPool R) → p.phase ≡ alive → Step p (stop p)
    exits :
        (p : ThreadPool R)
        → p.stopped ≡ true
        → length p.running + length p.ending + p.exited < p.threads
        → Step p (record p { exited = suc p.exited })
    -- The last `join` returns.
    joined :
        (p : ThreadPool R)
        → p.phase ≡ joining
        → p.exited ≡ p.threads
        → Step p (record p { phase = destroyed })

  pub data Reach (p : ThreadPool R) : ThreadPool R → Type ℓ where
    here : Reach p p
    next : {q r : ThreadPool R} → Reach p q → Step q r → Reach p r

  pub Reach-trans : {p q r : ThreadPool R} → Reach p q → Reach q r → Reach p r
  Reach-trans a here = a
  Reach-trans a (next b s) = next (Reach-trans a b) s
