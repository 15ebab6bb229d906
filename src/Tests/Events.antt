-- ===== src/Tests/Events.antt =====
-- An event with one delegate, a pool, and a module.
use packaged_task.Base.{
  ◌+◌, ℕ, ◌≡◌, refl, List, [], length, ◌∷◌, ◌++◌, find, Option, none, some, false, arith, ◌==◌,
  if◌then◌else◌,
}
use packaged_task.ThreadPool.{
  ThreadPool, alive, destroyed, create, count_up, post, count_done, stop, counts, posts, takes,
  ends, sets, Reach, here, next,
}
use packaged_task.ThreadPool.Count.{weigh, weigh_from, tasks, threw, IsCounted, Reach-IsCounted}
use packaged_task.ThreadPool.Stop.{destructor_lem}
use packaged_task.ThreadPool.Drain.{begun, drain}
use packaged_task.Event.{
  SpecEvent, call, EventSystem, subscribe_to_event, un_subscribe_from_event, raise_event,
}
use packaged_task.Event.Delegates.{forwarded, numbered, numbers, call-numbered}
use packaged_task.Event.Subscriptions.{subscribe_unsubscribe}
use packaged_task.Lifecycle.{initial, instance_of, started}
use packaged_task.Lifecycle.Once.{
  Call, starts, shuts, run, never, phase_run, concrete, phase_instance, is_up, run-phase_run,
  instance_of-run,
}

-- One thread runs a task that throws.
abbrev posted_one : ThreadPool ℕ
posted_one = record {
  threads = 1;
  phase = alive;
  stopped = false;
  submitting = [];
  posted = (0, none) ∷ [];
  running = [];
  ending = [];
  futures = [];
  submitted = 1;
  num_tasks = 1;
  exited = 0;
}

abbrev counted_one : ThreadPool ℕ
counted_one = record posted_one { submitting = none ∷ []; posted = []; submitted = 0 }

abbrev running_one : ThreadPool ℕ
running_one = record posted_one { posted = []; running = (0, none) ∷ [] }

abbrev thrown_one : ThreadPool ℕ
thrown_one = record posted_one { posted = []; futures = (0, none) ∷ [] }

posted_one-Reach : Reach (create {R = ℕ} 1) posted_one
unfolding create count_up post
posted_one-Reach =
    next (next here (counts (create 1) none refl)) (posts counted_one [] none [] refl)

thrown_one-Reach : Reach (create {R = ℕ} 1) thrown_one
unfolding count_done
thrown_one-Reach =
    next
      (next (next posted_one-Reach (takes posted_one (0, none) [] refl refl (omega arith)))
        (ends running_one [] (0, none) [] refl))
      (sets (record running_one { running = []; ending = (0, none) ∷ [] }) [] (0, none) [] refl)

-- One for each task whose future has number 0.
abbrev is_first : ℕ × Option ℕ → ℕ
is_first t = if t.0 == 0 then 1 else 0

Reach-IsCounted_example : IsCounted is_first (tasks thrown_one-Reach) thrown_one
Reach-IsCounted_example = Reach-IsCounted is_first 1 thrown_one-Reach (omega arith)

drain_example :
    (q : ThreadPool ℕ) × Reach posted_one q
    × (q.posted ≡ [])
    × (q.running ≡ [])
    × (q.ending ≡ [])
    × (weigh is_first q.futures ≡ weigh_from is_first 0 (tasks posted_one-Reach))
    × (q.num_tasks ≡ length posted_one.submitting + weigh threw q.futures)
drain_example = drain is_first 1 posted_one-Reach refl (omega arith) (omega arith)

-- A pool that is destroyed while a task runs and another waits.
abbrev closing : ThreadPool ℕ
closing = record running_one { posted = (1, some 8) ∷ []; submitted = 2 }

destructor_lem_example :
    ((fresh : List (ℕ × Option ℕ)) × ((stop closing).posted ≡ ((1, some 8) ∷ []) ++ fresh))
    × (begun is_first (stop closing) ≡ begun is_first closing)
    × ((r : ThreadPool ℕ) × Reach (stop closing) r
        × (r.phase ≡ destroyed)
        × (r.running ≡ [])
        × (r.ending ≡ [])
        × (weigh is_first r.futures ≡ begun is_first closing))
destructor_lem_example = destructor_lem is_first closing (stop closing) (omega arith) here

abbrev one_delegate : SpecEvent ℕ
one_delegate = record {
  delegates = record { delegate = 7; object = 2 } ∷ [];
  next_available_id = 2;
}

abbrev answer : ℕ → Option ℕ
answer n = some n

-- A delegate that adds the length of its argument, which is a moved-from, empty list behind the first.
abbrev add_length : ℕ → List ℕ → Option ℕ
add_length n bytes = some (n + length bytes)

abbrev emptied : List ℕ → List ℕ
emptied bytes = []

abbrev two_delegates : SpecEvent ℕ
two_delegates = record {
  delegates = record { delegate = 7; object = 2 } ∷ record { delegate = 9; object = 4 } ∷ [];
  next_available_id = 4;
}

call-numbered_example :
    ((call add_length emptied (5 ∷ 6 ∷ []) two_delegates posted_one).0.posted
      ≡ ((0, none) ∷ []) ++ numbered add_length emptied (5 ∷ 6 ∷ []) 1 0 two_delegates.delegates)
    × ((call add_length emptied (5 ∷ 6 ∷ []) two_delegates posted_one).1
        ≡ numbers 1 two_delegates.delegates)
call-numbered_example = call-numbered add_length emptied (5 ∷ 6 ∷ []) two_delegates posted_one

-- Only the first delegate runs on the argument.
two_tasks :
    numbered add_length emptied (5 ∷ 6 ∷ []) 1 0 two_delegates.delegates
    ≡ (1, some 9) ∷ (2, some 9) ∷ []
unfolding numbered forwarded
two_tasks = refl

abbrev one_event : EventSystem ℕ
one_event = (40, one_delegate) ∷ []

no_event : find 41 one_event ≡ none
unfolding find
no_event = refl

the_event : find 40 one_event ≡ some one_delegate
unfolding find
the_event = refl

subscribe_unsubscribe_example :
    raise_event 40 add_length emptied
      (5 ∷ [])
      (un_subscribe_from_event 40
        (subscribe_to_event 40 8 one_event).1
        (subscribe_to_event 40 8 one_event).0)
      posted_one
    ≡ raise_event 40 add_length emptied (5 ∷ []) one_event posted_one
subscribe_unsubscribe_example =
    subscribe_unsubscribe add_length emptied (5 ∷ []) 40 40 8 one_event one_delegate posted_one
      the_event (omega arith, omega arith) (omega arith)

-- Started, started again, and shut down.
abbrev calls : List (Call ℕ)
calls = starts (some 3) answer ∷ starts (some 4) answer ∷ shuts answer ∷ []

run-phase_run_example :
    run initial calls ≡ (concrete (phase_run never calls).0, (phase_run never calls).1)
run-phase_run_example = run-phase_run calls

instance_of-run_example :
    (instance_of (run initial calls).0 ≡ phase_instance (phase_run never calls).0)
    × (started (run initial calls).0 ≡ is_up (phase_run never calls).0)
instance_of-run_example = instance_of-run calls
