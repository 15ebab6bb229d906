-- ===== src/Tests/Cores.antt =====
-- A `Core` on a configuration.
use packaged_task.Base.Text.{codes}
use packaged_task.Base.{
  ◌-◌, ◌^◌, ◌==◌, if◌then◌else◌, false, map, ℕ, ◌≡◌, refl, find, List, length, ◌+◌, Option, [], ◌∷◌,
  ◌++◌, ◌&&◌, leb, Bool, some, arith,
}
use packaged_task.ThreadPool.{create, submit}
use packaged_task.Event.{SpecEvent}
use packaged_task.Event.Delegates.{forwarded}
use packaged_task.Fs.Load.{file_system, get_file}
use packaged_task.Log.{SeverityLevel, LogState, level, put, error_text}
use packaged_task.Core.{
  root_path_relative, severity_level_filter, logging_output, logging_file_name, Config, Core,
  Platform, construct, add_functor, raise_core_event,
}
use packaged_task.Core.Start.{in_file, on_console, least_level, construct_lem}
use packaged_task.Core.Events.{raise-add_functor}
use packaged_task.Tests.Loads.{text_disk, text_entry, text_disk_opens}
use packaged_task.Tests.Archives.{stores}
use packaged_task.Tests.Logs.{core, before_start, before_start-IsOwned, lower}

-- `FILE` in capital letters.
abbrev capital_file : List ℕ
capital_file = codes "FILE"

abbrev settings : Config
settings root_path_relative = some (114 ∷ [])
settings severity_level_filter = some error_text
settings logging_output = some capital_file
settings logging_file_name = some (108 ∷ [])

abbrev here : Platform
here = record {
  host = text_disk;
  tree = λ p. some (text_entry ∷ []);
  to_lower = lower;
  num_cores = 4;
}

construct_lem_example :
    (c : Core ℕ ℕ) × (g' : LogState (ℕ → Bool)) × (construct core here (some settings) before_start
      ≡ some (c, g'))
    × (get_file text_disk stores c.file_system (97 ∷ [])
        ≡ some (record {
          name = 97 ∷ [];
          file_size = 3;
          data_bytes = 1 ∷ 2 ∷ 3 ∷ [];
          last_write_time = 5;
        }))
    × (c.thread_pool.threads ≡ (if 4 == 0 then 2 ^ 32 - 1 else if 4 == 1 then 1 else 4 - 1))
    × (c.thread_pool.stopped ≡ false)
    × (c.thread_pool.num_tasks ≡ 0)
    × (c.event_system ≡ [])
    × ((sl : SeverityLevel)
        → put core g' sl ≡ (
          in_file (map lower capital_file) && leb (least_level (map lower error_text)) (level sl),
          on_console (map lower capital_file)
              && leb (least_level (map lower error_text)) (level sl),
        ))
construct_lem_example =
    construct_lem core here settings before_start stores (114 ∷ []) error_text capital_file
      (108 ∷ []) (97 ∷ []) (1 ∷ 2 ∷ 3 ∷ []) [] text_entry [] refl refl refl refl (omega arith)
      (omega arith) before_start-IsOwned (omega arith) refl (omega arith) refl refl refl
      text_disk_opens

abbrev one_delegate : SpecEvent ℕ
one_delegate = record {
  delegates = record { delegate = 7; object = 1 } ∷ [];
  next_available_id = 1;
}

-- A delegate that adds the length of its argument, which is moved by the first.
abbrev add_first : ℕ → List ℕ → Option ℕ
add_first n bytes = some (n + length bytes)

abbrev emptied : List ℕ → List ℕ
emptied bytes = []

abbrev small_core : Core ℕ ℕ
small_core = record {
  root_config = settings;
  thread_pool = create 2;
  event_system = (5, one_delegate) ∷ [];
  file_system = file_system text_disk (114 ∷ []) (some []);
}

raise-add_functor_example :
    ((raise_core_event 5 add_first emptied (6 ∷ []) (add_functor 5 42 small_core).0).0.thread_pool
      ≡ (submit
          (add_first 42 [])
          (raise_core_event 5 add_first emptied (6 ∷ []) small_core).0.thread_pool).0)
    × ((raise_core_event 5 add_first emptied (6 ∷ []) (add_functor 5 42 small_core).0).1
        ≡ (raise_core_event 5 add_first emptied (6 ∷ []) small_core).1
          ++ ((submit
                (add_first 42 [])
                (raise_core_event 5 add_first emptied (6 ∷ []) small_core).0.thread_pool).1
              ∷ []))
unfolding find forwarded
raise-add_functor_example =
    raise-add_functor add_first emptied 5 42 (6 ∷ []) small_core one_delegate refl
