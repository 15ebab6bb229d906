-- ===== src/Core.antt =====
-- `Core` (src/core/core.h, src/core/core.cpp): the pool, the events, the file system and the log, put
-- together by the configuration. `D` is the type of the delegates and `R` that of their results.
pub mod Start
pub mod Events
use packaged_task.Base.{ℕ, List, [], length, Bool, ◌==◌, Option, none, some, if◌then◌else◌}
use packaged_task.ThreadPool.{ThreadPool, default_pool_size, create}
use packaged_task.Event.{
  EventSystem, register_event, subscribe_to_event, un_subscribe_from_event, raise_event,
}
use packaged_task.Fs.Load.{Host, FileSystem, Entry, file_system}
use packaged_task.Log.{
  LogCore, LogState, init_boost_log, set_severity_filter, convert_str_to_severity,
  convert_str_to_output,
}

-- The paths in the property tree that are asked for.
pub data Setting : Type 0 where
  root_path_relative severity_level_filter logging_output logging_file_name : Setting

-- `m_root_config.get<std::string>`; `none` is the exception for a path that is not there.
abbrev pub Config : Type 0
Config = Setting → Option (List ℕ)

pub record Core (D R : Type 0) : Type 0 where
  pub root_config : Config
  pub thread_pool : ThreadPool R
  pub event_system : EventSystem D
  pub file_system : FileSystem

-- What the constructor finds: the disk, what the directory iterator yields below a path, `tolower`
-- and the number of cores.
pub record Platform : Type 0 where
  pub host : Host
  pub tree : List ℕ → Option (List Entry)
  pub to_lower : ℕ → ℕ
  pub num_cores : ℕ

-- The members when all four are there.
unfoldable pub put_together : {D R : Type 0} → Platform → Config → (root : List ℕ) → Core D R
put_together here config root = record {
  root_config = config;
  thread_pool = create (default_pool_size here.num_cores);
  event_system = [];
  file_system = file_system here.host root (here.tree root);
}

module _ {C : Type 0} (ops : LogCore C) where
  unfoldable pub filter_log :
      (severity : List ℕ) → Platform → Option (LogState C) → Option (LogState C)
  filter_log severity here none = none
  filter_log severity here (some g) =
      set_severity_filter ops (convert_str_to_severity here.to_lower severity) g

  -- The log's part of the constructor.
  unfoldable pub start_log :
      (severity output name : Option (List ℕ)) → Platform → LogState C → Option (LogState C)
  start_log none output name here g = none
  start_log (some severity) none name here g = none
  start_log (some severity) (some output) none here g = none
  start_log (some severity) (some output) (some name) here g =
      filter_log severity here
        (init_boost_log ops name (convert_str_to_output here.to_lower output) g)

  unfoldable pub with_log :
      {D R : Type 0} → Core D R → Option (LogState C) → Option (Core D R × LogState C)
  with_log c none = none
  with_log c (some g) = some (c, g)

  -- The constructor behind the reading of the root path, which the file system asserts to be there.
  unfoldable pub build :
      {D R : Type 0}
      → Platform
      → Config
      → (root : Option (List ℕ)) → LogState C
      → Option (Core D R × LogState C)
  build here config none g = none
  build here config (some root) g =
      let log =
        start_log (config severity_level_filter) (config logging_output) (config logging_file_name)
          here g in
      if length root == 0 then none else with_log (put_together here config root) log

  -- `Core()`: `none` is an exception or a failed assertion; `read_json` gives the property tree, or
  -- an exception.
  unfoldable pub construct :
      {D R : Type 0}
      → Platform
      → (read_json : Option Config) → LogState C
      → Option (Core D R × LogState C)
  construct here none g = none
  construct here (some config) g = build here config (config root_path_relative) g

module _ {D R : Type 0} where
  unfoldable pub register_core_event : (event_hash : ℕ) → Core D R → Core D R
  register_core_event event_hash c = record c {
    event_system = register_event event_hash c.event_system;
  }

  unfoldable pub add_functor : (event_hash : ℕ) → D → Core D R → Core D R × ℕ
  add_functor event_hash fn c =
      let (events, evh) = subscribe_to_event event_hash fn c.event_system in
      (record c { event_system = events }, evh)

  unfoldable pub remove_functor : (event_hash evh : ℕ) → Core D R → Core D R
  remove_functor event_hash evh c = record c {
    event_system = un_subscribe_from_event event_hash evh c.event_system;
  }

  unfoldable pub raise_core_event :
      {A : Type 0}
      → (event_hash : ℕ) (apply : D → A → Option R) (moved : A → A) → A
      → Core D R
      → Core D R × List ℕ
  raise_core_event event_hash apply moved args c =
      let (pool, futures) = raise_event event_hash apply moved args c.event_system c.thread_pool in
      (record c { thread_pool = pool }, futures)
