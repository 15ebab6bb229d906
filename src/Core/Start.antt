-- ===== src/Core/Start.antt =====
-- What `Core()` leaves, and its events.
use packaged_task.Base.{
  ℕ, ◌-◌, ◌^◌, ◌<◌, ◌≡◌, refl, ap, ◌∙◌, List, [], ◌∷◌, ◌++◌, map, length, ◌&&◌, ◌||◌, not, leb,
  ◌==◌, ==_ne, Bool, true, false, some, arith, if◌then◌else◌,
}
use packaged_task.Base.Bytes.{bytes_eq}
use packaged_task.Base.Text.{codes}
use packaged_task.Fs.Archive.{Zlib}
use packaged_task.Fs.Load.Plain.{get_file-file_system}
use packaged_task.ThreadPool.Count.{default_pool_size_lem}
use packaged_task.ThreadPool.{create}
use packaged_task.Fs.Load.{Entry, below, file_system, get_file}
use packaged_task.Log.{
  SeverityLevel, LogCore, LogState, level, to_file, to_console, init_boost_log, set_severity_filter,
  put, convert_str_to_severity, convert_str_to_output, all, console, file, file_text, console_text,
}
use packaged_task.Log.Sinks.{IsOwned}
use packaged_task.Log.Reach.{put-set_severity_filter}
use packaged_task.Core.{
  root_path_relative, severity_level_filter, logging_output, logging_file_name, Config, Core,
  Platform, filter_log, start_log, with_log, put_together, build, construct,
}

start_log_lem :
    {C : Type 0} (ops : LogCore C) (severity output name : List ℕ) (here : Platform)
    (g g₁ g₂ : LogState C)
    → init_boost_log ops name (convert_str_to_output here.to_lower output) g ≡ some g₁
    → set_severity_filter ops (convert_str_to_severity here.to_lower severity) g₁ ≡ some g₂
    → start_log ops (some severity) (some output) (some name) here g ≡ some g₂
unfolding start_log filter_log
start_log_lem ops severity output name here g g₁ g₂ started filtered = rw (started, filtered) refl

-- What the settings say, as lower-case texts: whether messages go to the file and to the console, and
-- the least level.
abbrev pub in_file : List ℕ → Bool
in_file txt = bytes_eq txt (codes "file") || not (bytes_eq txt (codes "console"))

abbrev pub on_console : List ℕ → Bool
on_console txt = not (bytes_eq txt (codes "file"))

abbrev pub least_level : List ℕ → ℕ
least_level txt =
    if bytes_eq txt (codes "error") then 2 else if bytes_eq txt (codes "warning") then 1 else 0

-- Whether a message reaches the file and the console.
abbrev reaches : (to_the_file to_the_console : Bool) (least : ℕ) → SeverityLevel → Bool × Bool
reaches to_the_file to_the_console least sl =
    (to_the_file && leb least (level sl), to_the_console && leb least (level sl))

outputs_lem :
    (to_lower : ℕ → ℕ) (output : List ℕ)
    → (to_file (convert_str_to_output to_lower output) ≡ in_file (map to_lower output))
      × (to_console (convert_str_to_output to_lower output) ≡ on_console (map to_lower output))
unfolding convert_str_to_output to_file to_console
outputs_lem to_lower output = outputs (map to_lower output)
  where
    outputs :
        (txt : List ℕ)
        → (to_file (
              if bytes_eq txt file_text
              then file
              else if bytes_eq txt console_text
              then console
              else all)
            ≡ in_file txt)
          × (to_console (
                if bytes_eq txt file_text
                then file
                else if bytes_eq txt console_text
                then console
                else all)
              ≡ on_console txt)
    outputs txt = ground arith

level_lem :
    (to_lower : ℕ → ℕ) (severity : List ℕ)
    → level (convert_str_to_severity to_lower severity) ≡ least_level (map to_lower severity)
unfolding convert_str_to_severity level
level_lem to_lower severity = ground arith

-- On a configuration that has the four settings, the root and the log's file name not empty, and a
-- log whose sinks are behind its pointers, `Core()` succeeds. `getFile` then loads a plain file that
-- the directory iterator yields below the root, whole. The pool waits for tasks with a thread less
-- than cores, but at least one, or with 2 ^ 32 - 1 if the number of cores is unknown, 0; no event is
-- registered. A message reaches the file and the console unless the output is set to the other, and
-- from the level of the severity that is set on, which is that of a notification for any other text
-- than `error` and `warning`; capital letters in the settings do not matter.
pub construct_lem :
    {C D R : Type 0} (ops : LogCore C) (here : Platform) (config : Config) (g : LogState C)
    (z : Zlib) (root severity output name fname bytes : List ℕ) (before : List Entry) (e : Entry)
    (after : List Entry)
    → config root_path_relative ≡ some root
    → config severity_level_filter ≡ some severity
    → config logging_output ≡ some output
    → config logging_file_name ≡ some name
    → 0 < length root
    → 0 < length name
    → IsOwned ops g
    → here.num_cores < 2 ^ 32
    → here.tree root ≡ some (before ++ (e ∷ after))
    → 0 < length fname
    → e.is_regular_file ≡ true
    → e.is_zip_extension ≡ false
    → e.path ≡ below root fname
    → here.host.open_file (below root fname) ≡ some bytes
    → (c : Core D R) × (g' : LogState C) × (construct ops here (some config) g ≡ some (c, g'))
      × (get_file here.host z c.file_system fname
          ≡ some (record {
            name = fname;
            file_size = length bytes;
            data_bytes = bytes;
            last_write_time = here.host.last_write_time (below root fname);
          }))
      × (c.thread_pool.threads ≡ (
          if here.num_cores == 0
          then 2 ^ 32 - 1
          else if here.num_cores == 1
          then 1
          else here.num_cores - 1))
      × (c.thread_pool.stopped ≡ false)
      × (c.thread_pool.num_tasks ≡ 0)
      × (c.event_system ≡ [])
      × ((sl : SeverityLevel)
          → put ops g' sl ≡ (
            in_file (map here.to_lower output)
                && leb (least_level (map here.to_lower severity)) (level sl),
            on_console (map here.to_lower output)
                && leb (least_level (map here.to_lower severity)) (level sl),
          ))
unfolding construct build with_log put_together create
construct_lem ops here config g z root severity output name fname bytes before e after known₁ known₂
      known₃ known₄ rooted named owned cores found some_name regular plain place opens =
    let (g₁, g₂, started, filtered, reached) =
      put-set_severity_filter ops g name (convert_str_to_output here.to_lower output)
        (convert_str_to_severity here.to_lower severity) owned named in
    let (files, consoles) = outputs_lem here.to_lower output in
    let least = level_lem here.to_lower severity in
    (
      put_together here config root,
      g₂,
      ap (λ r. build ops here config r g) known₁
          ∙ rw
              (
                build,
                known₂,
                known₃,
                known₄,
                start_log_lem ops severity output name here g g₁ g₂ started filtered,
                ==_ne (length root) 0 (λ e. omega (arith, e, rooted)),
              )
              refl,
      ap (λ t. get_file here.host z (file_system here.host root t) fname) found
          ∙ get_file-file_system here.host z root fname bytes before e after some_name regular plain
              place opens,
      default_pool_size_lem here.num_cores cores,
      refl,
      refl,
      refl,
      λ sl.
          reached sl
          ∙ ap
              (λ b.
                reaches b (to_console (convert_str_to_output here.to_lower output))
                  (level (convert_str_to_severity here.to_lower severity)) sl)
              files
          ∙ ap
              (λ b.
                reaches (in_file (map here.to_lower output)) b
                  (level (convert_str_to_severity here.to_lower severity)) sl)
              consoles
          ∙ ap
              (λ n.
                reaches (in_file (map here.to_lower output)) (on_console (map here.to_lower output))
                  n sl)
              least,
    )
