-- ===== src/Log.antt =====
-- The log (src/log/log.h, src/log/log.cpp) over the core of boost.log, which is a parameter. A sink
-- is behind a number. A string is a list of bytes; the formats and the locale are left out.
pub mod Sinks
pub mod Reach
pub mod Names
pub mod Printf
use packaged_task.Base.{
  ℕ, zero, suc, ◌+◌, ◌≡◌, List, [], ◌∷◌, map, length, Bool, true, false, not, ◌&&◌, ◌||◌, ◌==◌, leb,
  Option, none, some, if◌then◌else◌,
}
use packaged_task.Base.Bytes.{bytes_eq}

pub data SeverityLevel : Type 0 where
  notification warning error : SeverityLevel

pub data Output : Type 0 where
  all console file : Output

-- The enumerator's number.
unfoldable pub level : SeverityLevel → ℕ
level notification = 0
level warning = 1
level error = 2

-- `boost::log::core`: the sinks that it hands a record to. A sink that is added again is there once;
-- one that is removed and was not there changes nothing.
pub record LogCore (C : Type 0) : Type 0 where
  pub add_sink : ℕ → C → C
  pub remove_sink : ℕ → C → C
  pub has_sink : ℕ → C → Bool
  pub has_sink-add_sink :
      (s t : ℕ) (c : C) → has_sink s (add_sink t c) ≡ (if t == s then true else has_sink s c)
  pub has_sink-remove_sink :
      (s t : ℕ) (c : C) → has_sink s (remove_sink t c) ≡ (if t == s then false else has_sink s c)

-- A sink with its filter: the least severity that passes; none passes all.
pub record Sink : Type 0 where
  pub address : ℕ
  pub filter : Option SeverityLevel

-- The core and the globals: `g_fname`, `g_output`, `g_sink_c`, `g_sink_f`; `next` is the address of
-- the next sink that is made.
pub record LogState (C : Type 0) : Type 0 where
  pub core : C
  pub next : ℕ
  pub fname : List ℕ
  pub output : Output
  pub sink_c : Option Sink
  pub sink_f : Option Sink

-- `g_output == all || g_output == file`, and the same for the console.
unfoldable pub to_file : Output → Bool
to_file all = true
to_file console = false
to_file file = true

unfoldable pub to_console : Output → Bool
to_console all = true
to_console console = true
to_console file = false

abbrev pub has_address : ℕ → Option Sink → Bool
has_address a none = false
has_address a (some s) = s.address == a

-- `set_filter` through a pointer; `none` is a null pointer.
unfoldable pub set_filter : SeverityLevel → Option Sink → Option Sink
set_filter sl none = none
set_filter sl (some s) = some (record s { filter = some sl })

unfoldable pub passes : Option SeverityLevel → SeverityLevel → Bool
passes none sl = true
passes (some least) sl = leb (level least) (level sl)

module _ {C : Type 0} (ops : LogCore C) where
  -- `remove_sink` of a null pointer changes nothing.
  unfoldable pub remove_if_any : Option Sink → C → C
  remove_if_any none c = c
  remove_if_any (some s) c = ops.remove_sink s.address c

  -- A sink for the file: `add_file_log` makes and adds it, and it is added again.
  unfoldable pub open_file_sink : LogState C → LogState C
  open_file_sink g = record g {
    core = ops.add_sink g.next (ops.add_sink g.next g.core);
    next = suc g.next;
    sink_f = some (record { address = g.next; filter = none });
  }

  unfoldable pub open_console_sink : LogState C → LogState C
  open_console_sink g = record g {
    core = ops.add_sink g.next g.core;
    next = suc g.next;
    sink_c = some (record { address = g.next; filter = none });
  }

  -- `InitBoostLog`; `none` is the failed assertion on the file's name. `reset_filter` leaves the
  -- fresh sinks as they are.
  unfoldable pub init_boost_log : (fname : List ℕ) → Output → LogState C → Option (LogState C)
  init_boost_log fname out g =
      let g₀ = record g {
        core = remove_if_any g.sink_f (remove_if_any g.sink_c g.core);
        fname = fname;
        output = out;
      } in
      let g₁ = if to_file out then open_file_sink g₀ else g₀ in
      let g₂ = if to_console out then open_console_sink g₁ else g₁ in
      if length fname == 0 then none else some g₂

  -- Whether a pointer that the output needs is null.
  unfoldable pub lacks_sink : (needed : Bool) → Option Sink → Bool
  lacks_sink needed none = needed
  lacks_sink needed (some s) = false

  -- `SetSeverityFilter`; `none` is the access through a null pointer.
  unfoldable pub set_severity_filter : SeverityLevel → LogState C → Option (LogState C)
  set_severity_filter sl g =
      if lacks_sink (to_file g.output) g.sink_f || lacks_sink (to_console g.output) g.sink_c
      then none
      else some (record g {
        sink_f = if to_file g.output then set_filter sl g.sink_f else g.sink_f;
        sink_c = if to_console g.output then set_filter sl g.sink_c else g.sink_c;
      })

  -- Whether a sink of the core writes a message.
  unfoldable pub writes : LogState C → Option Sink → SeverityLevel → Bool
  writes g none sl = false
  writes g (some s) sl = ops.has_sink s.address g.core && passes s.filter sl

  -- `Put`, and `Log`, which calls it: whether the file and the console get the message.
  unfoldable pub put : LogState C → SeverityLevel → Bool × Bool
  put g sl = (writes g g.sink_f sl, writes g g.sink_c sl)

-- What `operator<<` prints of a level.
unfoldable pub level_name : SeverityLevel → List ℕ
level_name notification =
    b'N' ∷ b'o' ∷ b't' ∷ b'i' ∷ b'f' ∷ b'i' ∷ b'c' ∷ b'a' ∷ b't' ∷ b'i' ∷ b'o' ∷ b'n' ∷ []
level_name warning = b'W' ∷ b'A' ∷ b'R' ∷ b'N' ∷ b'I' ∷ b'N' ∷ b'G' ∷ []
level_name error = b'E' ∷ b'R' ∷ b'R' ∷ b'O' ∷ b'R' ∷ []

abbrev pub warning_text : List ℕ
warning_text = b'w' ∷ b'a' ∷ b'r' ∷ b'n' ∷ b'i' ∷ b'n' ∷ b'g' ∷ []

abbrev pub error_text : List ℕ
error_text = b'e' ∷ b'r' ∷ b'r' ∷ b'o' ∷ b'r' ∷ []

abbrev pub console_text : List ℕ
console_text = b'c' ∷ b'o' ∷ b'n' ∷ b's' ∷ b'o' ∷ b'l' ∷ b'e' ∷ []

abbrev pub file_text : List ℕ
file_text = b'f' ∷ b'i' ∷ b'l' ∷ b'e' ∷ []

-- `ConvertStrToSeverity` and `ConvertStrToOutput`, over the C library's `tolower`.
unfoldable pub convert_str_to_severity : (to_lower : ℕ → ℕ) → List ℕ → SeverityLevel
convert_str_to_severity to_lower sl_txt =
    let txt = map to_lower sl_txt in
    let sl = if bytes_eq txt warning_text then warning else notification in
    if bytes_eq txt error_text then error else sl

unfoldable pub convert_str_to_output : (to_lower : ℕ → ℕ) → List ℕ → Output
convert_str_to_output to_lower ot_txt =
    let txt = map to_lower ot_txt in
    let ot = if bytes_eq txt console_text then console else all in
    if bytes_eq txt file_text then file else ot
