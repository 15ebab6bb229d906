-- ===== src/Tests/Logs.antt =====
-- A log on a core that knows which sinks it has.
use packaged_task.Base.{
  ℕ, ◌+◌, ◌≡◌, refl, [], ◌∷◌, Bool, true, false, ◌&&◌, ◌==◌, ltb, leb, none, some, inl,
  if◌then◌else◌, arith,
}
use packaged_task.Log.{
  SeverityLevel, warning, all, level, LogCore, LogState, to_file, to_console, init_boost_log,
  set_severity_filter, put, open_file_sink, open_console_sink, remove_if_any,
}
use packaged_task.Log.Sinks.{IsOwned, log-IsOwned}
use packaged_task.Log.Reach.{put-set_severity_filter}

abbrev pub core : LogCore (ℕ → Bool)
core = record {
  add_sink = λ t c s. if t == s then true else c s;
  remove_sink = λ t c s. if t == s then false else c s;
  has_sink = λ s c. c s;
  has_sink-add_sink = λ s t c. refl;
  has_sink-remove_sink = λ s t c. refl;
}

abbrev pub before_start : LogState (ℕ → Bool)
before_start = record {
  core = λ s. false;
  next = 0;
  fname = [];
  output = all;
  sink_c = none;
  sink_f = none;
}

pub before_start-IsOwned : IsOwned core before_start
before_start-IsOwned = record { owned = λ a there. there; fresh = λ a above. refl }

abbrev after_start : LogState (ℕ → Bool)
after_start = record {
  core = core.add_sink 1 (core.add_sink 0 (core.add_sink 0 (λ s. false)));
  next = 2;
  fname = 108 ∷ [];
  output = all;
  sink_c = some (record { address = 1; filter = none });
  sink_f = some (record { address = 0; filter = none });
}

started : init_boost_log core (108 ∷ []) all before_start ≡ some after_start
unfolding init_boost_log to_file to_console open_file_sink open_console_sink remove_if_any
started = refl

log-IsOwned_example : IsOwned core after_start
log-IsOwned_example =
    log-IsOwned core before_start after_start (108 ∷ []) all warning before_start-IsOwned
      (inl started)

put-set_severity_filter_example :
    (g₁ g₂ : LogState (ℕ → Bool)) × (init_boost_log core (108 ∷ []) all before_start ≡ some g₁)
    × (set_severity_filter core warning g₁ ≡ some g₂)
    × ((sl : SeverityLevel)
        → put core g₂ sl ≡ (
          to_file all && leb (level warning) (level sl),
          to_console all && leb (level warning) (level sl),
        ))
put-set_severity_filter_example =
    put-set_severity_filter core before_start (108 ∷ []) all warning before_start-IsOwned
      (omega arith)

-- `tolower` in the C locale.
abbrev pub lower : ℕ → ℕ
lower c = if ltb 64 c && ltb c 91 then c + 32 else c
