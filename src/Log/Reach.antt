-- ===== src/Log/Reach.antt =====
-- Which outputs a message reaches after `InitBoostLog` and `SetSeverityFilter`.
use packaged_task.Base.{
  ℕ, suc, ◌<◌, ◌≡◌, refl, ap, ◌∙◌, List, length, Bool, true, false, ◌&&◌, ◌||◌, ==_refl, leb,
  Option, none, some, if◌then◌else◌, arith,
}
use packaged_task.Log.{
  SeverityLevel, Output, all, console, file, level, LogCore, Sink, LogState, to_file, to_console,
  has_address, set_filter, passes, remove_if_any, open_file_sink, open_console_sink, init_boost_log,
  lacks_sink, set_severity_filter, writes, put,
}
use packaged_task.Log.Sinks.{IsOwned, cleared, initialised, init_boost_log_lem, filtered}

or_true : (b : Bool) → (b || true) ≡ true
or_true true = refl
or_true false = refl

outputs_somewhere :
    {A : Type 0} (a : Option A) (out : Output)
    → (if to_file out || to_console out then none else a) ≡ none
unfolding to_file to_console
outputs_somewhere a all = refl
outputs_somewhere a console = refl
outputs_somewhere a file = refl

module _ {C : Type 0} (ops : LogCore C) where
  -- A sink that the core does not have writes nothing.
  writes_nothing :
      (g : LogState C) (s : Option Sink) (sl : SeverityLevel)
      → ((a : ℕ) → has_address a s ≡ true → ops.has_sink a g.core ≡ false)
      → writes ops g s sl ≡ false
  unfolding writes
  writes_nothing g none sl absent = refl
  writes_nothing g (some s) sl absent = rw (absent s.address (==_refl s.address)) refl

  -- An old sink is not in the core with one new sink.
  left_out :
      (g : LogState C) (s : Option Sink) (a : ℕ)
      → IsOwned ops g
      → (has_address a s ≡ true → (has_address a g.sink_c || has_address a g.sink_f) ≡ true)
      → has_address a s ≡ true
      → ops.has_sink a
          (ops.add_sink g.next (remove_if_any ops g.sink_f (remove_if_any ops g.sink_c g.core)))
        ≡ false
  left_out g s a v old here =
      let c = remove_if_any ops g.sink_f (remove_if_any ops g.sink_c g.core) in
      let clear = cleared ops g.core g.sink_c g.sink_f v.owned a in
      let added = ops.has_sink-add_sink a g.next c in
      ground (arith, clear, added, v.fresh a, old here)

  not_needed : (s : Option Sink) → lacks_sink ops false s ≡ false
  unfolding lacks_sink
  not_needed none = refl
  not_needed (some s) = refl

  set_severity_filter_lem :
      (fname : List ℕ) (out : Output) (least : SeverityLevel) (g : LogState C)
      → set_severity_filter ops least (initialised ops fname out g)
        ≡ some (filtered ops least (initialised ops fname out g))
  unfolding set_severity_filter lacks_sink open_file_sink open_console_sink to_file to_console
  set_severity_filter_lem fname all least g = refl
  set_severity_filter_lem fname console least g = rw (not_needed g.sink_f) refl
  set_severity_filter_lem fname file least g = rw (not_needed g.sink_c) refl

  put-filtered :
      (fname : List ℕ) (out : Output) (least sl : SeverityLevel) (g : LogState C)
      → IsOwned ops g
      → put ops (filtered ops least (initialised ops fname out g)) sl ≡ (
        to_file out && leb (level least) (level sl),
        to_console out && leb (level least) (level sl),
      )
  unfolding open_file_sink open_console_sink to_file to_console put writes passes set_filter
  put-filtered fname all least sl g v =
      let c = remove_if_any ops g.sink_f (remove_if_any ops g.sink_c g.core) in
      let c' = ops.add_sink g.next (ops.add_sink g.next c) in
      let in_file : ops.has_sink g.next (ops.add_sink (suc g.next) c') ≡ true =
        let outer = ops.has_sink-add_sink g.next (suc g.next) c' in
        let inner = ops.has_sink-add_sink g.next g.next (ops.add_sink g.next c) in
        ground (arith, outer, inner) in
      let in_console : ops.has_sink (suc g.next) (ops.add_sink (suc g.next) c') ≡ true =
        let outer = ops.has_sink-add_sink (suc g.next) (suc g.next) c' in ground (arith, outer) in
      rw (in_file, in_console) refl
  put-filtered fname console least sl g v =
      let c = remove_if_any ops g.sink_f (remove_if_any ops g.sink_c g.core) in
      let g' = filtered ops least (initialised ops fname console g) in
      let there : ops.has_sink g.next (ops.add_sink g.next c) ≡ true =
        let added = ops.has_sink-add_sink g.next g.next c in ground (arith, added) in
      ap (λ b. (b, writes ops g' g'.sink_c sl))
        (writes_nothing g' g.sink_f sl
          (λ a here. left_out g g.sink_f a v (λ h. rw h (or_true (has_address a g.sink_c))) here))
      ∙ ap (λ b. (false, b && leb (level least) (level sl))) there
  put-filtered fname file least sl g v =
      let c = remove_if_any ops g.sink_f (remove_if_any ops g.sink_c g.core) in
      let g' = filtered ops least (initialised ops fname file g) in
      let there : ops.has_sink g.next (ops.add_sink g.next (ops.add_sink g.next c)) ≡ true =
        let added = ops.has_sink-add_sink g.next g.next (ops.add_sink g.next c) in
        ground (arith, added) in
      ap (λ b. (writes ops g' g'.sink_f sl, b))
        (writes_nothing g' g.sink_c sl (λ a here.
          ops.has_sink-add_sink a g.next (ops.add_sink g.next c)
          ∙ (let absent = left_out g g.sink_c a v (λ h. rw h refl) here in
              let added = ops.has_sink-add_sink a g.next c in ground (arith, absent, added))))
      ∙ ap (λ b. (b && leb (level least) (level sl), false)) there

-- After `InitBoostLog`, on a log whose sinks are behind its pointers and with a file name that is not
-- empty, `SetSeverityFilter` finds its sinks; a message then reaches the file exactly if the output
-- asked for is the file or all and its severity is at least the filter's, and likewise the console.
pub put-set_severity_filter :
    {C : Type 0} (ops : LogCore C) (g : LogState C) (fname : List ℕ) (out : Output)
    (least : SeverityLevel)
    → IsOwned ops g
    → 0 < length fname
    → (g₁ g₂ : LogState C) × (init_boost_log ops fname out g ≡ some g₁)
      × (set_severity_filter ops least g₁ ≡ some g₂)
      × ((sl : SeverityLevel)
          → put ops g₂ sl ≡ (
            to_file out && leb (level least) (level sl),
            to_console out && leb (level least) (level sl),
          ))
put-set_severity_filter ops g fname out least v named = (
  initialised ops fname out g,
  filtered ops least (initialised ops fname out g),
  init_boost_log_lem ops fname out g named,
  set_severity_filter_lem ops fname out least g,
  λ sl. put-filtered ops fname out least sl g v,
)

-- Without an earlier `InitBoostLog` both pointers are null: `SetSeverityFilter` then accesses one of
-- them, whatever output is set.
pub set_severity_filter-null :
    {C : Type 0} (ops : LogCore C) (g : LogState C) (least : SeverityLevel)
    → g.sink_c ≡ none
    → g.sink_f ≡ none
    → set_severity_filter ops least g ≡ none
unfolding set_severity_filter lacks_sink
set_severity_filter-null ops g least no_console no_file =
    rw (no_console, no_file) (outputs_somewhere _ g.output)
