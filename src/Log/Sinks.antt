-- ===== src/Log/Sinks.antt =====
-- The sinks after `InitBoostLog` and `SetSeverityFilter`: whose they are.
use packaged_task.Base.{
  ℕ, suc, ◌<◌, ◌≤◌, ◌≡◌, ◌⊎◌, refl, sym, ◌∙◌, subst, List, length, Bool, Bool-cases, true, false,
  ◌||◌, ◌==◌, ==_ne, inl, inr, Option, none, some, some_cancel, if◌then◌else◌, arith,
}
use packaged_task.Log.{
  SeverityLevel, Output, all, console, file, LogCore, Sink, LogState, to_file, to_console,
  has_address, set_filter, remove_if_any, open_file_sink, open_console_sink, init_boost_log,
  lacks_sink, set_severity_filter,
}

module _ {C : Type 0} (ops : LogCore C) where
  -- The core has no sink but those of the pointers, and addresses are given out once.
  pub record IsOwned (g : LogState C) : Type 0 where
    pub owned :
        (a : ℕ)
        → ops.has_sink a g.core ≡ true
        → (has_address a g.sink_c || has_address a g.sink_f) ≡ true
    pub fresh : (a : ℕ) → g.next ≤ a → (has_address a g.sink_c || has_address a g.sink_f) ≡ false

  -- No sink is left once those of the pointers are removed.
  pub cleared :
      (c : C) (sink_c sink_f : Option Sink)
      → ((a : ℕ) → ops.has_sink a c ≡ true → (has_address a sink_c || has_address a sink_f) ≡ true)
      → (a : ℕ) → ops.has_sink a (remove_if_any ops sink_f (remove_if_any ops sink_c c)) ≡ false
  unfolding remove_if_any
  cleared c none none owned a = ground (arith, owned a)
  cleared c (some s) none owned a =
      rw (ops.has_sink-remove_sink a s.address c) (ground (arith, owned a))
  cleared c none (some s) owned a =
      rw (ops.has_sink-remove_sink a s.address c) (ground (arith, owned a))
  cleared c (some s) (some t) owned a =
      rw
        (
          ops.has_sink-remove_sink a t.address (ops.remove_sink s.address c),
          ops.has_sink-remove_sink a s.address c,
        )
        (ground (arith, owned a))

  -- The state that `InitBoostLog` leaves.
  abbrev pub initialised : (fname : List ℕ) → Output → LogState C → LogState C
  initialised fname out g =
      let g₀ = record g {
        core = remove_if_any ops g.sink_f (remove_if_any ops g.sink_c g.core);
        fname = fname;
        output = out;
      } in
      let g₁ = if to_file out then open_file_sink ops g₀ else g₀ in
      if to_console out then open_console_sink ops g₁ else g₁

  pub init_boost_log_lem :
      (fname : List ℕ) (out : Output) (g : LogState C)
      → 0 < length fname
      → init_boost_log ops fname out g ≡ some (initialised fname out g)
  unfolding init_boost_log
  init_boost_log_lem fname out g named =
      rw (==_ne (length fname) 0 (λ e. omega (arith, e, named))) refl

  initialised-IsOwned :
      (fname : List ℕ) (out : Output) (g : LogState C)
      → IsOwned g
      → IsOwned (initialised fname out g)
  unfolding open_file_sink open_console_sink to_file to_console
  initialised-IsOwned fname all g v =
      let c = remove_if_any ops g.sink_f (remove_if_any ops g.sink_c g.core) in
      record {
        owned = λ a there.
            let clear = cleared g.core g.sink_c g.sink_f v.owned a in
            let first = ops.has_sink-add_sink a g.next c in
            let again = ops.has_sink-add_sink a g.next (ops.add_sink g.next c) in
            let second =
              ops.has_sink-add_sink a (suc g.next) (ops.add_sink g.next (ops.add_sink g.next c)) in
            ground (arith, clear, first, again, second, there);
        fresh = λ a above. ground (arith, above);
      }
  initialised-IsOwned fname console g v =
      let c = remove_if_any ops g.sink_f (remove_if_any ops g.sink_c g.core) in
      record {
        owned = λ a there.
            let clear = cleared g.core g.sink_c g.sink_f v.owned a in
            let added = ops.has_sink-add_sink a g.next c in ground (arith, clear, added, there);
        fresh = λ a above. let old = v.fresh a (omega (arith, above)) in ground (arith, above, old);
      }
  initialised-IsOwned fname file g v =
      let c = remove_if_any ops g.sink_f (remove_if_any ops g.sink_c g.core) in
      record {
        owned = λ a there.
            let clear = cleared g.core g.sink_c g.sink_f v.owned a in
            let first = ops.has_sink-add_sink a g.next c in
            let again = ops.has_sink-add_sink a g.next (ops.add_sink g.next c) in
            ground (arith, clear, first, again, there);
        fresh = λ a above. let old = v.fresh a (omega (arith, above)) in ground (arith, above, old);
      }

  -- The state that `SetSeverityFilter` leaves where it finds the sinks.
  abbrev pub filtered : SeverityLevel → LogState C → LogState C
  filtered least g = record g {
    sink_f = if to_file g.output then set_filter least g.sink_f else g.sink_f;
    sink_c = if to_console g.output then set_filter least g.sink_c else g.sink_c;
  }

  same_address :
      (least : SeverityLevel) (b : Bool) (s : Option Sink) (a : ℕ)
      → has_address a (if b then set_filter least s else s) ≡ has_address a s
  unfolding set_filter
  same_address least true none a = refl
  same_address least true (some s) a = refl
  same_address least false s a = refl

  filtered-IsOwned :
      (least : SeverityLevel) (g : LogState C) → IsOwned g → IsOwned (filtered least g)
  filtered-IsOwned least g v = record {
    owned = λ a there.
        rw
          (
            same_address least (to_console g.output) g.sink_c a,
            same_address least (to_file g.output) g.sink_f a,
          )
          (v.owned a there);
    fresh = λ a above.
        rw
          (
            same_address least (to_console g.output) g.sink_c a,
            same_address least (to_file g.output) g.sink_f a,
          )
          (v.fresh a above);
  }

-- A start of the log and a change of its filter keep every sink of the core behind one of the two
-- pointers, so that no sink of an earlier start is left to print a message again.
pub log-IsOwned :
    {C : Type 0} (ops : LogCore C) (g g' : LogState C) (fname : List ℕ) (out : Output)
    (least : SeverityLevel)
    → IsOwned ops g
    → (init_boost_log ops fname out g ≡ some g') ⊎ (set_severity_filter ops least g ≡ some g')
    → IsOwned ops g'
unfolding init_boost_log set_severity_filter
log-IsOwned ops g g' fname out least v (inl started) = elim (Bool-cases (length fname == 0)) [
  | inl unnamed ↦ absurd (ground (arith, started, unnamed))
  | inr named ↦
      subst (IsOwned ops) (some_cancel (sym (rw named refl) ∙ started))
        (initialised-IsOwned ops fname out g v)
]
log-IsOwned ops g g' fname out least v (inr set) =
    elim (Bool-cases (
      lacks_sink ops (to_file g.output) g.sink_f
      || lacks_sink ops (to_console g.output) g.sink_c)) [
        | inl lacks ↦ absurd (ground (arith, set, lacks))
        | inr found ↦
            subst (IsOwned ops) (some_cancel (sym (rw found refl) ∙ set))
              (filtered-IsOwned ops least g v)
      ]
