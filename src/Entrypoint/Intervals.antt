-- ===== src/Entrypoint/Intervals.antt =====
-- The tickers of `Run` (internal/entrypoint/run.go) when intervals change.
use csm_metrics_powermax.Prelude.{
  List, [], ◌∷◌, Bool, true, false, Option, none, some, ◌≡◌, refl, arith, All, sym, ap, ◌∙◌,
  Option-cases, inl, inr, Error, ◌⊎◌, Bool-cases, not, ◌&&◌,
}
use csm_metrics_powermax.Prelude.Int.{pos, ◌≤ℤ◌, ◌<ℤ◌}
use csm_metrics_powermax.Entrypoint.Config.{Config, validate_config}
use csm_metrics_powermax.Exporter.{Ended, ended}
use csm_metrics_powermax.Entrypoint.Loop.{
  Action, Event, Loop, Outcome, continues, returns, panics, Readings, Ticker, leader_check,
  capacity_tick, performance_tick, topology_metrics_tick, liveness_probe_tick, from_err_ch, done,
  step, rounds, run, start, update_tickers, update_capacity, update_performance, update_topology,
  after_loss, check_leader, acquire, new_ticker, ◌then_continue◌, deferred, Callees, called_all,
  liveness_interval,
}
use csm_metrics_powermax.Entrypoint.Tickers.{
  IsValid, IsValid-intervals, new_ticker-InRange, goes_on, goes_on-update_tickers,
}

-- Does an outcome come without a panic?
abbrev pub is_panic : Outcome → Bool
is_panic panics = true
is_panic _ = false

goes_on_no_panic : (o : Outcome) → goes_on o ≡ true → is_panic o ≡ false
goes_on_no_panic (continues s) h = refl
goes_on_no_panic (returns e) h = refl
goes_on_no_panic panics h = sym h

is_panic-then :
    (o : Outcome) (f : Loop → Outcome)
    → is_panic o ≡ false
    → ((s : Loop) → is_panic (f s) ≡ false)
    → is_panic (o then_continue f) ≡ false
is_panic-then (continues s) f h k = k s
is_panic-then (returns e) f h k = h
is_panic-then panics f h k = h

check_leader_no_panic :
    (c : Config) (r : Readings) (s : Loop) → is_panic (check_leader c r s).1 ≡ false
unfolding check_leader acquire
check_leader_no_panic c r s = ground arith

-- No call of the loop panics, nor the deferred one.
pub record AllReturn (callees : Callees) : Type 0 where
  pub calls : (before : List Action) (a : Action) → callees.call_panics before a ≡ false
  pub stopped : (e : Option Error) × (callees.stop ≡ ended e)

is_panic-deferred :
    (stop : Ended) (x : List Action × Outcome) {e : Option Error}
    → stop ≡ ended e
    → is_panic x.1 ≡ false
    → is_panic (deferred stop x).1 ≡ false
is_panic-deferred stop (actions, continues s) q h = h
is_panic-deferred stop (actions, returns e) q h = rw q refl
is_panic-deferred stop (actions, panics) q h = h

step_no_panic : (c : Config) (e : Event) (s : Loop) → IsValid c → is_panic (step c e s).1 ≡ false
unfolding step
step_no_panic c (leader_check r) s h =
    is_panic-then (check_leader c r s).1 (update_tickers c) (check_leader_no_panic c r s)
      (λ v. goes_on_no_panic (update_tickers c v) (goes_on-update_tickers c v h))
step_no_panic c (capacity_tick b) s h = goes_on_no_panic _ (goes_on-update_tickers c _ h)
step_no_panic c performance_tick s h = goes_on_no_panic _ (goes_on-update_tickers c _ h)
step_no_panic c (topology_metrics_tick b) s h = goes_on_no_panic _ (goes_on-update_tickers c _ h)
step_no_panic c liveness_probe_tick s h = goes_on_no_panic _ (goes_on-update_tickers c _ h)
step_no_panic c (from_err_ch none) s h = refl
step_no_panic c (from_err_ch (some e)) s h = refl
step_no_panic c done s h = refl

rounds_no_panic :
    (events : List (Config × Event)) (s : Loop)
    → All (λ x. IsValid x.0) events
    → is_panic (rounds events s).1 ≡ false
unfolding rounds
rounds_no_panic [] s h = refl
rounds_no_panic ((c, e) ∷ rest) s (h, k) =
    by_outcome (λ v. rounds_no_panic rest v k) (step c e s).1 refl
  where
    by_outcome :
        ((v : Loop) → is_panic (rounds rest v).1 ≡ false)
        → (o : Outcome) → (step c e s).1 ≡ o
        → is_panic (rounds ((c, e) ∷ rest) s).1 ≡ false
    by_outcome g (continues v) i = rw (rounds, i) (g v)
    by_outcome g (returns x) i = rw (rounds, i) refl
    by_outcome g panics i = rw (rounds, i) (ap is_panic (sym i) ∙ step_no_panic c e s h)

liveness_positive :
    (c : Config)
    → pos 0 ≤ℤ c.liveness_probe_tick_interval
    → (t : Ticker) × (new_ticker (liveness_interval c) ≡ some t)
liveness_positive c k = elim (Option-cases (new_ticker (liveness_interval c))) [
  | inl e ↦ ground arith
  | inr e ↦ e
]

start-IsValid :
    (c : Config)
    → IsValid c
    → pos 0 ≤ℤ c.liveness_probe_tick_interval
    → (s : Loop) × (start c ≡ some s)
unfolding start
start-IsValid c h k =
    rw
      (
        start,
        new_ticker-InRange c.capacity_tick_interval (IsValid-intervals c h).0,
        new_ticker-InRange c.performance_tick_interval (IsValid-intervals c h).1,
        new_ticker-InRange c.topology_metrics_tick_interval (IsValid-intervals c h).2,
        (liveness_positive c k).1,
      )
      (_, refl)

-- Whatever the events are, `Run` itself does not panic while each configuration that its loop sees
-- would be accepted, if the liveness interval it starts with is not negative: no ticker is made of
-- an interval that is not positive. The exports, the liveness probe and the deferred `StopExporter`
-- are taken to return without a panic.
pub run_no_panic :
    (callees : Callees) (c : Config) (events : List (Config × Event))
    → AllReturn callees
    → pos 0 ≤ℤ c.liveness_probe_tick_interval
    → All (λ x. IsValid x.0) events
    → is_panic (run callees (some c) events).1 ≡ false
unfolding run
run_no_panic callees c events r k h = by_error (validate_config (some c)) refl
  where
    by_error :
        (o : Option Error)
        → validate_config (some c) ≡ o
        → is_panic (run callees (some c) events).1 ≡ false
    by_error (some e) i = rw (run, i) refl
    by_error none i =
        let (s, j) = start-IsValid c i k in
        rw
          (
            run,
            i,
            j,
            called_all callees.call_panics [] (rounds events s).0 (rounds events s).1 r.calls,
          )
          (is_panic-deferred callees.stop (rounds events s) r.stopped.1
            (rounds_no_panic events s h))

-- Is one of the intervals positive in the loop and no longer so in the configuration?
abbrev Refused : Config → Loop → Type 0
Refused c s =
    ((pos 0 <ℤ s.capacity_tick_interval) × (c.capacity_tick_interval ≤ℤ pos 0))
    ⊎ ((pos 0 <ℤ s.performance_tick_interval) × (c.performance_tick_interval ≤ℤ pos 0))
    ⊎ ((pos 0 <ℤ s.topology_metrics_tick_interval) × (c.topology_metrics_tick_interval ≤ℤ pos 0))

-- Does a round reach the tests of the intervals at its end?
abbrev is_tested : Event → Bool
is_tested (leader_check r) = not r.done_after_capacity && not r.done_after_performance
is_tested (from_err_ch _) = false
is_tested done = false
is_tested _ = true

update_tickers_panics : (c : Config) (s : Loop) → Refused c s → update_tickers c s ≡ panics
unfolding update_tickers update_capacity update_performance update_topology
update_tickers_panics c s (inl (h, k)) = ground arith
update_tickers_panics c s (inr (inl (h, k))) = ground arith
update_tickers_panics c s (inr (inr (h, k))) = ground arith

after_loss-Refused :
    (c : Config) (r : Readings) (s : Loop) → Refused c s → Refused c (after_loss r s)
after_loss-Refused c r s h = elim (Bool-cases (s.was_leader && not r.is_leader)) [
  | inl e ↦ rw (e) h
  | inr e ↦ rw (e) h
]

acquire_panics :
    (c : Config) (r : Readings) (s : Loop)
    → (not r.done_after_capacity && not r.done_after_performance) ≡ true
    → Refused c s
    → ((acquire c r s).1 then_continue update_tickers c) ≡ panics
unfolding acquire
acquire_panics c r s d h =
    let e : r.done_after_capacity ≡ false = ground arith in
    let g : r.done_after_performance ≡ false = ground arith in
    rw (e, g) (update_tickers_panics c _ h)

check_leader_panics :
    (c : Config) (r : Readings) (s : Loop)
    → (not r.done_after_capacity && not r.done_after_performance) ≡ true
    → Refused c s
    → ((check_leader c r s).1 then_continue update_tickers c) ≡ panics
unfolding check_leader
check_leader_panics c r s d h =
    let v = after_loss r s in
    let k : Refused c v = after_loss-Refused c r s h in
    elim (Bool-cases (not v.collected_on_leader_acquired && r.is_leader)) [
      | inl e ↦ rw (e) (acquire_panics c r v d k)
      | inr e ↦ rw (e) (update_tickers_panics c v k)
    ]

-- An interval that is set to zero or less while the loop has a positive one makes the loop panic at the
-- end of the very next round that reaches the tests of the intervals, whichever interval it is and
-- whichever case the round serves: every tick does, and so does a leader check that is not cancelled.
pub unchecked_interval_panics :
    (c : Config) (s : Loop) (e : Event) → is_tested e ≡ true → Refused c s → (step c e s).1 ≡ panics
unfolding step
unchecked_interval_panics c s (leader_check r) d h = check_leader_panics c r s d h
unchecked_interval_panics c s (capacity_tick b) d h = update_tickers_panics c _ h
unchecked_interval_panics c s performance_tick d h = update_tickers_panics c _ h
unchecked_interval_panics c s (topology_metrics_tick b) d h = update_tickers_panics c _ h
unchecked_interval_panics c s liveness_probe_tick d h = update_tickers_panics c _ h
unchecked_interval_panics c s (from_err_ch x) d h = ground arith
unchecked_interval_panics c s done d h = ground arith
