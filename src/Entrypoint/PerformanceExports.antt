-- ===== src/Entrypoint/PerformanceExports.antt =====
-- How often `Run` (internal/entrypoint/run.go) exports performance metrics.
use csm_metrics_powermax.Prelude.{
  ℕ, List, [], ◌∷◌, ◌++◌, Bool, true, none, some, ◌≡◌, refl, arith, All, ◌+◌, ◌≤◌, ap,
  if◌then◌else◌,
}
use csm_metrics_powermax.Entrypoint.Config.{Config}
use csm_metrics_powermax.Entrypoint.Loop.{
  Action, Event, Loop, Outcome, continues, returns, panics, Readings, leader_check, capacity_tick,
  performance_tick, topology_metrics_tick, liveness_probe_tick, from_err_ch, done, step, rounds,
  update_tickers, check_leader, acquire, ◌then_continue◌, collect_capacity_metrics,
  collect_performance_metrics, collect_topology_metrics, export_performance_metrics, collected,
}
use csm_metrics_powermax.Entrypoint.Tickers.{Keeps, update_tickers_flags}

abbrev pub performance_exports : List Action → ℕ
performance_exports [] = 0
performance_exports (export_performance_metrics ∷ rest) = 1 + performance_exports rest
performance_exports (_ ∷ rest) = performance_exports rest

performance_exports-append :
    (xs ys : List Action)
    → performance_exports (xs ++ ys) ≡ performance_exports xs + performance_exports ys
performance_exports-append [] ys = ground arith
performance_exports-append (x ∷ xs) ys = ground (arith, performance_exports-append xs ys)

collect_capacity_metrics-performance :
    (b : Bool) (c : Config) → performance_exports (collect_capacity_metrics b c) ≡ 0
unfolding collect_capacity_metrics
collect_capacity_metrics-performance b c = ground arith

collect_topology_metrics-performance :
    (b : Bool) (c : Config) → performance_exports (collect_topology_metrics b c) ≡ 0
unfolding collect_topology_metrics
collect_topology_metrics-performance b c = ground arith

-- An event in which the lease is not seen lost.
abbrev pub KeepsLease : Event → Type 0
KeepsLease (leader_check r) = r.is_leader ≡ true
KeepsLease _ = Unit {0}

-- How many performance exports may still come.
abbrev budget : Bool → ℕ
budget collected = if collected then 0 else 1

abbrev remaining : Outcome → ℕ
remaining (continues s) = budget s.collected_on_leader_acquired
remaining _ = 0

Keeps-remaining : (o : Outcome) (a b : Bool) → Keeps o a b → remaining o ≤ budget a
Keeps-remaining (continues s) a b (h, k) = ground arith
Keeps-remaining (returns e) a b h = ground arith
Keeps-remaining panics a b h = ground arith

remaining-update_tickers :
    (c : Config) (s : Loop) → remaining (update_tickers c s) ≤ budget s.collected_on_leader_acquired
remaining-update_tickers c s =
    Keeps-remaining (update_tickers c s) s.collected_on_leader_acquired s.was_leader
      (update_tickers_flags c s)

remaining-then :
    (c : Config) (o : Outcome) → remaining (o then_continue update_tickers c) ≤ remaining o
remaining-then c (continues s) = remaining-update_tickers c s
remaining-then c (returns e) = ground arith
remaining-then c panics = ground arith

check_leader-remaining :
    (c : Config) (r : Readings) (s : Loop)
    → r.is_leader ≡ true
    → performance_exports (check_leader c r s).0 + remaining (check_leader c r s).1
      ≤ budget s.collected_on_leader_acquired
unfolding check_leader acquire collect_capacity_metrics collect_performance_metrics
    collect_topology_metrics
check_leader-remaining c r s h = ground arith

idle : {n m k : ℕ} → n ≡ 0 → m ≤ k → n + m ≤ k
idle e h = ground arith

step-remaining :
    (c : Config) (e : Event) (s : Loop)
    → KeepsLease e
    → performance_exports (step c e s).0 + remaining (step c e s).1
      ≤ budget s.collected_on_leader_acquired
unfolding step
step-remaining c (leader_check r) s h =
    grind (arith, check_leader-remaining c r s h, remaining-then c (check_leader c r s).1)
step-remaining c (capacity_tick b) s h =
    idle (collect_capacity_metrics-performance b c) (remaining-update_tickers c _)
step-remaining c performance_tick s h = idle refl (remaining-update_tickers c _)
step-remaining c (topology_metrics_tick b) s h =
    idle (collect_topology_metrics-performance b c) (remaining-update_tickers c _)
step-remaining c liveness_probe_tick s h = idle refl (remaining-update_tickers c s)
step-remaining c (from_err_ch none) s h = ground arith
step-remaining c (from_err_ch (some e)) s h = ground arith
step-remaining c done s h = ground arith

rounds-budget :
    (events : List (Config × Event)) (s : Loop)
    → All (λ x. KeepsLease x.1) events
    → performance_exports (rounds events s).0 ≤ budget s.collected_on_leader_acquired
unfolding rounds
rounds-budget [] s h = ground arith
rounds-budget ((c, e) ∷ rest) s (h, k) =
    by_outcome (λ v. rounds-budget rest v k) (step c e s).1 refl (step-remaining c e s h)
  where
    by_outcome :
        ((v : Loop) → performance_exports (rounds rest v).0 ≤ budget v.collected_on_leader_acquired)
        → (o : Outcome) → (step c e s).1 ≡ o
        → performance_exports (step c e s).0 + remaining (step c e s).1
          ≤ budget s.collected_on_leader_acquired
        → performance_exports (rounds ((c, e) ∷ rest) s).0 ≤ budget s.collected_on_leader_acquired
    by_outcome g (continues v) i b =
        rw (rounds, i, performance_exports-append (step c e s).0 (rounds rest v).0)
          (grind (arith, g v, ap remaining i))
    by_outcome g (returns x) i b = rw (rounds, i) (grind arith)
    by_outcome g panics i b = rw (rounds, i) (grind arith)

-- While the lease is not seen lost, performance metrics are exported at most once, however many rounds
-- the loop makes and however many ticks of the performance ticker go by.
pub rounds_performance_once :
    (events : List (Config × Event)) (s : Loop)
    → All (λ x. KeepsLease x.1) events
    → performance_exports (rounds events s).0 ≤ 1
rounds_performance_once events s h = grind (arith, rounds-budget events s h)
