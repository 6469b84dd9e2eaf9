-- ===== src/Entrypoint/Leadership.antt =====
-- The collections of `Run` (internal/entrypoint/run.go) and the leader lease.
use csm_metrics_powermax.Prelude.{
  List, [], ◌∷◌, ◌++◌, Bool, true, false, not, ◌&&◌, none, some, ◌≡◌, refl, arith, All, sym, ap,
  ◌∙◌, subst, if◌then◌else◌,
}
use csm_metrics_powermax.Entrypoint.Config.{Config}
use csm_metrics_powermax.Entrypoint.Loop.{
  Action, Event, Loop, Outcome, continues, returns, panics, Readings, leader_check, capacity_tick,
  performance_tick, topology_metrics_tick, liveness_probe_tick, from_err_ch, done, step, rounds,
  start, update_tickers, check_leader, acquire, ◌then_continue◌, collect_capacity_metrics,
  after_loss, collect_performance_metrics, collect_topology_metrics, export_capacity_metrics,
  export_performance_metrics, export_topology_metrics, validate_powermax_arrays,
}
use csm_metrics_powermax.Entrypoint.Tickers.{Keeps, update_tickers_flags}

-- What the elector answered when a collection of an event asked it.
abbrev pub answered : Event → Action → Bool
answered (leader_check r) export_capacity_metrics = r.at_capacity
answered (leader_check r) export_performance_metrics = r.at_performance
answered (leader_check r) export_topology_metrics = r.at_topology
answered (capacity_tick b) export_capacity_metrics = b
answered (topology_metrics_tick b) export_topology_metrics = b
answered liveness_probe_tick validate_powermax_arrays = true
answered _ _ = false

abbrev pub enabled : Config → Action → Bool
enabled c export_capacity_metrics = c.capacity_metrics_enabled
enabled c export_performance_metrics = c.performance_metrics_enabled
enabled c export_topology_metrics = c.topology_metrics_enabled
enabled c _ = true

abbrev pub IsAllowed : Config → Event → Action → Type 0
IsAllowed c e a = (answered e a ≡ true) × (enabled c a ≡ true)

check_leader-IsAllowed :
    (c : Config) (r : Readings) (s : Loop)
    → All (IsAllowed c (leader_check r)) (check_leader c r s).0
unfolding check_leader acquire collect_capacity_metrics collect_performance_metrics
    collect_topology_metrics
check_leader-IsAllowed c r s = ground arith

-- A round exports a kind of metrics only if that kind is enabled and the elector has just answered that
-- this pod is the leader, and probes the arrays only on the tick of the probe.
pub step-IsAllowed : (c : Config) (e : Event) (s : Loop) → All (IsAllowed c e) (step c e s).0
unfolding step collect_capacity_metrics collect_topology_metrics
step-IsAllowed c (leader_check r) s = check_leader-IsAllowed c r s
step-IsAllowed c (capacity_tick b) s = ground arith
step-IsAllowed c performance_tick s = tt
step-IsAllowed c (topology_metrics_tick b) s = ground arith
step-IsAllowed c liveness_probe_tick s = ((refl, refl), tt)
step-IsAllowed c (from_err_ch none) s = tt
step-IsAllowed c (from_err_ch (some e)) s = tt
step-IsAllowed c done s = tt

-- Collected metrics mean that the lease was held.
abbrev IsConsistent : Outcome → Type 0
IsConsistent (continues s) = (s.collected_on_leader_acquired && not s.was_leader) ≡ false
IsConsistent _ = Unit {0}

Keeps-IsConsistent :
    (o : Outcome) (a b : Bool) → Keeps o a b → (a && not b) ≡ false → IsConsistent o
Keeps-IsConsistent (continues s) a b (h, k) l = ground arith
Keeps-IsConsistent (returns e) a b h l = tt
Keeps-IsConsistent panics a b h l = tt

update_tickers-IsConsistent :
    (c : Config) (s : Loop) → IsConsistent (continues s) → IsConsistent (update_tickers c s)
update_tickers-IsConsistent c s h =
    Keeps-IsConsistent (update_tickers c s) s.collected_on_leader_acquired s.was_leader
      (update_tickers_flags c s) h

then-IsConsistent :
    (c : Config) (o : Outcome) → IsConsistent o → IsConsistent (o then_continue update_tickers c)
then-IsConsistent c (continues s) h = update_tickers-IsConsistent c s h
then-IsConsistent c (returns e) h = h
then-IsConsistent c panics h = h

check_leader-IsConsistent :
    (c : Config) (r : Readings) (s : Loop)
    → IsConsistent (continues s)
    → IsConsistent (check_leader c r s).1
unfolding check_leader acquire
check_leader-IsConsistent c r s h = ground arith

step-IsConsistent :
    (c : Config) (e : Event) (s : Loop) → IsConsistent (continues s) → IsConsistent (step c e s).1
unfolding step
step-IsConsistent c (leader_check r) s h =
    then-IsConsistent c (check_leader c r s).1 (check_leader-IsConsistent c r s h)
step-IsConsistent c (capacity_tick b) s h = update_tickers-IsConsistent c _ h
step-IsConsistent c performance_tick s h = update_tickers-IsConsistent c _ h
step-IsConsistent c (topology_metrics_tick b) s h = update_tickers-IsConsistent c _ h
step-IsConsistent c liveness_probe_tick s h = update_tickers-IsConsistent c _ h
step-IsConsistent c (from_err_ch none) s h = h
step-IsConsistent c (from_err_ch (some e)) s h = tt
step-IsConsistent c done s h = tt

rounds-IsConsistent :
    (events : List (Config × Event)) (s : Loop)
    → IsConsistent (continues s)
    → IsConsistent (rounds events s).1
unfolding rounds
rounds-IsConsistent [] s h = h
rounds-IsConsistent ((c, e) ∷ rest) s h =
    by_outcome (rounds-IsConsistent rest) (step c e s).1 refl (step-IsConsistent c e s h)
  where
    by_outcome :
        ((v : Loop) → IsConsistent (continues v) → IsConsistent (rounds rest v).1)
        → (o : Outcome) → (step c e s).1 ≡ o
        → IsConsistent (step c e s).1
        → IsConsistent (rounds ((c, e) ∷ rest) s).1
    by_outcome g (continues v) i b = rw (rounds, i) (g v (subst IsConsistent i b))
    by_outcome g (returns x) i b = rw (rounds, i) tt
    by_outcome g panics i b = rw (rounds, i) tt

start-IsConsistent : (c : Config) (s : Loop) → start c ≡ some s → IsConsistent (continues s)
unfolding start
start-IsConsistent c s h = ground arith

-- The elector keeps the lease through a leader check, and the context is not done.
abbrev pub HoldsLease : Readings → Type 0
HoldsLease r =
    (r.is_leader ≡ true)
    × (r.at_capacity ≡ true)
    × (r.at_performance ≡ true)
    × (r.at_topology ≡ true)
    × (r.done_after_capacity ≡ false)
    × (r.done_after_performance ≡ false)

not_leader :
    (c : Config) (r : Readings) (s : Loop)
    → IsConsistent (continues s)
    → r.is_leader ≡ false
    → (check_leader c r s ≡ ([], continues (after_loss r s)))
      × ((after_loss r s).collected_on_leader_acquired ≡ false)
unfolding check_leader
not_leader c r s h k = (ground arith, ground arith)

lost_not_collected :
    (c : Config) (r : Readings) (s v : Loop)
    → IsConsistent (continues s)
    → r.is_leader ≡ false
    → (step c (leader_check r) s).1 ≡ continues v
    → v.collected_on_leader_acquired ≡ false
unfolding step
lost_not_collected c r s v h k e =
    let (i, j) = not_leader c r s h k in
    let updated : update_tickers c (after_loss r s) ≡ continues v =
      ap (λ x. x.1 then_continue update_tickers c) (sym i) ∙ e in
    (subst (λ o. Keeps o (after_loss r s).collected_on_leader_acquired (after_loss r s).was_leader)
      updated (update_tickers_flags c (after_loss r s))).0
    ∙ j

-- In any run that has not ended, after a leader check that sees that this pod is not the leader, a next
-- round whose check sees it as the leader, stays so throughout and is not cancelled, collects every kind
-- of metrics that is enabled: capacity, then performance, then topology.
pub reelection_collects :
    (c0 c1 c2 : Config) (s0 s v : Loop) (events : List (Config × Event)) (lost regained : Readings)
    → start c0 ≡ some s0
    → (rounds events s0).1 ≡ continues s
    → (step c1 (leader_check lost) s).1 ≡ continues v
    → lost.is_leader ≡ false
    → HoldsLease regained
    → (step c2 (leader_check regained) v).0
      ≡ (if c2.capacity_metrics_enabled then export_capacity_metrics ∷ [] else [])
        ++ (if c2.performance_metrics_enabled then export_performance_metrics ∷ [] else [])
        ++ (if c2.topology_metrics_enabled then export_topology_metrics ∷ [] else [])
unfolding step check_leader acquire collect_capacity_metrics collect_performance_metrics
    collect_topology_metrics
reelection_collects c0 c1 c2 s0 s v events lost regained h i j k l =
    let consistent : IsConsistent (continues s) =
      subst IsConsistent i (rounds-IsConsistent events s0 (start-IsConsistent c0 s0 h)) in
    let fresh : v.collected_on_leader_acquired ≡ false =
      lost_not_collected c1 lost s v consistent k j in
    ground arith
