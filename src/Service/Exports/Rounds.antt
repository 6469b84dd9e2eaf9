-- ===== src/Service/Exports/Rounds.antt =====
-- The loop of internal/entrypoint/run.go acting on the collectors of the service.
use csm_metrics_powermax.Prelude.{
  List, [], ◌∷◌, ◌++◌, Bool-cases, map, Bool, true, false, some, ◌≡◌, refl, sym, subst, arith, All,
  All-append, inl, inr, Option-cases, get_or_default, ◌∙◌,
}
use csm_metrics_powermax.Prelude.Float.{Float64}
use csm_metrics_powermax.Entrypoint.Config.{Config, validate_config}
use csm_metrics_powermax.Entrypoint.Leadership.{IsAllowed, step-IsAllowed}
use csm_metrics_powermax.Entrypoint.Loop.{
  Action, Event, Loop, Outcome, continues, returns, panics, leader_check, capacity_tick,
  performance_tick, topology_metrics_tick, liveness_probe_tick, from_err_ch, done, step, rounds,
  run, start, Callees, called, deferred, export_capacity_metrics, export_performance_metrics,
  export_topology_metrics, validate_powermax_arrays, stop_exporter,
}
use csm_metrics_powermax.Entrypoint.Probe
use csm_metrics_powermax.Exporter.{Ended}
use csm_metrics_powermax.Service.Clients.{get_powermax_clients}
use csm_metrics_powermax.Service.Exports.{Call, Collectors, Exports, perform, perform_all}

-- Does the call collect?
abbrev collects : Action → Bool
collects validate_powermax_arrays = false
collects stop_exporter = false
collects _ = true

-- The elector does not answer any collection of the event that this pod is the leader.
abbrev pub IsFollower : Event → Type 0
IsFollower (leader_check r) =
    (r.at_capacity ≡ false) × (r.at_performance ≡ false) × (r.at_topology ≡ false)
IsFollower (capacity_tick b) = b ≡ false
IsFollower (topology_metrics_tick b) = b ≡ false
IsFollower _ = Unit {0}

abbrev Quiet : Action → Type 0
Quiet a = collects a ≡ false

allowed-Quiet : (c : Config) (e : Event) (a : Action) → IsFollower e → IsAllowed c e a → Quiet a
allowed-Quiet c e validate_powermax_arrays h k = refl
allowed-Quiet c e stop_exporter h k = refl
allowed-Quiet c (leader_check r) export_capacity_metrics h (k, _) = ground arith
allowed-Quiet c (leader_check r) export_performance_metrics h (k, _) = ground arith
allowed-Quiet c (leader_check r) export_topology_metrics h (k, _) = ground arith
allowed-Quiet c (capacity_tick b) export_capacity_metrics h (k, _) = ground arith
allowed-Quiet c (capacity_tick b) export_performance_metrics h (k, _) = ground arith
allowed-Quiet c (capacity_tick b) export_topology_metrics h (k, _) = ground arith
allowed-Quiet c performance_tick a h (k, _) = ground arith
allowed-Quiet c (topology_metrics_tick b) export_capacity_metrics h (k, _) = ground arith
allowed-Quiet c (topology_metrics_tick b) export_performance_metrics h (k, _) = ground arith
allowed-Quiet c (topology_metrics_tick b) export_topology_metrics h (k, _) = ground arith
allowed-Quiet c liveness_probe_tick export_capacity_metrics h (k, _) = ground arith
allowed-Quiet c liveness_probe_tick export_performance_metrics h (k, _) = ground arith
allowed-Quiet c liveness_probe_tick export_topology_metrics h (k, _) = ground arith
allowed-Quiet c (from_err_ch o) a h (k, _) = ground arith
allowed-Quiet c done a h (k, _) = ground arith

All-Quiet :
    (c : Config) (e : Event) (acts : List Action)
    → IsFollower e
    → All (IsAllowed c e) acts
    → All Quiet acts
All-Quiet c e [] h k = tt
All-Quiet c e (a ∷ acts) h (k, ks) = (allowed-Quiet c e a h k, All-Quiet c e acts h ks)

rounds-Quiet :
    (events : List (Config × Event)) (s : Loop)
    → All (λ x. IsFollower x.1) events
    → All Quiet (rounds events s).0
unfolding rounds
rounds-Quiet [] s h = tt
rounds-Quiet ((c, e) ∷ rest) s (h, hs) = go (step c e s).1 refl (λ t. rounds-Quiet rest t hs)
  where
    first : All Quiet (step c e s).0
    first = All-Quiet c e (step c e s).0 h (step-IsAllowed c e s)

    go :
        (o : Outcome)
        → (step c e s).1 ≡ o
        → ((t : Loop) → All Quiet (rounds rest t).0)
        → All Quiet (rounds ((c, e) ∷ rest) s).0
    go (continues t) q ih =
        rw (q, rounds) (All-append Quiet (step c e s).0 (rounds rest t).0 first (ih t))
    go (returns e') q ih = rw (q, rounds) first
    go panics q ih = rw (q, rounds) first

called-Quiet :
    (call_panics : List Action → Action → Bool) (before actions : List Action) (end : Outcome)
    → All Quiet actions
    → All Quiet (called call_panics before actions end).0
unfolding called
called-Quiet call_panics before [] end h = tt
called-Quiet call_panics before (a ∷ actions) end (h, hs) =
    elim (Bool-cases (call_panics before a)) [
      | inl e ↦ rw (called, e) (h, tt)
      | inr e ↦ rw (called, e) (h, called-Quiet call_panics (before ++ a ∷ []) actions end hs)
    ]

deferred-Quiet :
    (stop : Ended) (r : List Action × Outcome) → All Quiet r.0 → All Quiet (deferred stop r).0
deferred-Quiet stop (acts, continues s) h = h
deferred-Quiet stop (acts, returns e) h = All-append Quiet acts (stop_exporter ∷ []) h (refl, tt)
deferred-Quiet stop (acts, panics) h = All-append Quiet acts (stop_exporter ∷ []) h (refl, tt)

run-Quiet :
    (callees : Callees) (c : Config) (events : List (Config × Event))
    → All (λ x. IsFollower x.1) events
    → All Quiet (run callees (some c) events).0
unfolding run
run-Quiet callees c events h = elim (Option-cases (validate_config (some c))) [
  | inl e ↦ elim (Option-cases (start c)) [
    | inl f ↦ rw (run, e) (rw f (refl, tt))
    | inr (s, f) ↦
        rw (run, e)
          (rw f (
            deferred-Quiet callees.stop _ (
              called-Quiet callees.call_panics [] (rounds events s).0 (rounds events s).1
                (rounds-Quiet events s h))))
  ]
  | inr (x, e) ↦ rw (run, e) tt
]

module _ {F W Recorder Finder : Type 0} (fl : Float64 F)
    (make : Collectors F W Recorder Finder) where
  perform-Quiet :
      (c : Call F Recorder Finder) (x : Exports F W Recorder Finder)
      {y : Exports F W Recorder Finder}
      → Quiet c.action
      → perform fl make c.elapsed c.service c.action x ≡ some y
      → x ≡ y
  unfolding perform
  perform-Quiet c x {y} h k = by_action c.action h k
    where
      by_action : (a : Action) → Quiet a → perform fl make c.elapsed c.service a x ≡ some y → x ≡ y
      by_action validate_powermax_arrays q r =
          elim (Option-cases
            (Probe.validate_powermax_arrays (get_or_default [] (get_powermax_clients c.service)))) [
              | inl e ↦ absurd (ground arith)
              | inr (m, e) ↦ ground arith
            ]
      by_action stop_exporter q r = ground arith
      by_action export_capacity_metrics q r = cc
      by_action export_performance_metrics q r = cc
      by_action export_topology_metrics q r = cc

  perform_all-Quiet :
      (calls : List (Call F Recorder Finder)) (x : Exports F W Recorder Finder)
      {y : Exports F W Recorder Finder}
      → All Quiet (map (λ c. c.action) calls)
      → perform_all fl make calls x ≡ some y
      → x ≡ y
  unfolding perform_all
  perform_all-Quiet [] x h k = ground arith
  perform_all-Quiet (c ∷ rest) x {y} (h, hs) k =
      elim (Option-cases (perform fl make c.elapsed c.service c.action x)) [
        | inl e ↦ absurd (ground arith)
        | inr (z, e) ↦
            let same : x ≡ z = perform-Quiet c x h e in
            same ∙ perform_all-Quiet rest z hs (ground arith)
      ]

  -- The loop of a pod that is never answered to be the leader, in a run of any length and with any
  -- configurations, neither makes a collector nor collects nor records the self-metrics of an
  -- export: whatever the service is at each of the loop's calls, the collectors, the world and these
  -- self-metrics stay as they were, unless the liveness probe panics. What the exporter's own
  -- failure callback records beside the loop is not part of it.
  pub follower_idle :
      (callees : Callees) (config : Config) (events : List (Config × Event))
      (calls : List (Call F Recorder Finder)) (x : Exports F W Recorder Finder)
      {y : Exports F W Recorder Finder}
      → All (λ e. IsFollower e.1) events
      → map (λ c. c.action) calls ≡ (run callees (some config) events).0
      → perform_all fl make calls x ≡ some y
      → x ≡ y
  follower_idle callees config events calls x h e k =
      perform_all-Quiet calls x (subst (All Quiet) (sym e) (run-Quiet callees config events h)) k
