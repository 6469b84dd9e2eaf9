-- ===== src/Examples/Exports.antt =====
-- The loop acting on collectors that count their collections.
use csm_metrics_powermax.Prelude.{ℕ, Text, codes, List, [], ◌∷◌, none, ◌≡◌, refl, ◌+◌}
use csm_metrics_powermax.Entrypoint.Config.{Config, validate_config}
use csm_metrics_powermax.Entrypoint.Loop.{
  called, Event, leader_check, liveness_probe_tick, rounds, run, start, step, check_leader,
  update_tickers, update_capacity, update_performance, update_topology, export_capacity_metrics,
  validate_powermax_arrays,
}
use csm_metrics_powermax.Entrypoint.Probe
use csm_metrics_powermax.Examples.Data.{service, whole}
use csm_metrics_powermax.Examples.Loops.{config, following, quiet}
use csm_metrics_powermax.Metric.Base.{Collector}
use csm_metrics_powermax.Pmax.Connect.{authenticate}
use csm_metrics_powermax.Service.Clients.{
  PowerMaxService, get_powermax_clients, set_powermax_clients,
}
use csm_metrics_powermax.Service.Exports.{
  Call, Collectors, Exports, perform, perform_all, export_capacity,
}
use csm_metrics_powermax.Service.Exports.Rounds.{follower_idle}
use csm_metrics_powermax.Service.Exports.Singletons.{AreSingletons, collectors_stay}

abbrev counter : PowerMaxService ℕ Text Text → Collector ℕ
counter s = record { type_name = codes "counter"; collect = λ n. (none, 1 + n) }

abbrev counters : Collectors ℕ ℕ Text Text
counters = record { capacity = counter; performance = counter; topology = counter }

abbrev nothing_yet : Exports ℕ ℕ Text Text
nothing_yet = record {
  capacity_instance = none;
  performance_instance = none;
  topology_instance = none;
  world = 0;
  samples = [];
}

-- A leader check that is answered no, and a tick of the probe.
abbrev events : List (Config × Event)
events = (config, leader_check following) ∷ (config, liveness_probe_tick) ∷ []

abbrev probe_call : Call ℕ Text Text
probe_call = record { action = validate_powermax_arrays; service = service; elapsed = 1 }

follower_idle_example : nothing_yet ≡ nothing_yet
unfolding rounds run called start step check_leader update_tickers update_capacity
    update_performance update_topology validate_config perform perform_all get_powermax_clients
    Probe.validate_powermax_arrays Probe.probe Probe.probe_list authenticate
follower_idle_example =
    follower_idle whole counters quiet config events (probe_call ∷ []) nothing_yet
      ((refl, refl, refl), (tt, tt)) refl refl

-- A capacity export, and one more on a service that has lost its clients.
abbrev capacity_call : Call ℕ Text Text
capacity_call = record { action = export_capacity_metrics; service = service; elapsed = 1 }

abbrev after_one : Exports ℕ ℕ Text Text
after_one = export_capacity whole counters 1 service nothing_yet

abbrev two_exports : List (Call ℕ Text Text)
two_exports =
    capacity_call ∷ record capacity_call { service = set_powermax_clients service none } ∷ []

collectors_stay_example :
    AreSingletons whole counters two_exports nothing_yet
      (export_capacity whole counters 1 (set_powermax_clients service none) after_one)
unfolding perform perform_all
collectors_stay_example = collectors_stay whole counters two_exports nothing_yet refl
