-- ===== src/Service/Instances.antt =====
-- `CreateCapacityMetricsInstance` and its two siblings, and the export of a service: each collector
-- is made once, from the service as it then is, and lives as long as the process. The lock makes the
-- second test the one that counts.
use csm_metrics_powermax.Prelude.{
  Error, codes, ◌≡◌, ◌≢◌, refl, List, ◌++◌, Option, none, some, arith,
}
use csm_metrics_powermax.Prelude.Dict.{Dict}
use csm_metrics_powermax.Metric.Base.{BaseMetrics, Collector, export_metrics}
use csm_metrics_powermax.Metric.Types.{PowerMaxArray}
use csm_metrics_powermax.Service.Clients.{
  PowerMaxService, get_powermax_clients, set_powermax_clients, new_base_metrics,
}

-- The collector that an instance makes for its base: what it does depends on the base alone.
module _ {F W Recorder Finder : Type 0}
    (collector : PowerMaxService F Recorder Finder → Collector W) where
  abbrev pub Instance : Type 0
  Instance = Option (BaseMetrics F W Recorder Finder)

  unfoldable pub create_instance :
      PowerMaxService F Recorder Finder → Instance → BaseMetrics F W Recorder Finder
  create_instance s none = new_base_metrics s (collector s)
  create_instance s (some base) = base

  -- `Export…Metrics`, without the self-metrics: the error, the world and the instance afterwards.
  unfoldable pub export :
      PowerMaxService F Recorder Finder → Instance → W → Option Error × W × Instance
  export s instance_ w =
      let base = create_instance s instance_ in
      let (e, w') = export_metrics base w in (e, w', some base)

  -- New connections do not reach a collector that has been made: after an export, the next export
  -- is the same whatever clients are set in between.
  pub export-set_powermax_clients :
      (s : PowerMaxService F Recorder Finder) (i : Instance) (w v : W)
      (clients : Option (Dict (List (PowerMaxArray F))))
      → let i' = (export s i w).2 in export (set_powermax_clients s clients) i' v ≡ export s i' v
  unfolding export create_instance
  export-set_powermax_clients s none w v clients = refl
  export-set_powermax_clients s (some base) w v clients = refl

  -- A first export before any connection is known makes every later export fail, however many
  -- connections are set in the meantime.
  pub export_before_clients :
      (s : PowerMaxService F Recorder Finder) (w v : W)
      (clients : Option (Dict (List (PowerMaxArray F))))
      → s.metrics_recorder ≢ none
      → s.powermax_clients ≡ none
      → (export (set_powermax_clients s clients) (export s none w).2 v).0
        ≡ some (codes "no PowerMaxClients provided for " ++ (collector s).type_name)
  unfolding export create_instance new_base_metrics export_metrics get_powermax_clients
  export_before_clients s w v clients recorder missing = ground arith
