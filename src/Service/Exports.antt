-- ===== src/Service/Exports.antt =====
-- The three `Export…Metrics` functions of internal/service/service.go with their self-metrics, and what
-- the loop of internal/entrypoint/run.go does through them.
pub mod Rounds
pub mod Singletons
use csm_metrics_powermax.Prelude.{Error, List, [], ◌∷◌, ◌++◌, Option, none, some, get_or_default}
use csm_metrics_powermax.Prelude.Float.{Float64}
use csm_metrics_powermax.Entrypoint.Loop.{
  Action, export_capacity_metrics, export_performance_metrics, export_topology_metrics,
  validate_powermax_arrays, stop_exporter,
}
use csm_metrics_powermax.Entrypoint.Probe
use csm_metrics_powermax.Metric.Base.{BaseMetrics, Collector}
use csm_metrics_powermax.Service.Clients.{PowerMaxService, get_powermax_clients}
use csm_metrics_powermax.Service.Instances.{export}
use csm_metrics_powermax.Service.Observability.{Sample, record_obs_metrics}

-- The makers of the three collectors, from the service as it is when the first export runs.
pub record Collectors (F W Recorder Finder : Type 0) : Type 0 where
  pub capacity : PowerMaxService F Recorder Finder → Collector W
  pub performance : PowerMaxService F Recorder Finder → Collector W
  pub topology : PowerMaxService F Recorder Finder → Collector W

-- The singletons of package metric, the world that collections change, and the self-metrics that the exports
-- have recorded. Those of the exporter's failure callback (Entrypoint.Probe) are not among them.
pub record Exports (F W Recorder Finder : Type 0) : Type 0 where
  pub capacity_instance : Option (BaseMetrics F W Recorder Finder)
  pub performance_instance : Option (BaseMetrics F W Recorder Finder)
  pub topology_instance : Option (BaseMetrics F W Recorder Finder)
  pub world : W
  pub samples : List (Sample F)

-- A call of the loop, with the service as it then is and the time that the call takes.
pub record Call (F Recorder Finder : Type 0) : Type 0 where
  pub action : Action
  pub service : PowerMaxService F Recorder Finder
  pub elapsed : F

module _ {F W Recorder Finder : Type 0} (fl : Float64 F)
    (make : Collectors F W Recorder Finder) where
  -- `elapsed` is the time that the export took.
  unfoldable pub export_capacity :
      F
      → PowerMaxService F Recorder Finder
      → Exports F W Recorder Finder
      → Exports F W Recorder Finder
  export_capacity elapsed s x =
      let (e, w, i) = export make.capacity s x.capacity_instance x.world in
      record x {
        capacity_instance = i;
        world = w;
        samples = x.samples ++ record_obs_metrics fl s elapsed e;
      }

  unfoldable pub export_performance :
      F
      → PowerMaxService F Recorder Finder
      → Exports F W Recorder Finder
      → Exports F W Recorder Finder
  export_performance elapsed s x =
      let (e, w, i) = export make.performance s x.performance_instance x.world in
      record x {
        performance_instance = i;
        world = w;
        samples = x.samples ++ record_obs_metrics fl s elapsed e;
      }

  unfoldable pub export_topology :
      F
      → PowerMaxService F Recorder Finder
      → Exports F W Recorder Finder
      → Exports F W Recorder Finder
  export_topology elapsed s x =
      let (e, w, i) = export make.topology s x.topology_instance x.world in
      record x {
        topology_instance = i;
        world = w;
        samples = x.samples ++ record_obs_metrics fl s elapsed e;
      }

  -- One call of the loop, on the service as it then is; `none` is a panic of the liveness probe, whose
  -- results are lost. Stopping the exporter is no call of the service.
  unfoldable pub perform :
      F
      → PowerMaxService F Recorder Finder
      → Action
      → Exports F W Recorder Finder
      → Option (Exports F W Recorder Finder)
  perform elapsed s export_capacity_metrics x = some (export_capacity elapsed s x)
  perform elapsed s export_performance_metrics x = some (export_performance elapsed s x)
  perform elapsed s export_topology_metrics x = some (export_topology elapsed s x)
  perform elapsed s validate_powermax_arrays x =
      elim (Probe.validate_powermax_arrays (get_or_default [] (get_powermax_clients s))) [
        | none ↦ none
        | some _ ↦ some x
      ]
  perform elapsed s stop_exporter x = some x

  -- The calls one after the other.
  unfoldable pub perform_all :
      List (Call F Recorder Finder)
      → Exports F W Recorder Finder
      → Option (Exports F W Recorder Finder)
  perform_all [] x = some x
  perform_all (c ∷ rest) x = elim (perform c.elapsed c.service c.action x) [
    | none ↦ none
    | some y ↦ perform_all rest y
  ]
