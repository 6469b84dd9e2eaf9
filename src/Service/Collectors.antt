-- ===== src/Service/Collectors.antt =====
-- `NewPerformanceMetrics`, `CreatePerformanceMetricsInstance` and `CreateTopologyMetricsInstance` of
-- internal/service/metric: a performance collector is made with a cache of its own.
use csm_metrics_powermax.Prelude.{Text, [], Option, none, some, ℕ, ◌≡◌, refl}
use csm_metrics_powermax.Metric.Base.{BaseMetrics, Collector}
use csm_metrics_powermax.Metric.Performance.SgCache.{SgCountCache, fresh_count}
use csm_metrics_powermax.Prelude.Dict.{lookup}
use csm_metrics_powermax.Service.Clients.{PowerMaxService, new_base_metrics}

pub record PerformanceMetrics (F W Recorder Finder : Type 0) : Type 0 where
  pub base : BaseMetrics F W Recorder Finder
  pub sg_count_cache : SgCountCache

module _ {F W Recorder Finder : Type 0} where
  unfoldable pub new_performance_metrics :
      BaseMetrics F W Recorder Finder → PerformanceMetrics F W Recorder Finder
  new_performance_metrics base = record { base = base; sg_count_cache = some [] }

  -- The lock makes the second test of the singleton the one that counts.
  unfoldable pub create_performance_metrics_instance :
      (PowerMaxService F Recorder Finder → Collector W)
      → PowerMaxService F Recorder Finder
      → Option (PerformanceMetrics F W Recorder Finder)
      → PerformanceMetrics F W Recorder Finder
  create_performance_metrics_instance collector s none =
      new_performance_metrics (new_base_metrics s (collector s))
  create_performance_metrics_instance collector s (some m) = m

  unfoldable pub create_topology_metrics_instance :
      (PowerMaxService F Recorder Finder → Collector W)
      → PowerMaxService F Recorder Finder
      → Option (BaseMetrics F W Recorder Finder)
      → BaseMetrics F W Recorder Finder
  create_topology_metrics_instance collector s none = new_base_metrics s (collector s)
  create_topology_metrics_instance collector s (some base) = base

  -- A new collector has counted no array yet.
  create_performance_metrics_instance_lem :
      (collector : PowerMaxService F Recorder Finder → Collector W)
      (s : PowerMaxService F Recorder Finder) (a : Text) (now : ℕ)
      → fresh_count (create_performance_metrics_instance collector s none).sg_count_cache a now
        ≡ none
  unfolding create_performance_metrics_instance new_performance_metrics fresh_count lookup
  create_performance_metrics_instance_lem collector s a now = refl
