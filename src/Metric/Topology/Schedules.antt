-- ===== src/Metric/Topology/Schedules.antt =====
-- `Collect` of internal/service/metric/topology_metrics.go under every schedule of its goroutines.
use mathlib.Core.List.{Perm}
use csm_metrics_powermax.Prelude.{
  Error, ◌≡◌, List, Option, none, some, true, filter_map, filter_map-map,
}
use csm_metrics_powermax.K8s.Volumes.{VolumeInfo}
use csm_metrics_powermax.Metric.Pipeline.{Line, LineReach}
use csm_metrics_powermax.Metric.Pipeline.Closed.{line_closed}
use csm_metrics_powermax.Metric.Pipeline.Progress.{line_finishes}
use csm_metrics_powermax.Metric.Topology.{
  topology_record, gather_topology_metrics, push_topology_metrics,
}
use csm_metrics_powermax.Metric.Types.{TopologyMeta, TopologyMetricsRecord}

module _ (recorder : TopologyMeta → TopologyMetricsRecord → Option Error) where
  -- What the goroutine of a record sends on.
  abbrev pub recorded : TopologyMetricsRecord → Option TopologyMetricsRecord
  recorded r = elim (recorder r.topology_meta r) [ none ↦ some r | some _ ↦ none ]

  abbrev pub TopologyReach :
      List VolumeInfo → Line VolumeInfo TopologyMetricsRecord TopologyMetricsRecord → Type 0
  TopologyReach pvs s = LineReach topology_record recorded pvs s

  in_turn :
      (pvs : List VolumeInfo)
      → push_topology_metrics recorder (gather_topology_metrics pvs)
        ≡ filter_map (λ v. recorded (topology_record v)) pvs
  unfolding push_topology_metrics gather_topology_metrics
  in_turn pvs = filter_map-map topology_record recorded pvs

  -- However the goroutines of both stages are scheduled, when the last channel is closed `Collect`
  -- has received what it receives if the volumes are served one after the other: the record of each
  -- volume that the recorder accepts, each exactly once, up to order.
  pub topology_closed :
      (pvs : List VolumeInfo) {s : Line VolumeInfo TopologyMetricsRecord TopologyMetricsRecord}
      → TopologyReach pvs s
      → s.push_closed ≡ true
      → Perm s.sent (push_topology_metrics recorder (gather_topology_metrics pvs))
  topology_closed pvs r c = rw (in_turn pvs) (line_closed topology_record recorded pvs r c)

  -- The topology collection never gets stuck: from wherever a schedule has led, the last channel can
  -- still be closed, and `Collect` has then received the record of each volume that the recorder
  -- accepts, each exactly once, up to order.
  pub topology_finishes :
      (pvs : List VolumeInfo) {s : Line VolumeInfo TopologyMetricsRecord TopologyMetricsRecord}
      → TopologyReach pvs s
      → (t : Line VolumeInfo TopologyMetricsRecord TopologyMetricsRecord) × TopologyReach pvs t
        × (t.push_closed ≡ true)
        × Perm t.sent (push_topology_metrics recorder (gather_topology_metrics pvs))
  topology_finishes pvs r =
      let (t, q, c, p) = line_finishes topology_record recorded pvs r in
      (t, q, c, rw (in_turn pvs) p)
