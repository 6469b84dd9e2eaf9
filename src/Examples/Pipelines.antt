-- ===== src/Examples/Pipelines.antt =====
-- The topology collection of two volumes, of which the recorder accepts the first.
use mathlib.Core.List.{Perm}
use csm_metrics_powermax.Prelude.{
  Error, codes, text_eq, List, [], ◌∷◌, Option, none, some, true, false, ◌≡◌, refl,
}
use csm_metrics_powermax.Examples.Data.{volume1, volume2}
use csm_metrics_powermax.K8s.Volumes.{VolumeInfo}
use csm_metrics_powermax.Metric.Pipeline.{
  Line, accept, close_gather, close_push, hand, here, next, refuse, take,
}
use csm_metrics_powermax.Metric.Topology.{
  gather_topology_metrics, push_topology_metrics, topology_record,
}
use csm_metrics_powermax.Metric.Topology.Schedules.{
  TopologyReach, topology_closed, topology_finishes,
}
use csm_metrics_powermax.Metric.Types.{TopologyMeta, TopologyMetricsRecord}

abbrev recorder : TopologyMeta → TopologyMetricsRecord → Option Error
recorder meta r = elim (text_eq meta.persistent_volume (codes "pv1")) [
  | true ↦ none
  | false ↦ some (codes "no meter")
]

abbrev pvs : List VolumeInfo
pvs = volume1 ∷ volume2 ∷ []

abbrev State : Type 0
State = Line VolumeInfo TopologyMetricsRecord TopologyMetricsRecord

abbrev both_taken : State
both_taken = record {
  served = [];
  gathering = volume2 ∷ volume1 ∷ [];
  gather_closed = false;
  pushing = [];
  push_closed = false;
  sent = [];
}

taken : TopologyReach recorder pvs both_taken
taken = next (next here (take volume1 (volume2 ∷ []) refl refl)) (take volume2 [] refl refl)

topology_finishes_example :
    (t : State) × TopologyReach recorder pvs t
    × (t.push_closed ≡ true)
    × Perm t.sent (push_topology_metrics recorder (gather_topology_metrics pvs))
topology_finishes_example = topology_finishes recorder pvs taken

abbrev all_closed : State
all_closed = record {
  served = [];
  gathering = [];
  gather_closed = true;
  pushing = [];
  push_closed = true;
  sent = topology_record volume1 ∷ [];
}

-- The second volume overtakes the first.
overtaking : TopologyReach recorder pvs all_closed
unfolding text_eq topology_record
overtaking =
    next
      (next
        (next
          (next
            (next (next taken (hand [] volume2 (volume1 ∷ []) refl refl))
              (refuse [] (topology_record volume2) [] refl refl refl))
            (hand [] volume1 [] refl refl))
          (accept [] (topology_record volume1) [] (topology_record volume1) refl refl refl))
        (close_gather refl refl refl refl))
      (close_push refl refl refl refl)

topology_closed_example :
    Perm all_closed.sent (push_topology_metrics recorder (gather_topology_metrics pvs))
topology_closed_example = topology_closed recorder pvs overtaking refl
