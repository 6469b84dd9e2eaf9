-- ===== src/Metric/Topology.antt =====
-- internal/service/metric/topology_metrics.go: one record for each persistent volume.
pub mod Schedules
use csm_metrics_powermax.Prelude.{
  Error, Result, ok, err, ◌≡◌, refl, List, [], ◌∷◌, map, Option, none, some, filter_map, arith, ap,
}
use csm_metrics_powermax.Prelude.Int.{pos}
use csm_metrics_powermax.K8s.Volumes.{VolumeInfo}
use csm_metrics_powermax.Metric.Types.{TopologyMeta, TopologyMetricsRecord}

-- The record of one volume. The field `VolumeClaimName` takes the volume's name, not its claim's.
unfoldable pub topology_record : VolumeInfo → TopologyMetricsRecord
topology_record volume = record {
  topology_meta = record {
    namespace = volume.namespace;
    persistent_volume_claim = volume.volume_claim_name;
    persistent_volume_status = volume.persistent_volume_status;
    volume_claim_name = volume.persistent_volume;
    persistent_volume = volume.persistent_volume;
    storage_class = volume.storage_class;
    driver = volume.driver;
    provisioned_size = volume.provisioned_size;
    storage_system_volume_name = volume.storage_system_volume_name;
    storage_pool_name = volume.srp;
    storage_system = volume.sym_id;
    protocol = volume.protocol;
    created_time = volume.created_time;
  };
  pv_available = pos 1;
}

-- `volumeServer` and `gatherTopologyMetrics`: a goroutine for each volume sends one record; the
-- order is the scheduler's, here it is that of the listing.
unfoldable pub gather_topology_metrics : List VolumeInfo → List TopologyMetricsRecord
gather_topology_metrics volumes = map topology_record volumes

-- `pushTopologyMetrics`: the records that the recorder accepts are sent on.
unfoldable pub push_topology_metrics :
    (TopologyMeta → TopologyMetricsRecord → Option Error)
    → List TopologyMetricsRecord
    → List TopologyMetricsRecord
push_topology_metrics recorder records =
    filter_map (λ r. elim (recorder r.topology_meta r) [ none ↦ some r | some _ ↦ none ]) records

-- `Collect`
unfoldable pub collect_topology :
    Result (List VolumeInfo)
    → (TopologyMeta → TopologyMetricsRecord → Option Error)
    → Result (List TopologyMetricsRecord)
collect_topology (err e) recorder = err e
collect_topology (ok pvs) recorder =
    ok (push_topology_metrics recorder (gather_topology_metrics pvs))

push_all :
    (recorder : TopologyMeta → TopologyMetricsRecord → Option Error)
    → ((r : TopologyMetricsRecord) → recorder r.topology_meta r ≡ none)
    → (rs : List TopologyMetricsRecord) → push_topology_metrics recorder rs ≡ rs
unfolding push_topology_metrics
push_all recorder h [] = refl
push_all recorder h (r ∷ rs) = ground (arith, h r, push_all recorder h rs)

-- With a recorder that accepts everything, the volumes that go in come out, one record each, by
-- their names and in the order of the listing.
pub collect_topology_names :
    (pvs : List VolumeInfo) (recorder : TopologyMeta → TopologyMetricsRecord → Option Error)
    {rs : List TopologyMetricsRecord}
    → ((r : TopologyMetricsRecord) → recorder r.topology_meta r ≡ none)
    → collect_topology (ok pvs) recorder ≡ ok rs
    → map (λ r. r.topology_meta.persistent_volume) rs ≡ map (λ v. v.persistent_volume) pvs
unfolding collect_topology gather_topology_metrics topology_record
collect_topology_names pvs recorder {rs} h e =
    let same : topology_records ≡ rs = cc (push_all recorder h topology_records) in
    rw (← same) (names pvs)
  where
    topology_records : List TopologyMetricsRecord
    topology_records = gather_topology_metrics pvs

    names :
        (vs : List VolumeInfo)
        → map (λ r. r.topology_meta.persistent_volume) (gather_topology_metrics vs)
          ≡ map (λ v. v.persistent_volume) vs
    names [] = refl
    names (v ∷ vs) = ap (λ ns. v.persistent_volume ∷ ns) (names vs)
