-- ===== src/Metric/Performance/Collect.antt =====
-- `Collect`, and the two `gather…` functions as jobs of the worker pool, one for each array.
pub mod Listing
pub mod Records
pub mod InTurn
pub mod Schedules
use csm_metrics_powermax.Prelude.{
  ℕ, Text, Error, Result, ok, err, List, [], ◌∷◌, ◌++◌, Option, flat_map,
}
use csm_metrics_powermax.Prelude.Dict.{Dict, keys}
use csm_metrics_powermax.Prelude.Float.{Float64}
use csm_metrics_powermax.Prelude.Int.{ℤ, pos}
use csm_metrics_powermax.K8s.Volumes.{VolumeInfo}
use csm_metrics_powermax.Metric.Fanout.{Pool, Reach, expected}
use csm_metrics_powermax.Metric.Types.{
  PowerMaxArray, StorageGroupPerfMetricsRecord, VolumePerfMetricsRecord,
}
use csm_metrics_powermax.Metric.Performance.SgCache.{SgCountCache}
use csm_metrics_powermax.Metric.Performance.StorageGroups.{sg_perf_work}
use csm_metrics_powermax.Metric.Performance.Targets.{Targets, add_targets, no_targets}
use csm_metrics_powermax.Metric.Performance.Volumes.{last_avail_times, volume_perf_work}
use csm_metrics_powermax.Metric.Performance.Push.{
  push_volume_performance_metrics, push_storage_group_performance_metrics,
}

module _ {F : Type 0} (fl : Float64 F) where
  -- The records that are sent if there is no array to query.
  abbrev pub empty_volume_perf : VolumePerfMetricsRecord F
  empty_volume_perf = record {
    array_id = [];
    volume_id = [];
    storage_group_id = [];
    storage_class = [];
    driver = [];
    persistent_volume_name = [];
    persistent_volume_claim_name = [];
    namespace = [];
    mb_read = fl.of_int (pos 0);
    mb_written = fl.of_int (pos 0);
    read_response_time = fl.of_int (pos 0);
    write_response_time = fl.of_int (pos 0);
    reads = fl.of_int (pos 0);
    writes = fl.of_int (pos 0);
  }

  abbrev pub empty_sg_perf : StorageGroupPerfMetricsRecord F
  empty_sg_perf = record {
    array_id = [];
    storage_group_id = [];
    host_mb_reads = fl.of_int (pos 0);
    host_mb_written = fl.of_int (pos 0);
    read_response_time = fl.of_int (pos 0);
    write_response_time = fl.of_int (pos 0);
    host_reads = fl.of_int (pos 0);
    host_writes = fl.of_int (pos 0);
    avg_io_size = fl.of_int (pos 0);
  }

  -- The states of `gatherVolumePerformanceMetrics`, which asks for the last available times before
  -- it starts the dispatcher.
  abbrev pub VolumeReach :
      ℕ
      → Option (Dict (List (PowerMaxArray F)))
      → Targets
      → Pool (Text × List Text) (VolumePerfMetricsRecord F)
      → Type 0
  VolumeReach limit clients t s =
      Reach limit
        (volume_perf_work clients (last_avail_times clients [] (keys t.array2sgs)) t.id2volume)
        empty_volume_perf t.array2sgs s

  -- What the goroutine of an array sends from the cache that it finds: that of array `a` looks at
  -- the cache at `now a` and stores a count that it fetched at `fetched a`.
  unfoldable pub group_work :
      F
      → Option (Dict (List (PowerMaxArray F)))
      → (Text → ℕ)
      → (Text → ℕ)
      → SgCountCache
      → Text × List Text
      → List (StorageGroupPerfMetricsRecord F)
  group_work ratio clients now fetched cache (a, sgs) =
      (sg_perf_work fl ratio clients (now a) (fetched a) cache (a, sgs)).0

  -- The states of `gatherStorageGroupPerformanceMetrics`. A goroutine finds of its own array what
  -- was cached at the start, since no other stores a count of that array (Collect/InTurn).
  abbrev pub GroupReach :
      ℕ
      → F
      → Option (Dict (List (PowerMaxArray F)))
      → (Text → ℕ)
      → (Text → ℕ)
      → SgCountCache
      → Targets
      → Pool (Text × List Text) (StorageGroupPerfMetricsRecord F)
      → Type 0
  GroupReach limit ratio clients now fetched cache t s =
      Reach limit (group_work ratio clients now fetched cache) empty_sg_perf t.array2sgs s

  -- The arrays one after the other on the cache that they share: the records, and the cache after.
  unfoldable pub groups_in_turn :
      F
      → Option (Dict (List (PowerMaxArray F)))
      → (Text → ℕ)
      → (Text → ℕ)
      → SgCountCache
      → Dict (List Text)
      → List (StorageGroupPerfMetricsRecord F) × SgCountCache
  groups_in_turn ratio clients now fetched cache [] = ([], cache)
  groups_in_turn ratio clients now fetched cache ((a, sgs) ∷ rest) =
      let (sent, cache') = sg_perf_work fl ratio clients (now a) (fetched a) cache (a, sgs) in
      let (others, last) = groups_in_turn ratio clients now fetched cache' rest in
      (sent ++ others, last)

  unfoldable pub gather_storage_group_performance_metrics :
      F
      → Option (Dict (List (PowerMaxArray F)))
      → (Text → ℕ)
      → (Text → ℕ)
      → SgCountCache
      → Dict (List Text)
      → List (StorageGroupPerfMetricsRecord F) × SgCountCache
  gather_storage_group_performance_metrics ratio clients now fetched cache [] =
      (empty_sg_perf ∷ [], cache)
  gather_storage_group_performance_metrics ratio clients now fetched cache (j ∷ jobs) =
      groups_in_turn ratio clients now fetched cache (j ∷ jobs)

  -- `Collect`, under the schedule that serves the arrays one by one: what the recorder accepted of
  -- the volumes and of the groups, and the cache that the collector keeps.
  unfoldable pub collect_performance :
      Result (List VolumeInfo)
      → F
      → Option (Dict (List (PowerMaxArray F)))
      → (Text → ℕ)
      → (Text → ℕ)
      → (Text → VolumePerfMetricsRecord F → Option Error)
      → (Text → StorageGroupPerfMetricsRecord F → Option Error)
      → SgCountCache
      → Result (List Text × List Text) × SgCountCache
  collect_performance (err e) ratio clients now fetched record_volume record_group cache =
      (err e, cache)
  collect_performance (ok pvs) ratio clients now fetched record_volume record_group cache =
      let t = add_targets no_targets pvs in
      let times = last_avail_times clients [] (keys t.array2sgs) in
      let volumes =
        expected 1 (volume_perf_work clients times t.id2volume) empty_volume_perf t.array2sgs in
      let (groups, cache') =
        gather_storage_group_performance_metrics ratio clients now fetched cache t.array2sgs in
      (
        ok (
          push_volume_performance_metrics record_volume volumes,
          push_storage_group_performance_metrics record_group groups,
        ),
        cache',
      )
