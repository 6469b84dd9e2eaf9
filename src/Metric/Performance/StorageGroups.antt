-- ===== src/Metric/Performance/StorageGroups.antt =====
-- `gatherStorageGroupPerformanceMetrics`, `collectSGMetricsBulk` and `collectSGMetricsLegacy`: the
-- records of the storage groups of one array.
pub mod Records
pub mod Sources
use csm_metrics_powermax.Prelude.{
  ℕ, ◌+◌, Text, Error, Result, ok, err, codes, ◌≡◌, List, [], ◌∷◌, ◌++◌, Option, none, some, Bool,
  true, false, not, ◌&&◌, if◌then◌else◌, length, map, ltb, ◌==◌,
}
use csm_metrics_powermax.Prelude.Dict.{Dict, lookup, insert, member}
use csm_metrics_powermax.Prelude.Float.{Float64}
use csm_metrics_powermax.Prelude.Int.{ℤ}
use csm_metrics_powermax.Metric.Base.{get_powermax_client}
use csm_metrics_powermax.Metric.Types.{
  PowerMaxArray, PowerMaxClient, LastAvailable, MetricInstance, StorageGroupMetric,
  StorageGroupPerfMetricsRecord,
}
use csm_metrics_powermax.Metric.Performance.SgCache.{SgCountCache, get_total_sg_count}
use csm_metrics_powermax.Metric.Performance.Threshold.{use_bulk}

-- `sgPerfMetricsQuery`
abbrev pub sg_perf_metrics_query : List Text
sg_perf_metrics_query =
    codes "HostMBReads"
    ∷ codes "HostMBWritten"
    ∷ codes "ReadResponseTime"
    ∷ codes "WriteResponseTime"
    ∷ codes "HostReads"
    ∷ codes "HostWrites"
    ∷ codes "AvgIOSize"
    ∷ []

-- `storageGroup2LastAvailTime`, of the groups asked for.
unfoldable pub sg_times : List Text → Dict ℤ → List LastAvailable → Dict ℤ
sg_times sgs m [] = m
sg_times sgs m (info ∷ infos) =
    sg_times sgs (if member info.name sgs then insert info.name info.last_available_date m else m)
      infos

module _ {F : Type 0} where
  unfoldable pub sg_record : Text → Text → StorageGroupMetric F → StorageGroupPerfMetricsRecord F
  sg_record array_id sg m = record {
    array_id = array_id;
    storage_group_id = sg;
    host_mb_reads = m.host_mb_reads;
    host_mb_written = m.host_mb_written;
    read_response_time = m.read_response_time;
    write_response_time = m.write_response_time;
    host_reads = m.host_reads;
    host_writes = m.host_writes;
    avg_io_size = m.avg_io_size;
  }

  -- The two loops of `collectSGMetricsBulk`: what is sent on `ch`, and the counter `metricsEmitted`.
  unfoldable pub emit_samples :
      Text
      → Text
      → List (StorageGroupMetric F)
      → List (StorageGroupPerfMetricsRecord F) × ℕ
      → List (StorageGroupPerfMetricsRecord F) × ℕ
  emit_samples a sg [] (sent, emitted) = (sent, emitted)
  emit_samples a sg (m ∷ ms) (sent, emitted) =
      emit_samples a sg ms (sent ++ sg_record a sg m ∷ [], emitted + 1)

  unfoldable pub emit_instance :
      Text
      → List Text
      → MetricInstance F
      → List (StorageGroupPerfMetricsRecord F) × ℕ
      → List (StorageGroupPerfMetricsRecord F) × ℕ
  emit_instance a sgs i out = if member i.id sgs then emit_samples a i.id i.metrics out else out

  unfoldable pub emit_instances :
      Text
      → List Text
      → List (MetricInstance F)
      → List (StorageGroupPerfMetricsRecord F) × ℕ
      → List (StorageGroupPerfMetricsRecord F) × ℕ
  emit_instances a sgs [] out = out
  emit_instances a sgs (i ∷ is) out = emit_instances a sgs is (emit_instance a sgs i out)

  -- Whether the bulk call served, and what it sent.
  unfoldable pub collect_sg_metrics_bulk :
      PowerMaxClient F → Text → List Text → Bool × List (StorageGroupPerfMetricsRecord F)
  collect_sg_metrics_bulk client a sgs = elim (client.get_storage_group_metrics_bulk a) [
    | err _ ↦ (false, [])
    | ok bulk ↦ elim bulk [
      | none ↦ (false, [])
      | some instances ↦
          let (sent, emitted) = emit_instances a sgs instances ([], 0) in
          (not (emitted == 0 && ltb 0 (length sgs)), sent)
    ]
  ]

  -- What the fallback sends for one group.
  unfoldable pub legacy_samples :
      PowerMaxClient F → Text → Dict ℤ → Text → List (StorageGroupPerfMetricsRecord F)
  legacy_samples client a times sg = elim (lookup sg times) [
    | none ↦ []
    | some t ↦ elim (client.get_storage_group_metrics a sg sg_perf_metrics_query t t) [
      | err _ ↦ []
      | ok results ↦ map (sg_record a sg) results
    ]
  ]

  unfoldable pub legacy_groups :
      PowerMaxClient F → Text → Dict ℤ → List Text → List (StorageGroupPerfMetricsRecord F)
  legacy_groups client a times [] = []
  legacy_groups client a times (sg ∷ sgs) =
      legacy_samples client a times sg ++ legacy_groups client a times sgs

  unfoldable pub collect_sg_metrics_legacy :
      PowerMaxClient F → Text → List Text → List (StorageGroupPerfMetricsRecord F)
  collect_sg_metrics_legacy client a sgs = elim (client.get_storage_group_perf_keys a) [
    | err _ ↦ []
    | ok infos ↦ legacy_groups client a (sg_times sgs [] infos) sgs
  ]

module _ {F : Type 0} (fl : Float64 F) where
  -- The goroutine of one array, from the cache of group counts. It looks at the cache at `now` and
  -- stores a count that it fetched at `fetched`.
  unfoldable pub sg_perf_work :
      F
      → Option (Dict (List (PowerMaxArray F)))
      → ℕ
      → ℕ
      → SgCountCache
      → Text × List Text
      → List (StorageGroupPerfMetricsRecord F) × SgCountCache
  sg_perf_work ratio clients now fetched cache (a, sgs) = elim (get_powermax_client clients a) [
    | err _ ↦ ([], cache)
    | ok client ↦ elim client [
      | none ↦ ([], cache)
      | some c ↦
          let (total, cache') =
            get_total_sg_count cache a now fetched (c.get_storage_group_id_list a) in
          elim total [
            | err _ ↦ (collect_sg_metrics_legacy c a sgs, cache')
            | ok total_sgs ↦
                let (served, sent) = collect_sg_metrics_bulk c a sgs in
                if use_bulk fl ratio total_sgs (length sgs)
                then (if served
                    then (sent, cache')
                    else (sent ++ collect_sg_metrics_legacy c a sgs, cache'))
                else (collect_sg_metrics_legacy c a sgs, cache')
          ]
    ]
  ]
