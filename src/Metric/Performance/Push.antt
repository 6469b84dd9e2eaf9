-- ===== src/Metric/Performance/Push.antt =====
-- `pushVolumePerformanceMetrics` and `pushStorageGroupPerformanceMetrics`: one goroutine records each
-- metric and sends its name if that succeeds; their order is free, here it is that of arrival.
use csm_metrics_powermax.Prelude.{Text, Error, codes, List, Option, none, some, filter_map}
use csm_metrics_powermax.Metric.Types.{StorageGroupPerfMetricsRecord, VolumePerfMetricsRecord}

module _ {F : Type 0} where
  unfoldable pub push_volume_performance_metrics :
      (Text → VolumePerfMetricsRecord F → Option Error)
      → List (VolumePerfMetricsRecord F)
      → List Text
  push_volume_performance_metrics recorder metrics =
      filter_map
        (λ m. elim (recorder (codes "powermax_volume") m) [
          | none ↦ some m.volume_id
          | some _ ↦ none
        ])
        metrics

  unfoldable pub push_storage_group_performance_metrics :
      (Text → StorageGroupPerfMetricsRecord F → Option Error)
      → List (StorageGroupPerfMetricsRecord F)
      → List Text
  push_storage_group_performance_metrics recorder metrics =
      filter_map
        (λ m. elim (recorder (codes "powermax_storage_group") m) [
          | none ↦ some m.storage_group_id
          | some _ ↦ none
        ])
        metrics
