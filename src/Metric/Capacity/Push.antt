-- ===== src/Metric/Capacity/Push.antt =====
-- `pushCapacityMetrics`: what is recorded for the entries of the five maps, and what is sent on. One
-- goroutine records each entry; their order is free, here it is that of the maps.
use csm_metrics_powermax.Prelude.{
  Text, Error, codes, List, [], ◌∷◌, ◌++◌, map, Option, none, some, filter_map,
}
use csm_metrics_powermax.Prelude.Dict.{Dict}
use csm_metrics_powermax.Prelude.Float.{Float64}
use csm_metrics_powermax.Metric.Types.{KeyValue, VolumeCapacityMetricsRecord}
use csm_metrics_powermax.Metric.Capacity.Cumulate.{CapacityMaps, cumulate_stream, no_metrics}

abbrev pub attr : Text → Text → KeyValue
attr k v = record { key = k; value = v }

-- A call of `RecordNumericMetrics`, and the name that is sent on if it succeeds.
pub record NumericCall (F : Type 0) : Type 0 where
  pub prefix : Text
  pub labels : List KeyValue
  pub metric : VolumeCapacityMetricsRecord F
  pub sent_name : Text

module _ {F : Type 0} where
  unfoldable pub volume_call : VolumeCapacityMetricsRecord F → NumericCall F
  volume_call metric = record {
    prefix = codes "powermax_volume_";
    labels =
        attr (codes "ArrayID") metric.array_id
        ∷ attr (codes "SrpID") metric.srp_id
        ∷ attr (codes "StorageGroupID") metric.storage_group_id
        ∷ attr (codes "VolumeID") metric.volume_id
        ∷ attr (codes "Driver") metric.driver
        ∷ attr (codes "StorageClass") metric.storage_class
        ∷ attr (codes "PersistentVolumeName") metric.persistent_volume_name
        ∷ attr (codes "PersistentVolumeStatus") metric.persistent_volume_status
        ∷ attr (codes "PersistentVolumeClaimName") metric.persistent_volume_claim_name
        ∷ attr (codes "Namespace") metric.namespace
        ∷ attr (codes "PlotWithMean") (codes "No")
        ∷ [];
    metric = metric;
    sent_name = metric.volume_id;
  }

  unfoldable pub storage_group_call : VolumeCapacityMetricsRecord F → NumericCall F
  storage_group_call metric = record {
    prefix = codes "powermax_storage_group_";
    labels =
        attr (codes "ArrayID") metric.array_id
        ∷ attr (codes "Driver") metric.driver
        ∷ attr (codes "StorageGroupID") metric.storage_group_id
        ∷ attr (codes "SrpID") metric.srp_id
        ∷ attr (codes "PlotWithMean") (codes "No")
        ∷ [];
    metric = metric;
    sent_name = metric.storage_group_id;
  }

  unfoldable pub srp_call : VolumeCapacityMetricsRecord F → NumericCall F
  srp_call metric = record {
    prefix = codes "powermax_srp_";
    labels =
        attr (codes "ArrayID") metric.array_id
        ∷ attr (codes "Driver") metric.driver
        ∷ attr (codes "SrpID") metric.srp_id
        ∷ attr (codes "PlotWithMean") (codes "No")
        ∷ [];
    metric = metric;
    sent_name = metric.srp_id;
  }

  unfoldable pub array_call : VolumeCapacityMetricsRecord F → NumericCall F
  array_call metric = record {
    prefix = codes "powermax_array_";
    labels =
        attr (codes "ArrayID") metric.array_id
        ∷ attr (codes "Driver") metric.driver
        ∷ attr (codes "PlotWithMean") (codes "No")
        ∷ [];
    metric = metric;
    sent_name = metric.array_id;
  }

  unfoldable pub storage_class_call : VolumeCapacityMetricsRecord F → NumericCall F
  storage_class_call metric = record {
    prefix = codes "powermax_storage_class_";
    labels =
        attr (codes "ArrayID") metric.array_id
        ∷ attr (codes "Driver") metric.driver
        ∷ attr (codes "StorageClass") metric.storage_class
        ∷ attr (codes "PlotWithMean") (codes "No")
        ∷ [];
    metric = metric;
    sent_name = metric.array_id;
  }

  abbrev values : Dict (VolumeCapacityMetricsRecord F) → List (VolumeCapacityMetricsRecord F)
  values m = map (λ e. e.1) m

module _ {F : Type 0} (fl : Float64 F) where
  unfoldable pub capacity_calls : CapacityMaps fl → List (NumericCall F)
  capacity_calls m =
      map volume_call (values m.volume_id_map)
      ++ (map storage_group_call (values m.storage_group_map)
          ++ (map srp_call (values m.srp_map)
              ++ (map array_call (values m.array_id_map)
                  ++ map storage_class_call (values m.storage_class_map))))

  -- The names on the result channel: those of the calls that the recorder accepts.
  unfoldable pub push_capacity_metrics :
      (NumericCall F → Option Error) → List (VolumeCapacityMetricsRecord F) → List Text
  push_capacity_metrics recorder metrics =
      filter_map (λ c. elim (recorder c) [ none ↦ some c.sent_name | some _ ↦ none ])
        (capacity_calls (cumulate_stream fl (no_metrics fl) metrics))
