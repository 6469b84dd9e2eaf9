-- ===== src/Metric/Types.antt =====
-- internal/service/metrictypes/metrictypes.go: the records that the collectors pass on, and the
-- client interface with what its answers are read for. The answers' types are those of gopowermax,
-- with the fields that the program reads; a client is a record of functions, so it answers the same
-- question alike within one collection.
use csm_metrics_powermax.Prelude.{Text, Error, Result, List, Option, Bool}
use csm_metrics_powermax.Prelude.Int.{ℤ}

-- `attribute.KeyValue` with a string value.
pub record KeyValue : Type 0 where
  pub key : Text
  pub value : Text

pub record ConfigConnect : Type 0 where
  pub endpoint : Text
  pub username : Text
  pub password : Text
  pub version : Text

module _ (F : Type 0) where
  pub record VolumeCapacityMetricsRecord : Type 0 where
    pub array_id : Text
    pub volume_id : Text
    pub srp_id : Text
    pub storage_group_id : Text
    pub storage_class : Text
    pub driver : Text
    pub persistent_volume_name : Text
    pub persistent_volume_status : Text
    pub persistent_volume_claim_name : Text
    pub namespace : Text
    pub total : F
    pub used : F
    pub used_percent : F

  pub record StorageGroupPerfMetricsRecord : Type 0 where
    pub array_id : Text
    pub storage_group_id : Text
    pub host_mb_reads : F
    pub host_mb_written : F
    pub read_response_time : F
    pub write_response_time : F
    pub host_reads : F
    pub host_writes : F
    pub avg_io_size : F

  pub record VolumePerfMetricsRecord : Type 0 where
    pub array_id : Text
    pub volume_id : Text
    pub storage_group_id : Text
    pub storage_class : Text
    pub driver : Text
    pub persistent_volume_name : Text
    pub persistent_volume_claim_name : Text
    pub namespace : Text
    pub mb_read : F
    pub mb_written : F
    pub read_response_time : F
    pub write_response_time : F
    pub reads : F
    pub writes : F

  -- `types.Volume`, `types.VolumeEnhanced`
  pub record Volume : Type 0 where
    pub capacity_gb : F
    pub allocated_percent : ℤ

  pub record VolumeEnhanced : Type 0 where
    pub id : Text
    pub cap_gb : F
    pub effective_used_capacity_gb : F

  -- One sample of a volume, and the samples of a volume.
  pub record VolumeMetric : Type 0 where
    pub mb_read : F
    pub mb_written : F
    pub read_response_time : F
    pub write_response_time : F
    pub reads : F
    pub writes : F

  pub record VolumeMetrics : Type 0 where
    pub volume_id : Text
    pub storage_groups : Text
    pub volume_result : List VolumeMetric

  -- One sample of a storage group, and the samples of one group in a bulk answer.
  pub record StorageGroupMetric : Type 0 where
    pub host_mb_reads : F
    pub host_mb_written : F
    pub read_response_time : F
    pub write_response_time : F
    pub host_reads : F
    pub host_writes : F
    pub avg_io_size : F

  pub record MetricInstance : Type 0 where
    pub id : Text
    pub metrics : List StorageGroupMetric

-- `ArrayInfo` and `StorageGroupInfo`: a name and its last available time.
pub record LastAvailable : Type 0 where
  pub name : Text
  pub last_available_date : ℤ

pub record PowerMaxClient (F : Type 0) : Type 0 where
  pub authenticate : ConfigConnect → Option Error
  pub get_volume_by_id : Text → Text → Result (Volume F)
  pub get_volumes_capacity_bulk : Text → Result (Option (List (VolumeEnhanced F)))
  pub get_array_perf_keys : Result (List LastAvailable)
  pub get_volumes_metrics : Text → Text → List Text → ℤ → ℤ → Result (List (VolumeMetrics F))
  pub get_storage_group_perf_keys : Text → Result (List LastAvailable)
  pub get_storage_group_metrics :
      Text → Text → List Text → ℤ → ℤ → Result (List (StorageGroupMetric F))
  pub get_storage_group_metrics_bulk : Text → Result (Option (List (MetricInstance F)))
  pub get_storage_group_id_list : Text → Result (List Text)

pub record PowerMaxArray (F : Type 0) : Type 0 where
  pub endpoint : Text
  pub storage_array_id : Text
  pub username : Text
  pub password : Text
  pub insecure : Bool
  pub is_primary : Bool
  pub is_active : Bool
  -- `none` is a nil interface.
  pub client : Option (PowerMaxClient F)

pub record TopologyMeta : Type 0 where
  pub namespace : Text
  pub persistent_volume_claim : Text
  pub persistent_volume_status : Text
  pub volume_claim_name : Text
  pub persistent_volume : Text
  pub storage_class : Text
  pub driver : Text
  pub provisioned_size : Text
  pub storage_system_volume_name : Text
  pub storage_pool_name : Text
  pub storage_system : Text
  pub protocol : Text
  pub created_time : Text

pub record TopologyMetricsRecord : Type 0 where
  pub topology_meta : TopologyMeta
  pub pv_available : ℤ
