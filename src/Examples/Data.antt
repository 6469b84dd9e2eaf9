-- ===== src/Examples/Data.antt =====
-- A small cluster: two arrays, four volumes, one client that answers for both arrays.
use csm_metrics_powermax.Prelude.{
  ℕ, Text, ok, codes, List, [], ◌∷◌, none, some, Bool, true, false, ◌+◌, ◌*◌, ◌/◌, ltb,
}
use csm_metrics_powermax.Prelude.Dict.{Dict}
use csm_metrics_powermax.Prelude.Float.{Float64}
use csm_metrics_powermax.Prelude.Int.{pos, pos_part}
use csm_metrics_powermax.K8s.Volumes.{VolumeInfo}
use csm_metrics_powermax.Metric.Types.{
  PowerMaxArray, PowerMaxClient, VolumeCapacityMetricsRecord, VolumePerfMetricsRecord,
  StorageGroupPerfMetricsRecord, VolumeMetric, StorageGroupMetric,
}
use csm_metrics_powermax.Service.Clients.{PowerMaxService}

-- Whole numbers in the place of float64.
abbrev pub whole : Float64 ℕ
whole = record {
  add = λ a b. a + b;
  mul = λ a b. a * b;
  div = λ a b. a / b;
  lt = λ a b. ltb a b;
  of_int = λ i. pos_part i;
}

abbrev pub array1 : Text
array1 = codes "0001"

abbrev pub array2 : Text
array2 = codes "0002"

abbrev pub group1 : Text
group1 = codes "sg1"

abbrev pub group2 : Text
group2 = codes "sg2"

abbrev pub volume : Text → Text → Text → VolumeInfo
volume name handle group = record {
  namespace = codes "default";
  persistent_volume_claim = codes "uid";
  persistent_volume_status = codes "Bound";
  volume_claim_name = codes "claim";
  persistent_volume = name;
  storage_class = codes "gold";
  driver = codes "csi-powermax";
  provisioned_size = codes "8Gi";
  created_time = codes "2024";
  volume_handle = handle;
  srp = codes "SRP_1";
  service_level = codes "Gold";
  storage_group = group;
  sym_id = array1;
  storage_system_volume_name = name;
  protocol = codes "ISCSI";
}

abbrev pub volume1 : VolumeInfo
volume1 = volume (codes "pv1") (codes "csi-0001-00A") group1

abbrev pub volume2 : VolumeInfo
volume2 = volume (codes "pv2") (codes "csi-0002-00B") group2

abbrev pub volume3 : VolumeInfo
volume3 = volume (codes "pv3") (codes "csi-0001-00C") group2

-- A handle without a dash names no array.
abbrev pub volume4 : VolumeInfo
volume4 = volume (codes "pv4") (codes "handle") group1

abbrev pub volumes : List VolumeInfo
volumes = volume1 ∷ volume2 ∷ volume3 ∷ volume4 ∷ []

abbrev pub sample : StorageGroupMetric ℕ
sample = record {
  host_mb_reads = 1;
  host_mb_written = 2;
  read_response_time = 3;
  write_response_time = 4;
  host_reads = 5;
  host_writes = 6;
  avg_io_size = 7;
}

abbrev pub volume_sample : VolumeMetric ℕ
volume_sample = record {
  mb_read = 1;
  mb_written = 2;
  read_response_time = 3;
  write_response_time = 4;
  reads = 5;
  writes = 6;
}

abbrev pub client1 : PowerMaxClient ℕ
client1 = record {
  authenticate = λ c. none;
  get_volume_by_id = λ a v. ok (record { capacity_gb = 50; allocated_percent = pos 20 });
  get_volumes_capacity_bulk = λ a. ok (
      some (
        record { id = codes "00A"; cap_gb = 100; effective_used_capacity_gb = 40 }
        ∷ record { id = codes "00A"; cap_gb = 200; effective_used_capacity_gb = 50 }
        ∷ []));
  get_array_perf_keys = ok (record { name = array1; last_available_date = pos 9 } ∷ []);
  get_volumes_metrics = λ a q m t u. ok (
      record {
        volume_id = codes "00A";
        storage_groups = group1;
        volume_result = volume_sample ∷ [];
      }
      ∷ record {
        volume_id = codes "00Z";
        storage_groups = group1;
        volume_result = volume_sample ∷ [];
      }
      ∷ []);
  get_storage_group_perf_keys =
      λ a. ok (record { name = group2; last_available_date = pos 9 } ∷ []);
  get_storage_group_metrics = λ a g m t u. ok (sample ∷ []);
  get_storage_group_metrics_bulk = λ a. ok (
      some (
        record { id = group1; metrics = sample ∷ sample ∷ [] }
        ∷ record { id = codes "sg9"; metrics = sample ∷ [] }
        ∷ []));
  get_storage_group_id_list = λ a. ok (group1 ∷ group2 ∷ []);
}

abbrev pub endpoint : Text → Bool → PowerMaxArray ℕ
endpoint id active = record {
  endpoint = codes "https://unisphere";
  storage_array_id = id;
  username = codes "user";
  password = codes "password";
  insecure = true;
  is_primary = true;
  is_active = active;
  client = some client1;
}

-- Only the first array has an active endpoint.
abbrev pub clients : Dict (List (PowerMaxArray ℕ))
clients =
    (array1, endpoint array1 false ∷ endpoint array1 true ∷ [])
    ∷ (array2, endpoint array2 false ∷ [])
    ∷ []

abbrev pub service : PowerMaxService ℕ Text Text
service = record {
  metrics_recorder = some [];
  obs_instrumenter = true;
  max_powermax_connections = pos 10;
  powermax_clients = some clients;
  volume_finder = some [];
}

abbrev pub capacity : Text → Text → ℕ → ℕ → VolumeCapacityMetricsRecord ℕ
capacity array_id volume_id total used = record {
  array_id = array_id;
  volume_id = volume_id;
  srp_id = codes "SRP_1";
  storage_group_id = group1;
  storage_class = codes "gold";
  driver = codes "csi-powermax";
  persistent_volume_name = codes "pv1";
  persistent_volume_status = codes "Bound";
  persistent_volume_claim_name = codes "claim";
  namespace = codes "default";
  total = total;
  used = used;
  used_percent = 0;
}

abbrev pub volume_performance : VolumePerfMetricsRecord ℕ
volume_performance = record {
  array_id = array1;
  volume_id = codes "00A";
  storage_group_id = group1;
  storage_class = codes "gold";
  driver = codes "csi-powermax";
  persistent_volume_name = codes "pv1";
  persistent_volume_claim_name = codes "claim";
  namespace = codes "default";
  mb_read = 1;
  mb_written = 2;
  read_response_time = 3;
  write_response_time = 4;
  reads = 5;
  writes = 6;
}

abbrev pub group_performance : StorageGroupPerfMetricsRecord ℕ
group_performance = record {
  array_id = array1;
  storage_group_id = group1;
  host_mb_reads = 1;
  host_mb_written = 2;
  read_response_time = 3;
  write_response_time = 4;
  host_reads = 5;
  host_writes = 6;
  avg_io_size = 7;
}
