-- ===== src/Examples/Collections.antt =====
-- The collectors' functions on the small cluster.
use csm_metrics_powermax.Prelude.{
  append_each, All, ℕ, Text, codes, text_eq, List, [], ◌∷◌, none, some, true, false, ◌≡◌, ◌≢◌, refl,
  arith, ok, err, filter, filter_map, if◌then◌else◌,
}
use csm_metrics_powermax.Prelude.Dict.{Dict, lookup, insert, keys, IsNodup}
use csm_metrics_powermax.Prelude.Split.{split, Lacks}
use csm_metrics_powermax.K8s.Volumes.{VolumeInfo}
use csm_metrics_powermax.Metric.Base.{get_powermax_client, first_active}
use csm_metrics_powermax.Metric.Handle.{array_id_of, dash, dashed, handle_roundtrip, volume_id_of}
use csm_metrics_powermax.Metric.Types.{PowerMaxArray}
use csm_metrics_powermax.Metric.Capacity.Arrays.{
  bulk_one, capacity_record, index_by_id, used_percent_of, capacity_of,
  collect_array_capacity_metrics, collect_array_capacity_metrics_lem,
}
use csm_metrics_powermax.Metric.Capacity.Collect.Records.{
  CapacityAccounted, capacity_records_accounted,
}
use csm_metrics_powermax.Metric.Capacity.Cumulate.{
  Metric, cumulate_stream, cumulate_stream_lem, no_metrics,
}
use csm_metrics_powermax.Metric.Capacity.Group.{
  group_volume, group_volumes, group_volumes_lem, is_on, volumes_at,
}
use csm_metrics_powermax.Metric.Capacity.Collect.{CapacityReach, no_client_no_export, capacity_work}
use csm_metrics_powermax.Metric.Capacity.Push.{capacity_calls}
use csm_metrics_powermax.Metric.Performance.SgCache.{SgCountCache, get_total_sg_count}
use csm_metrics_powermax.Metric.Performance.StorageGroups.{sg_perf_work}
use csm_metrics_powermax.Metric.Performance.StorageGroups.Sources.{
  bulk_answer, groups_answer, sg_perf_work_one_source,
}
use csm_metrics_powermax.Metric.Performance.Threshold.{use_bulk}
use csm_metrics_powermax.Examples.Data.{
  array1, array2, capacity, client1, clients, group1, volume1, volumes, whole, endpoint,
}
use csm_metrics_powermax.Metric.Fanout.{
  Phase, Pool, close, send, finish, here, next, release, spawn, wait,
}

-- Two records of one volume, and one of another array.
abbrev metrics : List (Metric whole)
metrics =
    capacity array1 (codes "00A") 100 40
    ∷ capacity array2 (codes "00A") 10 1
    ∷ capacity array1 (codes "00A") 5 2
    ∷ []

cumulate_stream_example :
    let m = cumulate_stream whole (no_metrics whole) metrics in
    (lookup array1 m.array_id_map ≡ some (capacity array1 (codes "00A") 105 42))
    × (lookup array1 m.storage_class_map ≡ none)
    × (lookup array1 m.storage_group_map ≡ none)
    × (lookup array1 m.srp_map ≡ none)
    × (lookup array1 m.volume_id_map ≡ none)
unfolding text_eq dashed
cumulate_stream_example = cumulate_stream_lem whole metrics array1

collect_array_capacity_metrics_example :
    collect_array_capacity_metrics whole client1 array1 volumes
    ≡ filter_map (capacity_of whole client1 array1) volumes
collect_array_capacity_metrics_example =
    collect_array_capacity_metrics_lem whole client1 array1 volumes

group_volumes_example :
    IsNodup (keys (group_volumes [] volumes))
    × ((a : Text) → volumes_at a (group_volumes [] volumes) ≡ filter (is_on a) volumes)
group_volumes_example = group_volumes_lem volumes

sg_perf_work_one_source_example :
    (sg_perf_work whole 0 (some clients) 5 6 none (array1, group1 ∷ [])).0
    ≡ (elim (get_total_sg_count none array1 5 6 (client1.get_storage_group_id_list array1)).0 [
      | err _ ↦ groups_answer client1 array1 (group1 ∷ [])
      | ok n ↦
          if use_bulk whole 0 n 1
          then elim (bulk_answer client1 array1 (group1 ∷ [])) [
            | some rs ↦ rs
            | none ↦ groups_answer client1 array1 (group1 ∷ [])
          ]
          else groups_answer client1 array1 (group1 ∷ [])
    ])
unfolding get_powermax_client first_active lookup text_eq
sg_perf_work_one_source_example =
    sg_perf_work_one_source whole 0 5 6 none (some clients) array1 (group1 ∷ []) refl

abbrev cached : SgCountCache
cached = some ((array1, record { count = 2; timestamp = 7 }) ∷ [])

array1-Lacks : Lacks dash array1
array1-Lacks = (omega arith, (omega arith, (omega arith, (omega arith, tt))))

-- One volume, on an array whose only endpoint is not active, and the whole schedule.
abbrev inactive : Dict (List (PowerMaxArray ℕ))
inactive = (array1, endpoint array1 false ∷ []) ∷ []

abbrev silent : Pool (Text × List VolumeInfo) (Metric whole)
silent = record {
  phase = Phase.closed;
  exported = true;
  pending = [];
  running = [];
  releasing = 0;
  sent = [];
}

silent_schedule : CapacityReach whole 1 (some inactive) (volume1 ∷ []) silent
unfolding capacity_work get_powermax_client first_active lookup text_eq group_volumes group_volume
    insert array_id_of split
silent_schedule =
    next
      (next
        (next
          (next (next here (spawn (array1, volume1 ∷ []) [] refl refl (omega arith) refl))
            (finish [] [] refl refl))
          (release 0 refl refl))
        (wait refl refl refl refl))
      (close refl refl refl)

no_client_no_export_example :
    capacity_calls whole (cumulate_stream whole (no_metrics whole) []) ≡ []
unfolding get_powermax_client first_active lookup text_eq group_volumes group_volume insert
    array_id_of split
no_client_no_export_example =
    no_client_no_export whole 1 (some inactive) (volume1 ∷ []) some_array ((_, refl), tt)
      silent_schedule refl
  where
    some_array : group_volumes [] (volume1 ∷ []) ≢ []
    some_array = λ e. cc

-- The identifier has a dash of its own.
handle_roundtrip_example :
    (array_id_of (codes "csi-pmax-0001-00A") ≡ some array1)
    × (volume_id_of (codes "csi-pmax-0001-00A") ≡ codes "00A")
handle_roundtrip_example =
    handle_roundtrip (codes "csi-pmax") array1 (codes "00A") array1-Lacks
      (omega arith, (omega arith, (omega arith, tt)))

-- One volume, on an array that answers: its record has been received.
abbrev volume_record : Metric whole
volume_record = capacity_record whole array1 (codes "00A") volume1 200 50 0

abbrev received : Pool (Text × List VolumeInfo) (Metric whole)
received = record {
  phase = Phase.dispatching;
  exported = true;
  pending = [];
  running = [] ∷ [];
  releasing = 0;
  sent = volume_record ∷ [];
}

received_schedule : CapacityReach whole 1 (some clients) (volume1 ∷ []) received
unfolding capacity_work get_powermax_client first_active lookup text_eq group_volumes group_volume
    insert array_id_of volume_id_of split collect_array_capacity_metrics append_each bulk_one
    index_by_id used_percent_of
received_schedule =
    next (next here (spawn (array1, volume1 ∷ []) [] refl refl (omega arith) refl))
      (send volume_record [] [] [] refl refl)

capacity_records_accounted_example :
    All (CapacityAccounted whole (volume1 ∷ [])) (volume_record ∷ [])
capacity_records_accounted_example =
    capacity_records_accounted whole 1 (some clients) (volume1 ∷ []) received_schedule
