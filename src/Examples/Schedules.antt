-- ===== src/Examples/Schedules.antt =====
-- Schedules of whole collections, pushers included, on the small cluster.
use mathlib.Core.List.{Perm}
use mathlib.Core.List.Perm
use csm_metrics_powermax.Prelude.{
  append_each, contains_text, has_prefix, ℕ, Text, Error, codes, text_eq, List, [], ◌∷◌, Option,
  none, some, true, false, ◌≡◌, refl, arith, ok, length, filter, filter_map, ◌≢◌,
}
use csm_metrics_powermax.Prelude.Dict.{Dict, lookup, insert}
use csm_metrics_powermax.Prelude.Split.{split}
use csm_metrics_powermax.K8s.Volumes.{VolumeInfo}
use csm_metrics_powermax.Metric.Base.{get_powermax_client, first_active}
use csm_metrics_powermax.Metric.Fanout.{Pool, Phase, spawn, send, expected, here}
use csm_metrics_powermax.Metric.Handle.{array_id_of, volume_id_of}
use csm_metrics_powermax.Metric.Push.Batch as Batches
use csm_metrics_powermax.Metric.Push.Stream as Streams
use csm_metrics_powermax.Metric.Push.Batch.{Batch}
use csm_metrics_powermax.Metric.Push.Stream.{Stream}
use csm_metrics_powermax.Metric.Types.{
  PowerMaxArray, StorageGroupPerfMetricsRecord, VolumePerfMetricsRecord,
}
use csm_metrics_powermax.Metric.Capacity.Arrays.{
  bulk_one, capacity_of, capacity_record, collect_array_capacity_metrics, index_by_id,
  used_percent_of,
}
use csm_metrics_powermax.Metric.Capacity.Collect.{CapacityReach, capacity_work, empty_capacity}
use csm_metrics_powermax.Metric.Capacity.Collect.Totals.{array_total_lem}
use csm_metrics_powermax.Metric.Fanout.Progress.{gather_finishes}
use csm_metrics_powermax.Metric.Capacity.Collect.Labels.{MayBeLabelled, class_label_by_schedule}
use csm_metrics_powermax.Metric.Capacity.Collect.Schedules.{
  CapacityRunReach, MapsAgree, Run, capacity_closed, capacity_finishes, capacity_schedules_agree,
  maps_of,
}
use csm_metrics_powermax.Metric.Capacity.Collect.Observed.{
  ObservedReach, capacity_observed, numeric_observations, observed_maps,
}
use csm_metrics_powermax.Metric.Push.Batch.Progress.{batch_finishes}
use csm_metrics_powermax.Metric.Recorder.Record.{Meter}
use csm_metrics_powermax.Metric.Capacity.Cumulate.{Metric, cumulate_stream, no_metrics, sum_of}
use csm_metrics_powermax.Metric.Capacity.Group.{group_volume, group_volumes, is_on}
use csm_metrics_powermax.Metric.Capacity.Push.{NumericCall, capacity_calls, push_capacity_metrics}
use csm_metrics_powermax.Metric.Performance.Targets.{add_target, add_targets}
use csm_metrics_powermax.Metric.Performance.Volumes.{
  volume_perf_work, last_avail_times, store_times, volume_perf_one, volume_perf_record,
}
use csm_metrics_powermax.Metric.Performance.Collect.Schedules.{
  AsInTurn, GroupStreamReach, VolumeStreamReach, performance_closed, performance_finishes,
}
use csm_metrics_powermax.Examples.Data.{
  array1, array2, client1, clients, endpoint, group1, volume, volume1, volume_performance, whole,
}

-- Two volumes of one storage class on two arrays that both answer.
abbrev volume5 : VolumeInfo
volume5 = volume (codes "pv5") (codes "csi-0002-00A") group1

abbrev pvs : List VolumeInfo
pvs = volume1 ∷ volume5 ∷ []

abbrev both_active : Dict (List (PowerMaxArray ℕ))
both_active = (array1, endpoint array1 true ∷ []) ∷ (array2, endpoint array2 true ∷ []) ∷ []

abbrev record1 : Metric whole
record1 = capacity_record whole array1 (codes "00A") volume1 200 50 0

abbrev record5 : Metric whole
record5 = capacity_record whole array2 (codes "00A") volume5 200 50 0

-- The recorder takes everything but the sums of storage classes.
abbrev recorder : NumericCall ℕ → Option Error
recorder c = elim (text_eq c.prefix (codes "powermax_storage_class_")) [
  | true ↦ some (codes "no meter")
  | false ↦ none
]

-- Both goroutines are under way.
abbrev spawned : Pool (Text × List VolumeInfo) (Metric whole)
spawned = record {
  phase = Phase.dispatching;
  exported = true;
  pending = [];
  running = (record5 ∷ []) ∷ (record1 ∷ []) ∷ [];
  releasing = 0;
  sent = [];
}

abbrev behind : Pool (Text × List VolumeInfo) (Metric whole) → Run whole
behind pool = record { pool = pool; starting = none; pushing = []; is_closed = false; names = [] }

both_spawned : CapacityRunReach whole 2 (some both_active) recorder pvs (behind spawned)
unfolding capacity_work get_powermax_client first_active lookup text_eq group_volumes group_volume
    insert array_id_of volume_id_of split collect_array_capacity_metrics append_each bulk_one
    index_by_id used_percent_of
both_spawned =
    Batches.next
      (Batches.next Batches.here (
        Batches.gather _
          (spawn (array1, volume1 ∷ []) ((array2, volume5 ∷ []) ∷ []) refl refl (omega arith) refl)
          refl))
      (Batches.gather _ (spawn (array2, volume5 ∷ []) [] refl refl (omega arith) refl) refl)

-- The first array's record is received first, or the second's.
abbrev first_1 : Pool (Text × List VolumeInfo) (Metric whole)
first_1 = record spawned { running = (record5 ∷ []) ∷ [] ∷ []; sent = record1 ∷ [] }

abbrev first_5 : Pool (Text × List VolumeInfo) (Metric whole)
first_5 = record spawned { running = [] ∷ (record1 ∷ []) ∷ []; sent = record5 ∷ [] }

led_by_1 : CapacityRunReach whole 2 (some both_active) recorder pvs (behind first_1)
led_by_1 =
    Batches.next both_spawned
      (Batches.gather first_1 (send record1 ((record5 ∷ []) ∷ []) [] [] refl refl) refl)

led_by_5 : CapacityRunReach whole 2 (some both_active) recorder pvs (behind first_5)
led_by_5 =
    Batches.next both_spawned
      (Batches.gather first_5 (send record5 [] [] ((record1 ∷ []) ∷ []) refl refl) refl)

abbrev FinishedRun : Type 0
FinishedRun =
    (t : Run whole) × CapacityRunReach whole 2 (some both_active) recorder pvs t
    × (t.is_closed ≡ true)
    × Perm t.names (push_capacity_metrics whole recorder t.pool.sent)

capacity_finishes_example : FinishedRun
capacity_finishes_example =
    capacity_finishes whole 2 (some both_active) recorder pvs (omega arith) led_by_1

-- Two schedules to their end.
run_1 : FinishedRun
run_1 = capacity_finishes whole 2 (some both_active) recorder pvs (omega arith) led_by_1

run_5 : FinishedRun
run_5 = capacity_finishes whole 2 (some both_active) recorder pvs (omega arith) led_by_5

capacity_closed_example :
    Perm run_1.0.names (push_capacity_metrics whole recorder run_1.0.pool.sent)
    × Perm run_1.0.pool.sent (
        expected 2
          (capacity_work whole (some both_active))
          (empty_capacity whole)
          (group_volumes [] pvs))
capacity_closed_example = capacity_closed whole 2 (some both_active) recorder pvs run_1.1 run_1.2

capacity_schedules_agree_example :
    MapsAgree whole run_1.0.pool.sent run_5.0.pool.sent
      (maps_of whole run_1.0)
      (maps_of whole run_5.0)
capacity_schedules_agree_example =
    capacity_schedules_agree whole (some both_active) 2 2 recorder recorder pvs
      (group_volumes [] pvs) (group_volumes [] pvs) (Perm.refl _) (Perm.refl _) run_1.1 run_1.2
      run_5.1 run_5.2

-- The pool alone, to its end.
pool_run :
    (t : Pool (Text × List VolumeInfo) (Metric whole)) × CapacityReach whole 2
      (some both_active)
      pvs
      t
    × (t.phase ≡ Phase.closed)
    × Perm t.sent (
        expected 2
          (capacity_work whole (some both_active))
          (empty_capacity whole)
          (group_volumes [] pvs))
pool_run =
    gather_finishes 2 (capacity_work whole (some both_active)) (empty_capacity whole) (omega arith)
      (group_volumes [] pvs) here

array_total_example :
    (records : List (Metric whole)) × (lookup array2
        (cumulate_stream whole (no_metrics whole) pool_run.0.sent).array_id_map
      ≡ sum_of whole records)
    × Perm records (filter_map (capacity_of whole client1 array2) (filter (is_on array2) pvs))
unfolding get_powermax_client first_active lookup text_eq group_volumes group_volume insert
    array_id_of split
array_total_example =
    array_total_lem whole (some both_active) 2 pvs array2 client1 some_array refl pool_run.1
      pool_run.2
  where
    some_array : group_volumes [] pvs ≢ []
    some_array = λ e. cc

class_label_by_schedule_example :
    MayBeLabelled whole 2 (some both_active) pvs (codes "gold") array1
    × MayBeLabelled whole 2 (some both_active) pvs (codes "gold") array2
unfolding capacity_work get_powermax_client first_active lookup text_eq group_volumes group_volume
    insert array_id_of volume_id_of split collect_array_capacity_metrics append_each bulk_one
    index_by_id used_percent_of capacity_record
class_label_by_schedule_example =
    class_label_by_schedule whole 2 (some both_active) pvs (array1, volume1 ∷ [])
      (array2, volume5 ∷ []) [] record1 record5 [] [] (omega arith) refl refl refl refl

-- An instrument is the length of its name.
abbrev meter : Meter ℕ
meter = record { up_down_counter = λ name. ok (length name); register_callback = λ is. none }

abbrev ObservedRun : Type 0
ObservedRun = Batch (Text × List VolumeInfo) (Metric whole) (NumericCall ℕ) (List (ℕ × ℕ))

abbrev calls_of : List (Metric whole) → List (NumericCall ℕ)
calls_of rs = capacity_calls whole (cumulate_stream whole (no_metrics whole) rs)

observed_run :
    (t : ObservedRun) × ObservedReach whole meter 2 (some both_active) pvs t
    × (t.is_closed ≡ true)
    × Perm t.names (filter_map (numeric_observations whole meter) (calls_of t.pool.sent))
observed_run =
    batch_finishes 2 (capacity_work whole (some both_active)) (empty_capacity whole) calls_of
      (numeric_observations whole meter) (omega arith) (group_volumes [] pvs) Batches.here

capacity_observed_example : Perm observed_run.0.names (
    observed_maps whole meter length
      (cumulate_stream whole (no_metrics whole) observed_run.0.pool.sent))
capacity_observed_example =
    capacity_observed whole meter 2 (some both_active) pvs length (λ name. refl) (λ is. refl)
      observed_run.1 observed_run.2

-- The performance collection of one volume; the recorder takes volumes and refuses groups.
abbrev record_volume : Text → VolumePerfMetricsRecord ℕ → Option Error
record_volume prefix r = none

abbrev record_group : Text → StorageGroupPerfMetricsRecord ℕ → Option Error
record_group prefix r = some (codes "no meter")

abbrev clock : Text → ℕ
clock a = 5

-- The volume's record has been received, and its goroutine is under way.
abbrev volume_received : Stream (Text × List Text) (VolumePerfMetricsRecord ℕ) Text
volume_received = record {
  pool = record {
    phase = Phase.dispatching;
    exported = true;
    pending = [];
    running = [] ∷ [];
    releasing = 0;
    sent = volume_performance ∷ [];
  };
  pushing = volume_performance ∷ [];
  is_closed = false;
  names = [];
}

volume_schedule :
    VolumeStreamReach whole 1 0
      (some clients)
      clock
      clock
      none
      record_volume
      record_group
      (volume1 ∷ [])
      volume_received
unfolding add_targets add_target array_id_of volume_id_of split text_eq insert lookup
    volume_perf_work last_avail_times store_times get_powermax_client first_active append_each
    volume_perf_one volume_perf_record contains_text has_prefix
volume_schedule =
    Streams.next
      (Streams.next Streams.here
        (Streams.gather _ (spawn (array1, group1 ∷ []) [] refl refl (omega arith) refl) refl refl))
      (Streams.receive _ volume_performance (send volume_performance [] [] [] refl refl) refl refl)

abbrev FinishedCollection : Type 0
FinishedCollection =
    (v : Stream (Text × List Text) (VolumePerfMetricsRecord ℕ) Text) × (g : Stream
      (Text × List Text) (StorageGroupPerfMetricsRecord ℕ) Text)
    × VolumeStreamReach whole 1 0 (some clients) clock clock none record_volume record_group
        (volume1 ∷ []) v
    × (v.is_closed ≡ true)
    × GroupStreamReach whole 1 0 (some clients) clock clock none record_volume record_group
        (volume1 ∷ []) g
    × (g.is_closed ≡ true)
    × AsInTurn whole 1 0 (some clients) clock clock none record_volume record_group (volume1 ∷ [])
        v.names g.names

performance_finishes_example : FinishedCollection
performance_finishes_example =
    performance_finishes whole 1 0 (some clients) clock clock none record_volume record_group
      (volume1 ∷ []) (omega arith) volume_schedule Streams.here

finished : FinishedCollection
finished =
    performance_finishes whole 1 0 (some clients) clock clock none record_volume record_group
      (volume1 ∷ []) (omega arith) volume_schedule Streams.here

performance_closed_example :
    AsInTurn whole 1 0
      (some clients)
      clock
      clock
      none
      record_volume
      record_group
      (volume1 ∷ [])
      finished.0.names
      finished.1.names
performance_closed_example =
    performance_closed whole 1 0 (some clients) clock clock none record_volume record_group
      (volume1 ∷ []) finished.2 finished.3 finished.4 finished.5
