-- ===== src/Examples/Performance.antt =====
-- The performance collection on the small cluster.
use csm_metrics_powermax.Prelude.{
  append_each, contains_text, has_prefix, ℕ, Text, ok, err, codes, text_eq, List, [], ◌∷◌, none,
  some, true, false, ◌≡◌, filter, refl, arith, All,
}
use csm_metrics_powermax.Prelude.Dict.{Dict, lookup, insert, member}
use csm_metrics_powermax.Prelude.Split.{split}
use csm_metrics_powermax.Metric.Base.{get_powermax_client, first_active}
use csm_metrics_powermax.Metric.Isolation.{groups_isolated}
use csm_metrics_powermax.Metric.Fanout.Progress.{gather_finishes}
use csm_metrics_powermax.Prelude.Picks.{has_key}
use mathlib.Core.List.{Perm}
use mathlib.Core.List.Perm
use csm_metrics_powermax.Metric.Fanout.{expected, Pool, Phase, next, here, spawn, send}
use csm_metrics_powermax.Metric.Handle.{array_id_of, volume_id_of}
use csm_metrics_powermax.Metric.Performance.Collect.{
  GroupReach, VolumeReach, empty_sg_perf, group_work,
}
use csm_metrics_powermax.Metric.Performance.Collect.Records.{
  GroupAccounted, VolumeAccounted, group_records_accounted, volume_records_accounted,
}
use csm_metrics_powermax.Metric.Performance.SgCache.{get_total_sg_count, fresh_count}
use csm_metrics_powermax.Metric.Performance.SharedCache.{
  Caller, Shared, idle, missed, counted, CacheReach, keep, miss, start, and_then,
}
use csm_metrics_powermax.Metric.Performance.SharedCache.Counts.{IsAlone, shared_counts}
use csm_metrics_powermax.Metric.Performance.StorageGroups.{
  sg_perf_work, collect_sg_metrics_legacy, legacy_groups, legacy_samples, sg_times, sg_record,
}
use csm_metrics_powermax.Metric.Performance.Threshold.{use_bulk}
use csm_metrics_powermax.Metric.Performance.Targets.{add_target, add_targets, no_targets}
use csm_metrics_powermax.Metric.Performance.Volumes.{
  volume_perf_work, last_avail_times, store_times, volume_perf_one, volume_perf_record,
}
use csm_metrics_powermax.Metric.Types.{
  PowerMaxArray, StorageGroupPerfMetricsRecord, VolumePerfMetricsRecord,
}
use csm_metrics_powermax.Examples.Data.{
  volumes, endpoint, array1, array2, clients, group1, group2, group_performance, volume_performance,
  volume1, volume3, whole,
}

-- Two goroutines look at an empty cache before either of them stores its count.
abbrev caller1 : Caller
caller1 = record { array_id = array1; answer = ok (group1 ∷ group2 ∷ []); stage = idle }

abbrev caller2 : Caller
caller2 = record { array_id = array2; answer = err (codes "down"); stage = idle }

abbrev at_start : Shared
at_start = record { cache = none; callers = caller1 ∷ caller2 ∷ [] }

abbrev first_look : Shared
first_look = record at_start { callers = record caller1 { stage = missed 5 } ∷ caller2 ∷ [] }

abbrev both_looked : Shared
both_looked = record at_start {
  callers = record caller1 { stage = missed 5 } ∷ record caller2 { stage = missed 6 } ∷ [];
}

abbrev first_stored : Shared
first_stored = record {
  cache = some ((array1, record { count = 2; timestamp = 7 }) ∷ []);
  callers =
      record caller1 { stage = counted 5 7 (ok 2) } ∷ record caller2 { stage = missed 6 } ∷ [];
}

interleaved : CacheReach at_start first_stored
unfolding fresh_count insert
interleaved =
    and_then
      (and_then (and_then start (miss [] caller1 (caller2 ∷ []) 5 refl refl refl refl))
        (miss (record caller1 { stage = missed 5 } ∷ []) caller2 [] 6 refl refl refl refl))
      (keep [] (record caller1 { stage = missed 5 }) (record caller2 { stage = missed 6 } ∷ []) 5 7
        (group1 ∷ group2 ∷ []) refl refl refl refl)

shared_counts_example : All (IsAlone none) first_stored.callers
unfolding member text_eq
shared_counts_example =
    shared_counts none (caller1 ∷ caller2 ∷ []) (refl, (refl, tt)) (refl, (refl, tt)) interleaved

-- The clock stands still.
abbrev clock : Text → ℕ
clock a = 5

-- One volume: the goroutine of its array has sent a record of its group.
abbrev group2_performance : StorageGroupPerfMetricsRecord ℕ
group2_performance = record group_performance { storage_group_id = group2 }

abbrev group_sent : Pool (Text × List Text) (StorageGroupPerfMetricsRecord ℕ)
group_sent = record {
  phase = Phase.dispatching;
  exported = true;
  pending = [];
  running = [] ∷ [];
  releasing = 0;
  sent = group2_performance ∷ [];
}

group_schedule :
    GroupReach whole 1 0
      (some clients)
      clock
      clock
      none
      (add_targets no_targets (volume3 ∷ []))
      group_sent
unfolding add_targets add_target array_id_of split text_eq insert lookup group_work sg_perf_work
    get_powermax_client first_active get_total_sg_count fresh_count use_bulk
    collect_sg_metrics_legacy legacy_groups legacy_samples sg_times sg_record member
group_schedule =
    next (next here (spawn (array1, group2 ∷ []) [] refl refl (omega arith) refl))
      (send group2_performance [] [] [] refl refl)

group_records_accounted_example :
    All (GroupAccounted whole (volume3 ∷ [])) (group2_performance ∷ [])
group_records_accounted_example =
    group_records_accounted whole 1 (some clients) 0 clock clock none (volume3 ∷ []) group_schedule

-- The goroutine of an array has sent the record of a volume.
abbrev volume_sent : Pool (Text × List Text) (VolumePerfMetricsRecord ℕ)
volume_sent = record {
  phase = Phase.dispatching;
  exported = true;
  pending = [];
  running = [] ∷ [];
  releasing = 0;
  sent = volume_performance ∷ [];
}

volume_schedule :
    VolumeReach whole 1 (some clients) (add_targets no_targets (volume1 ∷ [])) volume_sent
unfolding add_targets add_target array_id_of volume_id_of split text_eq insert lookup
    volume_perf_work last_avail_times store_times get_powermax_client first_active append_each
    volume_perf_one volume_perf_record contains_text has_prefix
volume_schedule =
    next (next here (spawn (array1, group1 ∷ []) [] refl refl (omega arith) refl))
      (send volume_performance [] [] [] refl refl)

volume_records_accounted_example :
    All (VolumeAccounted whole (volume1 ∷ [])) (volume_performance ∷ [])
volume_records_accounted_example =
    volume_records_accounted whole 1 (some clients) (volume1 ∷ []) volume_schedule

-- A second collection, in which the other array has no endpoint at all.
abbrev one_array : Dict (List (PowerMaxArray ℕ))
one_array = (array1, endpoint array1 false ∷ endpoint array1 true ∷ []) ∷ []

abbrev GroupRun : Dict (List (PowerMaxArray ℕ)) → Type 0
GroupRun known =
    (t : Pool (Text × List Text) (StorageGroupPerfMetricsRecord ℕ)) × GroupReach whole 2 0
      (some known) clock clock none (add_targets no_targets volumes) t
    × (t.phase ≡ Phase.closed)
    × Perm t.sent (
        expected 2 (group_work whole 0 (some known) clock clock none) (empty_sg_perf whole)
          (add_targets no_targets volumes).array2sgs)

group_run : (known : Dict (List (PowerMaxArray ℕ))) → GroupRun known
group_run known =
    gather_finishes 2 (group_work whole 0 (some known) clock clock none) (empty_sg_perf whole)
      (omega arith) (add_targets no_targets volumes).array2sgs here

groups_isolated_example :
    Perm
      (filter (has_key (λ r. r.array_id) array1) (group_run clients).0.sent)
      (filter (has_key (λ r. r.array_id) array1) (group_run one_array).0.sent)
unfolding get_powermax_client first_active lookup text_eq
groups_isolated_example =
    groups_isolated whole 0 none (some clients) (some one_array) 2 2 clock clock clock clock volumes
      (add_targets no_targets volumes).array2sgs (add_targets no_targets volumes).array2sgs array1
      refl refl refl (Perm.refl _) (Perm.refl _) (group_run clients).1 (group_run clients).2
      (group_run one_array).1 (group_run one_array).2
