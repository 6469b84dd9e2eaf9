-- ===== src/Metric/Performance/Collect/Schedules.antt =====
-- `Collect` of internal/service/metric/performance_metrics.go under every schedule of its goroutines:
-- the two gatherers with their pushers, which run side by side.
use mathlib.Core.List.{Perm}
use csm_metrics_powermax.Prelude.{
  ℕ, Text, Error, ok, codes, ◌≡◌, ◌<◌, refl, true, List, [], ◌∷◌, Option, none, some, filter_map,
  subst, sym, ◌∙◌,
}
use csm_metrics_powermax.Prelude.Dict.{Dict, keys}
use csm_metrics_powermax.Prelude.Float.{Float64}
use csm_metrics_powermax.K8s.Volumes.{VolumeInfo}
use csm_metrics_powermax.Metric.Fanout.{expected}
use csm_metrics_powermax.Metric.Push.Stream.{Stream, StreamReach}
use csm_metrics_powermax.Metric.Push.Stream.Closed.{stream_closed}
use csm_metrics_powermax.Metric.Push.Stream.Progress.{stream_finishes}
use csm_metrics_powermax.Metric.Types.{
  PowerMaxArray, StorageGroupPerfMetricsRecord, VolumePerfMetricsRecord,
}
use csm_metrics_powermax.Metric.Performance.SgCache.{SgCountCache}
use csm_metrics_powermax.Metric.Performance.Targets.{add_targets, no_targets, Targets}
use csm_metrics_powermax.Metric.Performance.Volumes.{last_avail_times, volume_perf_work}
use csm_metrics_powermax.Metric.Performance.Collect.{
  collect_performance, empty_sg_perf, empty_volume_perf, group_work,
}
use csm_metrics_powermax.Metric.Performance.Collect.Listing.{add_targets-IsNodup}
use csm_metrics_powermax.Metric.Performance.Push.{
  push_volume_performance_metrics, push_storage_group_performance_metrics,
}
use csm_metrics_powermax.Metric.Performance.Collect.InTurn.{gather_groups_in_turn}

-- The number of slots does not matter to what the channel carries in the end.
expected-limit :
    {Job Out : Type 0} (l m : ℕ) (work : Job → List Out) (empty : Out) (jobs : List Job)
    → expected l work empty jobs ≡ expected m work empty jobs
expected-limit l m work empty [] = refl
expected-limit l m work empty (j ∷ jobs) = refl

module _ {F : Type 0} (fl : Float64 F) (limit : ℕ) (ratio : F)
    (clients : Option (Dict (List (PowerMaxArray F)))) (now fetched : Text → ℕ)
    (cache : SgCountCache) (record_volume : Text → VolumePerfMetricsRecord F → Option Error)
    (record_group : Text → StorageGroupPerfMetricsRecord F → Option Error)
    (pvs : List VolumeInfo) where
  abbrev targets : Targets
  targets = add_targets no_targets pvs

  -- What the goroutine of a record sends on.
  abbrev volume_name : VolumePerfMetricsRecord F → Option Text
  volume_name m = elim (record_volume (codes "powermax_volume") m) [
    | none ↦ some m.volume_id
    | some _ ↦ none
  ]

  abbrev group_name : StorageGroupPerfMetricsRecord F → Option Text
  group_name m = elim (record_group (codes "powermax_storage_group") m) [
    | none ↦ some m.storage_group_id
    | some _ ↦ none
  ]

  -- The states of the goroutine of the volumes, and of that of the groups.
  abbrev pub VolumeStreamReach : Stream (Text × List Text) (VolumePerfMetricsRecord F) Text → Type 0
  VolumeStreamReach s =
      StreamReach limit
        (volume_perf_work clients (last_avail_times clients [] (keys targets.array2sgs))
          targets.id2volume)
        (empty_volume_perf fl) volume_name targets.array2sgs s

  abbrev pub GroupStreamReach :
      Stream (Text × List Text) (StorageGroupPerfMetricsRecord F) Text → Type 0
  GroupStreamReach s =
      StreamReach limit (group_work fl ratio clients now fetched cache) (empty_sg_perf fl)
        group_name targets.array2sgs s

  -- What has been received agrees with the collection that serves the arrays one by one.
  abbrev pub AsInTurn : List Text → List Text → Type 0
  AsInTurn volumes groups =
      (vs : List Text) × (gs : List Text) × (last : SgCountCache) × (collect_performance fl (ok pvs)
          ratio clients now fetched record_volume record_group cache
        ≡ (ok (vs, gs), last))
      × Perm volumes vs
      × Perm groups gs

  abbrev volume_work : Text × List Text → List (VolumePerfMetricsRecord F)
  volume_work =
      volume_perf_work clients (last_avail_times clients [] (keys targets.array2sgs))
        targets.id2volume

  abbrev work_of_groups : Text × List Text → List (StorageGroupPerfMetricsRecord F)
  work_of_groups = group_work fl ratio clients now fetched cache

  as_in_turn :
      (volumes groups : List Text)
      → Perm volumes (
          filter_map volume_name
            (expected limit volume_work (empty_volume_perf fl) targets.array2sgs))
      → Perm groups (
          filter_map group_name
            (expected limit work_of_groups (empty_sg_perf fl) targets.array2sgs))
      → AsInTurn volumes groups
  unfolding collect_performance push_volume_performance_metrics
      push_storage_group_performance_metrics
  as_in_turn volumes groups p q = (
    _,
    _,
    _,
    refl,
    subst (λ rs. Perm volumes (filter_map volume_name rs))
        (expected-limit limit 1 volume_work (empty_volume_perf fl) targets.array2sgs) p,
    subst (λ rs. Perm groups (filter_map group_name rs))
        (expected-limit limit 1 work_of_groups (empty_sg_perf fl) targets.array2sgs
          ∙ sym (
              gather_groups_in_turn fl ratio clients now fetched cache targets.array2sgs
                (add_targets-IsNodup no_targets pvs tt)))
        q,
  )

  -- However the goroutines of the two gatherers and of the two pushers are scheduled, and in whatever
  -- way those of the volumes and of the groups overlap, when both result channels are closed
  -- `Collect` has received the names that it receives if the arrays are served one after the other:
  -- one for each record that the recorder accepts, up to order.
  pub performance_closed :
      {v : Stream (Text × List Text) (VolumePerfMetricsRecord F) Text}
      {g : Stream (Text × List Text) (StorageGroupPerfMetricsRecord F) Text}
      → VolumeStreamReach v
      → v.is_closed ≡ true
      → GroupStreamReach g
      → g.is_closed ≡ true
      → AsInTurn v.names g.names
  performance_closed {v} {g} r c q d =
      as_in_turn v.names g.names
        (stream_closed limit volume_work (empty_volume_perf fl) volume_name targets.array2sgs r c)
        (stream_closed limit work_of_groups (empty_sg_perf fl) group_name targets.array2sgs q d)

  -- With at least one connection neither half of the collection gets stuck: from wherever schedules
  -- have led the two, both result channels can still be closed, with just these names.
  pub performance_finishes :
      0 < limit
      → {v : Stream (Text × List Text) (VolumePerfMetricsRecord F) Text}
        {g : Stream (Text × List Text) (StorageGroupPerfMetricsRecord F) Text}
      → VolumeStreamReach v
      → GroupStreamReach g
      → (v' : Stream (Text × List Text) (VolumePerfMetricsRecord F) Text) × (g' : Stream
          (Text × List Text)
          (StorageGroupPerfMetricsRecord F)
          Text)
        × VolumeStreamReach v'
        × (v'.is_closed ≡ true)
        × GroupStreamReach g'
        × (g'.is_closed ≡ true)
        × AsInTurn v'.names g'.names
  performance_finishes h r q =
      let (v', r', c, p) =
        stream_finishes limit volume_work (empty_volume_perf fl) volume_name h targets.array2sgs
          r in
      let (g', q', d, p') =
        stream_finishes limit work_of_groups (empty_sg_perf fl) group_name h targets.array2sgs q in
      (v', g', r', c, q', d, as_in_turn v'.names g'.names p p')
