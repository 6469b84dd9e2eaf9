-- ===== src/Metric/Capacity/Collect/Schedules.antt =====
-- `Collect` of internal/service/metric/capacity_metrics.go under every schedule of its goroutines: the
-- gatherer, and the pusher that adds up what it receives in the order of its arrival.
use mathlib.Core.List.{Perm}
use mathlib.Core.List.Perm
use csm_metrics_powermax.Prelude.{
  ℕ, Text, Error, ◌≡◌, ◌<◌, true, List, [], Option, none, some, filter,
}
use csm_metrics_powermax.Prelude.Dict.{Dict, lookup}
use csm_metrics_powermax.Prelude.Float.{Float64}
use csm_metrics_powermax.Prelude.Perms.{filter-perm}
use csm_metrics_powermax.K8s.Volumes.{VolumeInfo}
use csm_metrics_powermax.Metric.Fanout.{expected}
use csm_metrics_powermax.Metric.Fanout.Invariant.{gather_closed}
use csm_metrics_powermax.Metric.Fanout.Visits.{gather_closed_in, same_limits}
use csm_metrics_powermax.Prelude.Picks.{has_key}
use csm_metrics_powermax.Metric.Push.Batch.{Batch, BatchReach}
use csm_metrics_powermax.Metric.Push.Batch.Closed.{batch_closed}
use csm_metrics_powermax.Metric.Push.Batch.Progress.{batch_finishes}
use csm_metrics_powermax.Metric.Types.{PowerMaxArray}
use csm_metrics_powermax.Metric.Capacity.Collect.{capacity_work, empty_capacity}
use csm_metrics_powermax.Metric.Capacity.Cumulate.{
  CapacityMaps, Metric, cumulate_stream, cumulate_stream_lem, no_metrics, srp_key,
  storage_group_key, sum_for, sum_of, volume_key,
}
use csm_metrics_powermax.Metric.Capacity.Group.{group_volumes}
use csm_metrics_powermax.Metric.Capacity.Push.{NumericCall, capacity_calls, push_capacity_metrics}

module _ {F : Type 0} (fl : Float64 F) where
  abbrev pub Run : Type 0
  Run = Batch (Text × List VolumeInfo) (Metric fl) (NumericCall F) Text

  -- The maps at the end of the stream that the pusher has received.
  abbrev pub maps_of : Run → CapacityMaps fl
  maps_of s = cumulate_stream fl (no_metrics fl) s.pool.sent

  -- The two maps hold for each key the sums of the records with that key, out of `rs` and out of
  -- `rs'`, each in its order, and these are the same records.
  abbrev pub SameSums :
      (Metric fl → Text)
      → List (Metric fl)
      → List (Metric fl)
      → Dict (Metric fl)
      → Dict (Metric fl)
      → Type 0
  SameSums key rs rs' m m' =
      (k : Text)
      → (lookup k m ≡ sum_of fl (filter (has_key key k) rs))
        × (lookup k m' ≡ sum_of fl (filter (has_key key k) rs'))
        × Perm (filter (has_key key k) rs) (filter (has_key key k) rs')

  abbrev pub MapsAgree :
      List (Metric fl) → List (Metric fl) → CapacityMaps fl → CapacityMaps fl → Type 0
  MapsAgree rs rs' m m' =
      SameSums (λ x. x.array_id) rs rs' m.array_id_map m'.array_id_map
      × SameSums (λ x. x.storage_class) rs rs' m.storage_class_map m'.storage_class_map
      × SameSums (storage_group_key fl) rs rs' m.storage_group_map m'.storage_group_map
      × SameSums (srp_key fl) rs rs' m.srp_map m'.srp_map
      × SameSums (volume_key fl) rs rs' m.volume_id_map m'.volume_id_map

  same_sums :
      (key : Metric fl → Text) (m m' : Dict (Metric fl)) (rs rs' : List (Metric fl))
      → ((k : Text) → lookup k m ≡ sum_for fl key k rs)
      → ((k : Text) → lookup k m' ≡ sum_for fl key k rs')
      → Perm rs rs'
      → SameSums key rs rs' m m'
  same_sums key m m' rs rs' h h' p k = (h k, h' k, filter-perm (has_key key k) p)

  maps_agree :
      (rs rs' : List (Metric fl))
      → Perm rs rs'
      → MapsAgree rs rs'
          (cumulate_stream fl (no_metrics fl) rs)
          (cumulate_stream fl (no_metrics fl) rs')
  maps_agree rs rs' p =
      let sums = cumulate_stream_lem fl rs in
      let sums' = cumulate_stream_lem fl rs' in
      (
        same_sums (λ x. x.array_id) _ _ rs rs' (λ k. (sums k).0) (λ k. (sums' k).0) p,
        same_sums (λ x. x.storage_class) _ _ rs rs' (λ k. (sums k).1) (λ k. (sums' k).1) p,
        same_sums (storage_group_key fl) _ _ rs rs' (λ k. (sums k).2) (λ k. (sums' k).2) p,
        same_sums (srp_key fl) _ _ rs rs' (λ k. (sums k).3) (λ k. (sums' k).3) p,
        same_sums (volume_key fl) _ _ rs rs' (λ k. (sums k).4) (λ k. (sums' k).4) p,
      )

  -- What the goroutine of a call sends on.
  abbrev pub accepted : (NumericCall F → Option Error) → NumericCall F → Option Text
  accepted recorder c = elim (recorder c) [ none ↦ some c.sent_name | some _ ↦ none ]

  module _ (limit : ℕ) (clients : Option (Dict (List (PowerMaxArray F))))
      (recorder : NumericCall F → Option Error) (pvs : List VolumeInfo) where
    abbrev calls_of : List (Metric fl) → List (NumericCall F)
    calls_of rs = capacity_calls fl (cumulate_stream fl (no_metrics fl) rs)

    abbrev pub CapacityRunReach : Run → Type 0
    CapacityRunReach s =
        BatchReach limit (capacity_work fl clients) (empty_capacity fl) calls_of (accepted recorder)
          (group_volumes [] pvs) s

    received :
        {s : Run}
        → CapacityRunReach s
        → s.is_closed ≡ true
        → Perm s.pool.sent
            (expected limit (capacity_work fl clients) (empty_capacity fl) (group_volumes [] pvs))
    received r c =
        let (q, f, p) =
          batch_closed limit (capacity_work fl clients) (empty_capacity fl) calls_of
            (accepted recorder) (group_volumes [] pvs) r c in
        gather_closed limit (capacity_work fl clients) (empty_capacity fl) (group_volumes [] pvs) q
          f

    -- When the result channel is closed, `Collect` has received the names of those calls that the
    -- recorder accepts, out of the calls that the five sums of the received records ask for, each
    -- exactly once; and the records are those of every array, each exactly once, up to order.
    pub capacity_closed :
        {s : Run}
        → CapacityRunReach s
        → s.is_closed ≡ true
        → Perm s.names (push_capacity_metrics fl recorder s.pool.sent)
          × Perm s.pool.sent
              (expected limit (capacity_work fl clients) (empty_capacity fl) (group_volumes [] pvs))
    unfolding push_capacity_metrics
    capacity_closed r c = (
      (batch_closed limit (capacity_work fl clients) (empty_capacity fl) calls_of
          (accepted recorder) (group_volumes [] pvs) r c).2,
      received r c,
    )

    -- With at least one connection the collection never gets stuck: from wherever a schedule has led,
    -- the result channel can still be closed, with the names of the calls that the recorder accepts.
    pub capacity_finishes :
        0 < limit
        → {s : Run} → CapacityRunReach s
        → (t : Run) × CapacityRunReach t
          × (t.is_closed ≡ true)
          × Perm t.names (push_capacity_metrics fl recorder t.pool.sent)
    unfolding push_capacity_metrics
    capacity_finishes h r =
        batch_finishes limit (capacity_work fl clients) (empty_capacity fl) calls_of
          (accepted recorder) h (group_volumes [] pvs) r

  -- The states of a collection that visits the arrays in the order of `visited`.
  abbrev pub VisitReach :
      ℕ
      → Option (Dict (List (PowerMaxArray F)))
      → (NumericCall F → Option Error)
      → Dict (List VolumeInfo)
      → Run
      → Type 0
  VisitReach limit clients recorder visited s =
      BatchReach limit (capacity_work fl clients) (empty_capacity fl)
        (λ rs. capacity_calls fl (cumulate_stream fl (no_metrics fl) rs)) (accepted recorder)
        visited s

  -- What the pusher has received at the end.
  visit_received :
      (limit : ℕ) (clients : Option (Dict (List (PowerMaxArray F))))
      (recorder : NumericCall F → Option Error) (jobs visited : Dict (List VolumeInfo))
      → Perm visited jobs
      → {s : Run} → VisitReach limit clients recorder visited s
      → s.is_closed ≡ true
      → Perm s.pool.sent (expected limit (capacity_work fl clients) (empty_capacity fl) jobs)
  visit_received limit clients recorder jobs visited v r c =
      let (q, f, _) =
        batch_closed limit (capacity_work fl clients) (empty_capacity fl) _ (accepted recorder)
          visited r c in
      gather_closed_in (capacity_work fl clients) (empty_capacity fl) limit jobs visited v q f

  -- Two collections of the same volumes with the same clients add up the same records, whatever
  -- their limits, their recorders and their schedules are and in whatever order each visits the
  -- arrays: each of the five maps holds for each key the sum of the records with that key that its
  -- collection has received, and these records are the same in both, up to the order of their
  -- arrival.
  pub capacity_schedules_agree :
      (clients : Option (Dict (List (PowerMaxArray F)))) (limit limit' : ℕ)
      (recorder recorder' : NumericCall F → Option Error) (pvs : List VolumeInfo)
      (visited visited' : Dict (List VolumeInfo)) {s t : Run}
      → Perm visited (group_volumes [] pvs)
      → Perm visited' (group_volumes [] pvs)
      → VisitReach limit clients recorder visited s
      → s.is_closed ≡ true
      → VisitReach limit' clients recorder' visited' t
      → t.is_closed ≡ true
      → MapsAgree s.pool.sent t.pool.sent (maps_of s) (maps_of t)
  capacity_schedules_agree clients limit limit' recorder recorder' pvs visited visited' {s} {t} v v'
        r c q d =
      maps_agree s.pool.sent t.pool.sent (
        Perm.trans (visit_received limit clients recorder (group_volumes [] pvs) visited v r c) (
          Perm.trans
            (same_limits (capacity_work fl clients) (empty_capacity fl) limit limit'
              (group_volumes [] pvs))
            (Perm.symm
              (visit_received limit' clients recorder' (group_volumes [] pvs) visited' v' q d))))
