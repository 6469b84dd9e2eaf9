-- ===== src/Metric/Capacity/Collect/Totals.antt =====
-- The totals of an array against its volumes: what the sums of `pushCapacityMetrics` mean.
use mathlib.Core.List.{Perm}
use csm_metrics_powermax.Prelude.{
  ℕ, Text, ok, Result-cases, ◌≡◌, ◌≢◌, refl, sym, ap, ◌∙◌, List, [], ◌∷◌, Option, none, some,
  Option-cases, inl, inr, All, filter, filter_map, get_or_default,
}
use csm_metrics_powermax.Prelude.Dict.{Dict, lookup}
use csm_metrics_powermax.Prelude.Float.{Float64}
use csm_metrics_powermax.Prelude.Perms.{filter-perm}
use csm_metrics_powermax.Prelude.Picks.{made_for_lem, has_key, made_for}
use csm_metrics_powermax.K8s.Volumes.{VolumeInfo}
use csm_metrics_powermax.Metric.Base.{get_powermax_client}
use csm_metrics_powermax.Metric.Fanout.{Phase, Pool}
use csm_metrics_powermax.Metric.Fanout.Invariant.{expected-eq, gather_closed}
use csm_metrics_powermax.Metric.Types.{PowerMaxArray, PowerMaxClient}
use csm_metrics_powermax.Metric.Capacity.Arrays.{
  capacity_of, capacity_record, collect_array_capacity_metrics_lem,
}
use csm_metrics_powermax.Metric.Capacity.Collect.{CapacityReach, capacity_work, empty_capacity}
use csm_metrics_powermax.Metric.Capacity.Collect.Records.{capacity_of-record}
use csm_metrics_powermax.Metric.Capacity.Cumulate.{
  Metric, cumulate_stream, cumulate_stream_lem, no_metrics, sum_of,
}
use csm_metrics_powermax.Metric.Capacity.Group.{group_volumes, group_volumes_lem, is_on}

module _ {F : Type 0} (fl : Float64 F) where
  records_on :
      (c : PowerMaxClient F) (a : Text) (vs : List VolumeInfo)
      → All (λ r. r.array_id ≡ a) (filter_map (capacity_of fl c a) vs)
  unfolding capacity_record
  records_on c a [] = tt
  records_on c a (v ∷ vs) = elim (Option-cases (capacity_of fl c a v)) [
    | inl e ↦ rw (e, All) (records_on c a vs)
    | inr (r, e) ↦
        let (t, u, p, same) = capacity_of-record fl c a v r e in
        rw (e, All) (ap (λ x. x.array_id) (sym same), records_on c a vs)
  ]

  module _ (clients : Option (Dict (List (PowerMaxArray F)))) where
    pub work_on :
        (a : Text) (vs : List VolumeInfo)
        → All (λ r. r.array_id ≡ a) (capacity_work fl clients (a, vs))
    unfolding capacity_work
    work_on a vs = elim (Result-cases (get_powermax_client clients a)) [
      | inl (x, e) ↦ rw (e, capacity_work) tt
      | inr (none, e) ↦ rw (e, capacity_work) tt
      | inr (some c, e) ↦
          rw (e, capacity_work, collect_array_capacity_metrics_lem fl c a vs) (records_on c a vs)
    ]

    -- What the array's goroutine makes, by the listing.
    made_for-array :
        (pvs : List VolumeInfo) (a : Text) (c : PowerMaxClient F)
        → get_powermax_client clients a ≡ ok (some c)
        → made_for (λ r. r.array_id) (capacity_work fl clients) work_on a (group_volumes [] pvs)
          ≡ filter_map (capacity_of fl c a) (filter (is_on a) pvs)
    unfolding capacity_work
    made_for-array pvs a c h =
        let those = (group_volumes_lem pvs).1 a in
        elim (Option-cases (lookup a (group_volumes [] pvs))) [
          | inl e ↦
              let nothing : filter (is_on a) pvs ≡ [] = sym those ∙ ap (get_or_default []) e in
              rw (made_for, e, nothing) refl
          | inr (vs, e) ↦
              let all : vs ≡ filter (is_on a) pvs = sym (ap (get_or_default []) e) ∙ those in
              rw (made_for, e, ← all, capacity_work, h)
                (collect_array_capacity_metrics_lem fl c a vs)
        ]

    -- In every schedule, when the channel is closed, the sum of an array whose client is found adds
    -- up just the capacities of the listed volumes that lie on it, one for each volume that the array
    -- answers for, in the order of their arrival; the array has no sum if there is none. Volumes of
    -- other arrays, and the order and the failures of the other arrays, make no difference.
    pub array_total_lem :
        (limit : ℕ) (pvs : List VolumeInfo) (a : Text) (c : PowerMaxClient F)
        {s : Pool (Text × List VolumeInfo) (Metric fl)}
        → group_volumes [] pvs ≢ []
        → get_powermax_client clients a ≡ ok (some c)
        → CapacityReach fl limit clients pvs s
        → s.phase ≡ Phase.closed
        → (records : List (Metric fl)) × (lookup a
              (cumulate_stream fl (no_metrics fl) s.sent).array_id_map
            ≡ sum_of fl records)
          × Perm records (filter_map (capacity_of fl c a) (filter (is_on a) pvs))
    array_total_lem limit pvs a c {s} some_array h r d =
        let jobs = group_volumes [] pvs in
        (
          filter (has_key (λ x. x.array_id) a) s.sent,
          (cumulate_stream_lem fl s.sent a).0,
          rw
              (
                ← made_for-array pvs a c h,
                ← made_for_lem (λ r. r.array_id) (capacity_work fl clients) work_on a jobs
                    (group_volumes_lem pvs).0,
                expected-eq limit (capacity_work fl clients) (empty_capacity fl) jobs some_array,
              )
              (filter-perm (has_key (λ x. x.array_id) a)
                (gather_closed limit (capacity_work fl clients) (empty_capacity fl) jobs r d)),
        )
