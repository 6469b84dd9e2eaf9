-- ===== src/Metric/Isolation.antt =====
-- The arrays do not disturb each other: what is received of one does not depend on the others.
use mathlib.Core.List.{Perm}
use mathlib.Core.List.Perm
use csm_metrics_powermax.Prelude.{
  ℕ, Text, All, All-map, ◌≡◌, refl, ap, ◌∙◌, List, [], Option, filter,
}
use csm_metrics_powermax.Prelude.Dict.{Dict}
use csm_metrics_powermax.Prelude.Float.{Float64}
use csm_metrics_powermax.Prelude.Picks.{has_key}
use csm_metrics_powermax.K8s.Volumes.{VolumeInfo}
use csm_metrics_powermax.Metric.Base.{get_powermax_client}
use csm_metrics_powermax.Metric.Fanout.{Phase, Pool, Reach}
use csm_metrics_powermax.Metric.Fanout.Isolated.{isolated}
use csm_metrics_powermax.Metric.Types.{PowerMaxArray, StorageGroupPerfMetricsRecord}
use csm_metrics_powermax.Metric.Capacity.Collect.{CapacityReach, capacity_work, empty_capacity}
use csm_metrics_powermax.Metric.Capacity.Collect.Totals.{work_on}
use csm_metrics_powermax.Metric.Capacity.Cumulate.{Metric}
use csm_metrics_powermax.Metric.Capacity.Group.{group_volumes, group_volumes_lem}
use csm_metrics_powermax.Metric.Performance.SgCache.{SgCountCache}
use csm_metrics_powermax.Metric.Performance.StorageGroups.{sg_perf_work}
use csm_metrics_powermax.Metric.Performance.StorageGroups.Records.{IsAsked, sg_perf_work-IsAsked}
use csm_metrics_powermax.Metric.Performance.Collect.{empty_sg_perf, group_work}
use csm_metrics_powermax.Metric.Performance.Collect.Listing.{add_targets-IsNodup}
use csm_metrics_powermax.Metric.Performance.Targets.{add_targets, no_targets}

module _ {F : Type 0} (fl : Float64 F) where
  same_capacity_work :
      (clients clients' : Option (Dict (List (PowerMaxArray F)))) (a : Text) (vs : List VolumeInfo)
      → get_powermax_client clients a ≡ get_powermax_client clients' a
      → capacity_work fl clients (a, vs) ≡ capacity_work fl clients' (a, vs)
  unfolding capacity_work
  same_capacity_work clients clients' a vs e = rw (capacity_work, e) refl

  -- Two capacity collections of the same volumes in which an array has the same client receive the
  -- same records of that array, up to order: with whatever limits and schedules, and whatever the
  -- clients of the other arrays are, answer, or fail to answer.
  capacity_isolated :
      (clients clients' : Option (Dict (List (PowerMaxArray F)))) (limit limit' : ℕ)
      (pvs : List VolumeInfo) (a : Text) {s t : Pool (Text × List VolumeInfo) (Metric fl)}
      → get_powermax_client clients a ≡ get_powermax_client clients' a
      → CapacityReach fl limit clients pvs s
      → s.phase ≡ Phase.closed
      → CapacityReach fl limit' clients' pvs t
      → t.phase ≡ Phase.closed
      → Perm
          (filter (has_key (λ r. r.array_id) a) s.sent)
          (filter (has_key (λ r. r.array_id) a) t.sent)
  capacity_isolated clients clients' limit limit' pvs a e r c q d =
      isolated (λ r. r.array_id) (empty_capacity fl) (capacity_work fl clients)
        (capacity_work fl clients') (work_on fl clients) (work_on fl clients') a
        (λ vs. same_capacity_work clients clients' a vs e) limit limit' (group_volumes [] pvs)
        (group_volumes [] pvs) (group_volumes [] pvs) (group_volumes_lem pvs).0 (Perm.refl _)
        (Perm.refl _) r c q d

  module _ (ratio : F) (cache : SgCountCache) where
    same_group_work :
        (clients clients' : Option (Dict (List (PowerMaxArray F))))
        (now fetched now' fetched' : Text → ℕ) (a : Text) (sgs : List Text)
        → get_powermax_client clients a ≡ get_powermax_client clients' a
        → now a ≡ now' a
        → fetched a ≡ fetched' a
        → group_work fl ratio clients now fetched cache (a, sgs)
          ≡ group_work fl ratio clients' now' fetched' cache (a, sgs)
    unfolding group_work sg_perf_work
    same_group_work clients clients' now fetched now' fetched' a sgs e n f =
        same_client e
        ∙ ap (λ i. (sg_perf_work fl ratio clients' i (fetched a) cache (a, sgs)).0) n
        ∙ ap (λ i. (sg_perf_work fl ratio clients' (now' a) i cache (a, sgs)).0) f
      where
        same_client :
            get_powermax_client clients a ≡ get_powermax_client clients' a
            → group_work fl ratio clients now fetched cache (a, sgs)
              ≡ group_work fl ratio clients' now fetched cache (a, sgs)
        same_client h = rw (group_work, sg_perf_work, h) refl

    groups_on :
        (clients : Option (Dict (List (PowerMaxArray F)))) (now fetched : Text → ℕ) (a : Text)
        (sgs : List Text)
        → All (λ r. r.array_id ≡ a) (group_work fl ratio clients now fetched cache (a, sgs))
    unfolding group_work
    groups_on clients now fetched a sgs =
        All-map (IsAsked a sgs) (λ r. r.array_id ≡ a) (λ r h. h.0) _
          (sg_perf_work-IsAsked fl ratio (now a) (fetched a) cache clients a sgs)

    -- Two collections of the storage groups of the same volumes, with the same threshold ratio, the
    -- same cache of group counts at their start and for an array the same client and the same two
    -- readings of the clock, receive the same records of that array, up to order: with whatever
    -- limits and schedules, in whatever order the arrays are visited, and whatever the clients and
    -- the readings of the other arrays are.
    pub groups_isolated :
        (clients clients' : Option (Dict (List (PowerMaxArray F)))) (limit limit' : ℕ)
        (now fetched now' fetched' : Text → ℕ) (pvs : List VolumeInfo)
        (visited visited' : Dict (List Text)) (a : Text)
        {s t : Pool (Text × List Text) (StorageGroupPerfMetricsRecord F)}
        → get_powermax_client clients a ≡ get_powermax_client clients' a
        → now a ≡ now' a
        → fetched a ≡ fetched' a
        → Perm visited (add_targets no_targets pvs).array2sgs
        → Perm visited' (add_targets no_targets pvs).array2sgs
        → Reach limit (group_work fl ratio clients now fetched cache) (empty_sg_perf fl) visited s
        → s.phase ≡ Phase.closed
        → Reach limit'
            (group_work fl ratio clients' now' fetched' cache)
            (empty_sg_perf fl)
            visited'
            t
        → t.phase ≡ Phase.closed
        → Perm
            (filter (has_key (λ r. r.array_id) a) s.sent)
            (filter (has_key (λ r. r.array_id) a) t.sent)
    groups_isolated clients clients' limit limit' now fetched now' fetched' pvs visited visited' a e
          n f v v' r c q d =
        isolated (λ r. r.array_id) (empty_sg_perf fl)
          (group_work fl ratio clients now fetched cache)
          (group_work fl ratio clients' now' fetched' cache) (groups_on clients now fetched)
          (groups_on clients' now' fetched') a
          (λ sgs. same_group_work clients clients' now fetched now' fetched' a sgs e n f) limit
          limit' (add_targets no_targets pvs).array2sgs visited visited'
          (add_targets-IsNodup no_targets pvs tt) v v' r c q d
