-- ===== src/Metric/Performance/Collect/InTurn.antt =====
-- The storage groups of an array do not depend on which arrays were served before, though all
-- goroutines share the cache of group counts.
use csm_metrics_powermax.Prelude.{
  ℕ, Text, Result, text_eq_iff, ◌≡◌, ◌≢◌, refl, ap, ◌∙◌, List, [], ◌∷◌, ◌++◌, Option, none, some,
  Option-cases, Result-cases, inl, inr, arith, flat_map, false, All,
}
use csm_metrics_powermax.Prelude.Dict.{Dict, keys, IsNodup, member}
use csm_metrics_powermax.Prelude.Float.{Float64}
use csm_metrics_powermax.Metric.Base.{get_powermax_client}
use csm_metrics_powermax.Metric.Fanout.{expected}
use csm_metrics_powermax.Metric.Types.{PowerMaxArray, PowerMaxClient, StorageGroupPerfMetricsRecord}
use csm_metrics_powermax.Metric.Performance.SgCache.{
  SgCountCache, entry_of, fresh_count, fresh_count-entry, get_total_sg_count,
  get_total_sg_count_frame,
}
use csm_metrics_powermax.Metric.Performance.StorageGroups.{sg_perf_work}
use csm_metrics_powermax.Metric.Performance.StorageGroups.Records.{bulk_counts, sg_perf_work_either}
use csm_metrics_powermax.Metric.Performance.Collect.{
  group_work, groups_in_turn, gather_storage_group_performance_metrics, empty_sg_perf,
}

-- A count depends on the cache only through the entry of its array.
get_total_sg_count-entry :
    (cache cache' : SgCountCache) (a : Text) (now fetched : ℕ) (list : Result (List Text))
    → entry_of a cache' ≡ entry_of a cache
    → (get_total_sg_count cache' a now fetched list).0
      ≡ (get_total_sg_count cache a now fetched list).0
unfolding get_total_sg_count
get_total_sg_count-entry cache cache' a now fetched list e =
    let same = fresh_count-entry cache cache' a now e in
    elim (Option-cases (fresh_count cache a now)) [
      | inl f ↦ elim (Result-cases list) [
        | inl (x, g) ↦ ground (arith, same)
        | inr (ids, g) ↦ ground (arith, same)
      ]
      | inr (n, f) ↦ ground (arith, same)
    ]

module _ {F : Type 0} (fl : Float64 F) (ratio : F)
    (clients : Option (Dict (List (PowerMaxArray F)))) where
  -- The work of one array leaves the entries of the others alone.
  sg_perf_work_frame :
      (cache : SgCountCache) (a b : Text) (sgs : List Text) (now fetched : ℕ)
      → a ≢ b
      → entry_of b (sg_perf_work fl ratio clients now fetched cache (a, sgs)).1 ≡ entry_of b cache
  unfolding sg_perf_work
  sg_perf_work_frame cache a b sgs now fetched other =
      elim (Result-cases (get_powermax_client clients a)) [
        | inl (x, e) ↦ rw (e, sg_perf_work) refl
        | inr (none, e) ↦ rw (e, sg_perf_work) refl
        | inr (some c, e) ↦
            rw (e, sg_perf_work)
              (ground (
                arith,
                get_total_sg_count_frame cache a b now fetched (c.get_storage_group_id_list a),
              ))
      ]

  bulk_counts-entry :
      (cache cache' : SgCountCache) (c : PowerMaxClient F) (a : Text) (sgs : List Text)
      (now fetched : ℕ)
      → entry_of a cache' ≡ entry_of a cache
      → bulk_counts fl ratio now fetched cache' c a sgs
        ≡ bulk_counts fl ratio now fetched cache c a sgs
  bulk_counts-entry cache cache' c a sgs now fetched h =
      rw
        (
          bulk_counts,
          get_total_sg_count-entry cache cache' a now fetched (c.get_storage_group_id_list a) h,
        )
        refl

  sg_perf_work-entry :
      (cache cache' : SgCountCache) (a : Text) (sgs : List Text) (now fetched : ℕ)
      → entry_of a cache' ≡ entry_of a cache
      → (sg_perf_work fl ratio clients now fetched cache' (a, sgs)).0
        ≡ (sg_perf_work fl ratio clients now fetched cache (a, sgs)).0
  unfolding sg_perf_work
  sg_perf_work-entry cache cache' a sgs now fetched h =
      elim (Result-cases (get_powermax_client clients a)) [
        | inl (x, e) ↦ rw (e, sg_perf_work) refl
        | inr (none, e) ↦ rw (e, sg_perf_work) refl
        | inr (some c, e) ↦
            rw
              (
                sg_perf_work_either fl ratio now fetched cache' clients a sgs e,
                sg_perf_work_either fl ratio now fetched cache clients a sgs e,
                bulk_counts-entry cache cache' c a sgs now fetched h,
              )
              refl
      ]

  module _ (now fetched : Text → ℕ) where
    abbrev alone : SgCountCache → Text × List Text → List (StorageGroupPerfMetricsRecord F)
    alone cache = group_work fl ratio clients now fetched cache

    alone-entry :
        (cache cache' : SgCountCache) (jobs : Dict (List Text))
        → All (λ b. entry_of b cache' ≡ entry_of b cache) (keys jobs)
        → flat_map (alone cache') jobs ≡ flat_map (alone cache) jobs
    unfolding group_work
    alone-entry cache cache' [] h = refl
    alone-entry cache cache' ((a, sgs) ∷ jobs) (e, h) =
        rw
          (
            sg_perf_work-entry cache cache' a sgs (now a) (fetched a) e,
            alone-entry cache cache' jobs h,
          )
          refl

    frame-All :
        (cache : SgCountCache) (a : Text) (sgs : List Text) (bs : List Text)
        → member a bs ≡ false
        → All
            (λ b.
              entry_of b (sg_perf_work fl ratio clients (now a) (fetched a) cache (a, sgs)).1
              ≡ entry_of b cache)
            bs
    unfolding member
    frame-All cache a sgs [] h = tt
    frame-All cache a sgs (b ∷ bs) h = (
      sg_perf_work_frame cache a b sgs (now a) (fetched a) (λ e. ground (arith, text_eq_iff b a)),
      frame-All cache a sgs bs (ground arith),
    )

    groups_in_turn_lem :
        (cache : SgCountCache) (jobs : Dict (List Text))
        → IsNodup (keys jobs)
        → (groups_in_turn fl ratio clients now fetched cache jobs).0 ≡ flat_map (alone cache) jobs
    unfolding groups_in_turn group_work
    groups_in_turn_lem cache [] h = refl
    groups_in_turn_lem cache ((a, sgs) ∷ jobs) (new, h) =
        let cache' = (sg_perf_work fl ratio clients (now a) (fetched a) cache (a, sgs)).1 in
        ap (λ rs. (sg_perf_work fl ratio clients (now a) (fetched a) cache (a, sgs)).0 ++ rs)
          (groups_in_turn_lem cache' jobs h
            ∙ alone-entry cache cache' jobs (frame-All cache a sgs (keys jobs) new))

    -- Served one after the other on the cache that they share, distinct arrays send what each of
    -- them would send if it were served first, on the cache as it was: which arrays come before,
    -- what they store, and when, makes no difference.
    pub gather_groups_in_turn :
        (cache : SgCountCache) (jobs : Dict (List Text))
        → IsNodup (keys jobs)
        → (gather_storage_group_performance_metrics fl ratio clients now fetched cache jobs).0
          ≡ expected 1 (alone cache) (empty_sg_perf fl) jobs
    unfolding gather_storage_group_performance_metrics
    gather_groups_in_turn cache [] h = refl
    gather_groups_in_turn cache (j ∷ jobs) h = groups_in_turn_lem cache (j ∷ jobs) h
