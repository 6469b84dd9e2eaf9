-- ===== src/Metric/Performance/StorageGroups/Records.antt =====
-- What the goroutine of one array sends: one source of records, and only groups that are asked for.
use csm_metrics_powermax.Prelude.{
  ℕ, ◌+◌, Text, Result, ok, err, Result-cases, ◌≡◌, refl, List, [], ◌∷◌, ◌++◌, Option, none, some,
  Bool, true, false, ◌&&◌, arith, All, All-append, length, length-append, map, if◌then◌else◌,
  Bool-cases, inl, inr,
}
use csm_metrics_powermax.Prelude.Dict.{Dict, lookup, member, All-member}
use csm_metrics_powermax.Prelude.Float.{Float64}
use csm_metrics_powermax.Prelude.Int.{ℤ}
use csm_metrics_powermax.Metric.Base.{get_powermax_client}
use csm_metrics_powermax.Metric.Types.{
  PowerMaxArray, PowerMaxClient, MetricInstance, StorageGroupMetric, StorageGroupPerfMetricsRecord,
}
use csm_metrics_powermax.Metric.Performance.SgCache.{SgCountCache, get_total_sg_count}
use csm_metrics_powermax.Metric.Performance.Threshold.{use_bulk}
use csm_metrics_powermax.Metric.Performance.StorageGroups.{
  sg_record, emit_samples, emit_instance, emit_instances, sg_perf_metrics_query,
  collect_sg_metrics_bulk, legacy_samples, legacy_groups, collect_sg_metrics_legacy, sg_perf_work,
  sg_times,
}

eq-nil : {A : Type 0} (xs : List A) → length xs ≡ 0 → xs ≡ []
eq-nil [] h = refl
eq-nil (x ∷ xs) h = absurd (omega arith)

module _ {F : Type 0} where
  -- A record of array `a` for one of the groups asked for.
  abbrev pub IsAsked : Text → List Text → StorageGroupPerfMetricsRecord F → Type 0
  IsAsked a sgs r = (r.array_id ≡ a) × (member r.storage_group_id sgs ≡ true)

  -- The counter counts what is sent, and all of it was asked for.
  abbrev IsCounted : Text → List Text → List (StorageGroupPerfMetricsRecord F) × ℕ → Type 0
  IsCounted a sgs out = (out.1 ≡ length out.0) × All (IsAsked a sgs) out.0

  emit_samples-IsCounted :
      (a sg : Text) (sgs : List Text) (ms : List (StorageGroupMetric F))
      (sent : List (StorageGroupPerfMetricsRecord F)) (n : ℕ)
      → member sg sgs ≡ true
      → IsCounted a sgs (sent, n)
      → IsCounted a sgs (emit_samples a sg ms (sent, n))
  unfolding emit_samples
  emit_samples-IsCounted a sg sgs [] sent n known h = h
  emit_samples-IsCounted a sg sgs (m ∷ ms) sent n known (h, all) =
      emit_samples-IsCounted a sg sgs ms (sent ++ sg_record a sg m ∷ []) (n + 1) known (
        omega (arith, length-append sent (sg_record a sg m ∷ [])),
        All-append (IsAsked a sgs) sent (sg_record a sg m ∷ []) all
            (unfold sg_record in ((refl, known), tt)),
      )

  emit_instance-IsCounted :
      (a : Text) (sgs : List Text) (i : MetricInstance F)
      (sent : List (StorageGroupPerfMetricsRecord F)) (n : ℕ)
      → IsCounted a sgs (sent, n)
      → IsCounted a sgs (emit_instance a sgs i (sent, n))
  unfolding emit_instance
  emit_instance-IsCounted a sgs i sent n h = elim (Bool-cases (member i.id sgs)) [
    | inl known ↦
        rw (known, emit_instance) (emit_samples-IsCounted a i.id sgs i.metrics sent n known h)
    | inr other ↦ rw (other, emit_instance) h
  ]

  emit_instances-IsCounted :
      (a : Text) (sgs : List Text) (is : List (MetricInstance F))
      (out : List (StorageGroupPerfMetricsRecord F) × ℕ)
      → IsCounted a sgs out
      → IsCounted a sgs (emit_instances a sgs is out)
  unfolding emit_instances
  emit_instances-IsCounted a sgs [] out h = h
  emit_instances-IsCounted a sgs (i ∷ is) (sent, n) h =
      emit_instances-IsCounted a sgs is (emit_instance a sgs i (sent, n))
        (emit_instance-IsCounted a sgs i sent n h)

  -- A bulk call that did not serve has sent nothing, and whatever it sends was asked for.
  abbrev BulkGood : Text → List Text → Bool × List (StorageGroupPerfMetricsRecord F) → Type 0
  BulkGood a sgs r = (r.0 ≡ false → r.1 ≡ []) × All (IsAsked a sgs) r.1

  bulk-BulkGood :
      (client : PowerMaxClient F) (a : Text) (sgs : List Text)
      → BulkGood a sgs (collect_sg_metrics_bulk client a sgs)
  unfolding collect_sg_metrics_bulk
  bulk-BulkGood client a sgs = go (client.get_storage_group_metrics_bulk a) refl
    where
      go :
          (r : Result (Option (List (MetricInstance F))))
          → client.get_storage_group_metrics_bulk a ≡ r
          → BulkGood a sgs (collect_sg_metrics_bulk client a sgs)
      go (err x) e = rw (e, collect_sg_metrics_bulk) (λ _. refl, tt)
      go (ok none) e = rw (e, collect_sg_metrics_bulk) (λ _. refl, tt)
      go (ok (some is)) e =
          let (counted, asked) = emit_instances-IsCounted a sgs is ([], 0) (refl, tt) in
          rw (e, collect_sg_metrics_bulk) (λ h. eq-nil _ (ground (arith, counted, h)), asked)

  -- A bulk call that did not serve has sent nothing.
  pub bulk_failed_silent :
      (client : PowerMaxClient F) (a : Text) (sgs : List Text)
      → (collect_sg_metrics_bulk client a sgs).0 ≡ false
      → (collect_sg_metrics_bulk client a sgs).1 ≡ []
  bulk_failed_silent client a sgs h = (bulk-BulkGood client a sgs).0 h

  legacy_samples-IsAsked :
      (client : PowerMaxClient F) (a sg : Text) (sgs : List Text) (times : Dict ℤ)
      → member sg sgs ≡ true
      → All (IsAsked a sgs) (legacy_samples client a times sg)
  unfolding legacy_samples sg_record
  legacy_samples-IsAsked client a sg sgs times known = go (lookup sg times) refl
    where
      samples : (ms : List (StorageGroupMetric F)) → All (IsAsked a sgs) (map (sg_record a sg) ms)
      samples [] = tt
      samples (m ∷ ms) = ((refl, known), samples ms)

      go :
          (o : Option ℤ)
          → lookup sg times ≡ o
          → All (IsAsked a sgs) (legacy_samples client a times sg)
      go none e = rw (e, legacy_samples) tt
      go (some t) e =
          elim (Result-cases (client.get_storage_group_metrics a sg sg_perf_metrics_query t t)) [
            | inl (x, f) ↦ rw (e, legacy_samples) (rw f tt)
            | inr (ms, f) ↦ rw (e, legacy_samples) (rw f (samples ms))
          ]

  legacy_groups-IsAsked :
      (client : PowerMaxClient F) (a : Text) (sgs : List Text) (times : Dict ℤ) (rest : List Text)
      → All (λ sg. member sg sgs ≡ true) rest
      → All (IsAsked a sgs) (legacy_groups client a times rest)
  unfolding legacy_groups
  legacy_groups-IsAsked client a sgs times [] h = tt
  legacy_groups-IsAsked client a sgs times (sg ∷ rest) (h, hs) =
      All-append (IsAsked a sgs) (legacy_samples client a times sg) _
        (legacy_samples-IsAsked client a sg sgs times h)
        (legacy_groups-IsAsked client a sgs times rest hs)

  legacy-IsAsked :
      (client : PowerMaxClient F) (a : Text) (sgs : List Text)
      → All (IsAsked a sgs) (collect_sg_metrics_legacy client a sgs)
  unfolding collect_sg_metrics_legacy
  legacy-IsAsked client a sgs = elim (Result-cases (client.get_storage_group_perf_keys a)) [
    | inl (x, e) ↦ rw (e, collect_sg_metrics_legacy) tt
    | inr (infos, e) ↦
        rw (e, collect_sg_metrics_legacy)
          (legacy_groups-IsAsked client a sgs (sg_times sgs [] infos) sgs (All-member sgs))
  ]

module _ {F : Type 0} (fl : Float64 F) (ratio : F) (now fetched : ℕ) (cache : SgCountCache) where
  -- Is the bulk answer the one that counts: the number of groups is known, the monitored share of
  -- them is above the threshold, and the bulk call served?
  abbrev pub bulk_counts : PowerMaxClient F → Text → List Text → Bool
  bulk_counts c a sgs =
      elim (get_total_sg_count cache a now fetched (c.get_storage_group_id_list a)).0 [
        | err _ ↦ false
        | ok n ↦ use_bulk fl ratio n (length sgs) && (collect_sg_metrics_bulk c a sgs).0
      ]

  -- One of the two collecting functions gives the records.
  pub sg_perf_work_either :
      (clients : Option (Dict (List (PowerMaxArray F)))) (a : Text) (sgs : List Text)
      {c : PowerMaxClient F}
      → get_powermax_client clients a ≡ ok (some c)
      → (sg_perf_work fl ratio clients now fetched cache (a, sgs)).0 ≡ (
          if bulk_counts c a sgs
          then (collect_sg_metrics_bulk c a sgs).1
          else collect_sg_metrics_legacy c a sgs)
  unfolding sg_perf_work
  sg_perf_work_either clients a sgs {c} e =
      rw (e, sg_perf_work) (ground (arith, bulk_failed_silent c a sgs))

  -- Every record that an array's goroutine sends is of that array and of a group asked for.
  pub sg_perf_work-IsAsked :
      (clients : Option (Dict (List (PowerMaxArray F)))) (a : Text) (sgs : List Text)
      → All (IsAsked a sgs) (sg_perf_work fl ratio clients now fetched cache (a, sgs)).0
  unfolding sg_perf_work
  sg_perf_work-IsAsked clients a sgs = elim (Result-cases (get_powermax_client clients a)) [
    | inl (x, e) ↦ rw (e, sg_perf_work) tt
    | inr (none, e) ↦ rw (e, sg_perf_work) tt
    | inr (some c, e) ↦
        rw (sg_perf_work_either clients a sgs e) (elim (Bool-cases (bulk_counts c a sgs)) [
          | inl yes_ ↦ rw yes_ (bulk-BulkGood c a sgs).1
          | inr no_ ↦ rw no_ (legacy-IsAsked c a sgs)
        ])
  ]
