-- ===== src/Metric/Performance/StorageGroups/Sources.antt =====
-- Where the records of the storage groups of one array come from, written out of the answers of the
-- client alone.
use csm_metrics_powermax.Prelude.{
  ℕ, ◌+◌, Text, Result, ok, err, Result-cases, Option-cases, ◌≡◌, refl, ap, sym, ◌∙◌, List, [], ◌∷◌,
  ◌++◌, Option, none, some, Bool, true, false, not, ◌&&◌, arith, length, length-append, map,
  flat_map, if◌then◌else◌, Bool-cases, inl, inr, All, append-nil, append_assoc, ltb, ◌==◌, text_eq,
  text_eq_iff,
}
use csm_metrics_powermax.Prelude.Dict.{Dict, lookup, insert, lookup-insert, member, All-member}
use csm_metrics_powermax.Prelude.Float.{Float64}
use csm_metrics_powermax.Prelude.Int.{ℤ}
use csm_metrics_powermax.Metric.Base.{get_powermax_client}
use csm_metrics_powermax.Metric.Types.{
  LastAvailable, PowerMaxArray, PowerMaxClient, MetricInstance, StorageGroupMetric,
  StorageGroupPerfMetricsRecord,
}
use csm_metrics_powermax.Metric.Performance.SgCache.{SgCountCache, get_total_sg_count}
use csm_metrics_powermax.Metric.Performance.Threshold.{use_bulk}
use csm_metrics_powermax.Metric.Performance.StorageGroups.{
  sg_record, emit_samples, emit_instance, emit_instances, sg_perf_metrics_query,
  collect_sg_metrics_bulk, legacy_samples, legacy_groups, collect_sg_metrics_legacy, sg_perf_work,
  sg_times,
}
use csm_metrics_powermax.Metric.Performance.StorageGroups.Records.{bulk_counts, sg_perf_work_either}

-- The last time that the array names for a group.
abbrev pub last_time : Text → List LastAvailable → Option ℤ
last_time sg [] = none
last_time sg (info ∷ infos) = elim (last_time sg infos) [
  | some later ↦ some later
  | none ↦ if text_eq info.name sg then some info.last_available_date else none
]

lookup-sg_times :
    (sg : Text) (sgs : List Text) (m : Dict ℤ) (infos : List LastAvailable)
    → member sg sgs ≡ true
    → lookup sg (sg_times sgs m infos)
      ≡ (elim (last_time sg infos) [ some t ↦ some t | none ↦ lookup sg m ])
unfolding sg_times
lookup-sg_times sg sgs m [] h = refl
lookup-sg_times sg sgs m (info ∷ infos) h = elim (Bool-cases (member info.name sgs)) [
  | inl e ↦
      rw (sg_times, e)
        (ground (
          arith,
          lookup-sg_times sg sgs (insert info.name info.last_available_date m) infos h,
          lookup-insert info.name sg info.last_available_date m,
        ))
  | inr e ↦
      rw (sg_times, e) (ground (arith, text_eq_iff info.name sg, lookup-sg_times sg sgs m infos h))
]

abbrev is_nil : {A : Type 0} → List A → Bool
is_nil [] = true
is_nil (x ∷ xs) = false

-- The flag of a bulk call that was answered.
served-is_nil :
    {A : Type 0} (rs : List A) (sgs : List Text)
    → not (length rs == 0 && ltb 0 (length sgs)) ≡ not (is_nil rs && not (is_nil sgs))
served-is_nil [] [] = ground arith
served-is_nil [] (sg ∷ sgs) = ground arith
served-is_nil (r ∷ rs) sgs = ground arith

module _ {F : Type 0} where
  -- The samples of those groups of a bulk answer that are asked for.
  abbrev pub asked_samples :
      Text → List Text → List (MetricInstance F) → List (StorageGroupPerfMetricsRecord F)
  asked_samples a sgs is =
      flat_map (λ i. if member i.id sgs then map (sg_record a i.id) i.metrics else []) is

  -- What the bulk call gives, unless it fails, gives nil or has no sample of a group asked for.
  abbrev pub bulk_answer :
      PowerMaxClient F → Text → List Text → Option (List (StorageGroupPerfMetricsRecord F))
  bulk_answer c a sgs = elim (c.get_storage_group_metrics_bulk a) [
    | err _ ↦ none
    | ok bulk ↦ elim bulk [
      | none ↦ none
      | some is ↦
          if is_nil (asked_samples a sgs is) && not (is_nil sgs)
          then none
          else some (asked_samples a sgs is)
    ]
  ]

  -- What the calls for the single groups give: the samples at the last time that the array names for
  -- the group, for each group whose time is known and whose call succeeds.
  abbrev pub group_answer :
      PowerMaxClient F → Text → List LastAvailable → Text → List (StorageGroupPerfMetricsRecord F)
  group_answer c a infos sg = elim (last_time sg infos) [
    | none ↦ []
    | some t ↦ elim (c.get_storage_group_metrics a sg sg_perf_metrics_query t t) [
      | err _ ↦ []
      | ok ms ↦ map (sg_record a sg) ms
    ]
  ]

  abbrev pub groups_answer :
      PowerMaxClient F → Text → List Text → List (StorageGroupPerfMetricsRecord F)
  groups_answer c a sgs = elim (c.get_storage_group_perf_keys a) [
    | err _ ↦ []
    | ok infos ↦ flat_map (group_answer c a infos) sgs
  ]

  emit_samples_lem :
      (a sg : Text) (ms : List (StorageGroupMetric F))
      (sent : List (StorageGroupPerfMetricsRecord F)) (n : ℕ)
      → emit_samples a sg ms (sent, n) ≡ (sent ++ map (sg_record a sg) ms, n + length ms)
  unfolding emit_samples
  emit_samples_lem a sg [] sent n = rw (append-nil sent) (ap (λ k. (sent, k)) (omega arith))
  emit_samples_lem a sg (m ∷ ms) sent n =
      emit_samples_lem a sg ms (sent ++ sg_record a sg m ∷ []) (n + 1)
      ∙ ap (λ xs. (xs, n + 1 + length ms)) (append_assoc sent (sg_record a sg m ∷ []) _)
      ∙ ap (λ k. (sent ++ map (sg_record a sg) (m ∷ ms), k)) (omega arith)

  emit_instances_lem :
      (a : Text) (sgs : List Text) (is : List (MetricInstance F))
      (sent : List (StorageGroupPerfMetricsRecord F))
      → emit_instances a sgs is (sent, length sent)
        ≡ (sent ++ asked_samples a sgs is, length (sent ++ asked_samples a sgs is))
  unfolding emit_instances emit_instance
  emit_instances_lem a sgs [] sent = rw (append-nil sent) refl
  emit_instances_lem a sgs (i ∷ is) sent = elim (Bool-cases (member i.id sgs)) [
    | inl e ↦
        rw (emit_instances, emit_instance, e, emit_samples_lem a i.id i.metrics sent (length sent))
          (ap (λ k. emit_instances a sgs is (sent ++ map (sg_record a i.id) i.metrics, k))
              (sym (counted i.metrics))
            ∙ emit_instances_lem a sgs is (sent ++ map (sg_record a i.id) i.metrics)
            ∙ ap (λ xs. (xs, length xs))
                (append_assoc sent (map (sg_record a i.id) i.metrics) (asked_samples a sgs is)))
    | inr e ↦ rw (emit_instances, emit_instance, e) (emit_instances_lem a sgs is sent)
  ]
    where
      mapped : (ms : List (StorageGroupMetric F)) → length (map (sg_record a i.id) ms) ≡ length ms
      mapped [] = refl
      mapped (m ∷ ms) = ground (arith, mapped ms)

      counted :
          (ms : List (StorageGroupMetric F))
          → length (sent ++ map (sg_record a i.id) ms) ≡ length sent + length ms
      counted ms = omega (arith, length-append sent (map (sg_record a i.id) ms), mapped ms)

  bulk_answered :
      (c : PowerMaxClient F) (a : Text) (sgs : List Text) (is : List (MetricInstance F))
      → c.get_storage_group_metrics_bulk a ≡ ok (some is)
      → collect_sg_metrics_bulk c a sgs
        ≡ (not (is_nil (asked_samples a sgs is) && not (is_nil sgs)), asked_samples a sgs is)
  unfolding collect_sg_metrics_bulk
  bulk_answered c a sgs is e =
      rw (collect_sg_metrics_bulk, e, emit_instances_lem a sgs is [])
        (ap (λ b. (b, asked_samples a sgs is)) (served-is_nil (asked_samples a sgs is) sgs))

  bulk_lem :
      (c : PowerMaxClient F) (a : Text) (sgs : List Text)
      (otherwise : List (StorageGroupPerfMetricsRecord F))
      → (if (collect_sg_metrics_bulk c a sgs).0
          then (collect_sg_metrics_bulk c a sgs).1
          else otherwise)
        ≡ (elim (bulk_answer c a sgs) [ some rs ↦ rs | none ↦ otherwise ])
  unfolding collect_sg_metrics_bulk
  bulk_lem c a sgs otherwise = go (c.get_storage_group_metrics_bulk a) refl
    where
      go :
          (r : Result (Option (List (MetricInstance F))))
          → c.get_storage_group_metrics_bulk a ≡ r
          → (if (collect_sg_metrics_bulk c a sgs).0
              then (collect_sg_metrics_bulk c a sgs).1
              else otherwise)
            ≡ (elim (bulk_answer c a sgs) [ some rs ↦ rs | none ↦ otherwise ])
      go (err x) e = rw (collect_sg_metrics_bulk, e) refl
      go (ok none) e = rw (collect_sg_metrics_bulk, e) refl
      go (ok (some is)) e =
          rw (bulk_answered c a sgs is e, e)
            (elim (Bool-cases (is_nil (asked_samples a sgs is) && not (is_nil sgs))) [
              | inl q ↦ rw q refl
              | inr q ↦ rw q refl
            ])

  legacy_samples_lem :
      (c : PowerMaxClient F) (a : Text) (sgs : List Text) (infos : List LastAvailable) (sg : Text)
      → member sg sgs ≡ true
      → legacy_samples c a (sg_times sgs [] infos) sg ≡ group_answer c a infos sg
  unfolding legacy_samples lookup
  legacy_samples_lem c a sgs infos sg h = elim (Option-cases (last_time sg infos)) [
    | inl e ↦
        let q : lookup sg (sg_times sgs [] infos) ≡ none =
          ground (arith, lookup-sg_times sg sgs [] infos h) in
        rw (legacy_samples, group_answer, q, e) refl
    | inr (t, e) ↦
        let q : lookup sg (sg_times sgs [] infos) ≡ some t =
          ground (arith, lookup-sg_times sg sgs [] infos h) in
        rw (legacy_samples, group_answer, q, e) refl
  ]

  legacy_groups_lem :
      (c : PowerMaxClient F) (a : Text) (sgs : List Text) (infos : List LastAvailable)
      (rest : List Text)
      → All (λ sg. member sg sgs ≡ true) rest
      → legacy_groups c a (sg_times sgs [] infos) rest ≡ flat_map (group_answer c a infos) rest
  unfolding legacy_groups
  legacy_groups_lem c a sgs infos [] h = refl
  legacy_groups_lem c a sgs infos (sg ∷ rest) (h, hs) =
      ap (λ xs. xs ++ legacy_groups c a (sg_times sgs [] infos) rest)
        (legacy_samples_lem c a sgs infos sg h)
      ∙ ap (λ xs. group_answer c a infos sg ++ xs) (legacy_groups_lem c a sgs infos rest hs)

  legacy_lem :
      (c : PowerMaxClient F) (a : Text) (sgs : List Text)
      → collect_sg_metrics_legacy c a sgs ≡ groups_answer c a sgs
  unfolding collect_sg_metrics_legacy
  legacy_lem c a sgs = elim (Result-cases (c.get_storage_group_perf_keys a)) [
    | inl (x, e) ↦ rw (collect_sg_metrics_legacy, groups_answer, e) refl
    | inr (infos, e) ↦
        rw (collect_sg_metrics_legacy, groups_answer, e)
          (legacy_groups_lem c a sgs infos sgs (All-member sgs))
  ]

module _ {F : Type 0} (fl : Float64 F) (ratio : F) (now fetched : ℕ) (cache : SgCountCache) where
  -- The records of an array with a live client come from one source, never from both. If the number
  -- of groups is known, the share of monitored groups is above the threshold and the bulk call
  -- answers with a sample of some group asked for (or none is asked for), they are the samples of
  -- the groups asked for in that answer. In all other cases, a bulk call that fails or gives nil
  -- included, they are those that the calls for the single groups give.
  pub sg_perf_work_one_source :
      (clients : Option (Dict (List (PowerMaxArray F)))) (a : Text) (sgs : List Text)
      {c : PowerMaxClient F}
      → get_powermax_client clients a ≡ ok (some c)
      → (sg_perf_work fl ratio clients now fetched cache (a, sgs)).0
        ≡ (elim (get_total_sg_count cache a now fetched (c.get_storage_group_id_list a)).0 [
          | err _ ↦ groups_answer c a sgs
          | ok n ↦
              if use_bulk fl ratio n (length sgs)
              then elim (bulk_answer c a sgs) [ some rs ↦ rs | none ↦ groups_answer c a sgs ]
              else groups_answer c a sgs
        ])
  sg_perf_work_one_source clients a sgs {c} e =
      rw (sg_perf_work_either fl ratio now fetched cache clients a sgs e, legacy_lem c a sgs)
        (elim (Result-cases
          (get_total_sg_count cache a now fetched (c.get_storage_group_id_list a)).0) [
            | inl (x, q) ↦ rw (bulk_counts, q) refl
            | inr (n, q) ↦ elim (Bool-cases (use_bulk fl ratio n (length sgs))) [
              | inl u ↦ rw (bulk_counts, q, u) (bulk_lem c a sgs (groups_answer c a sgs))
              | inr u ↦ rw (bulk_counts, q, u) refl
            ]
          ])
