-- ===== src/Metric/Capacity/Cumulate.antt =====
-- `cumulate` and the five maps of `pushCapacityMetrics`: sums by volume, storage group, storage
-- resource pool, array and storage class.
use csm_metrics_powermax.Prelude.{
  Text, text_eq, text_eq_iff, ◌≡◌, refl, List, [], ◌∷◌, Option, none, some, arith, if◌then◌else◌,
  filter, Option-cases, inl, inr,
}
use mathlib.Core.List.{foldl}
use csm_metrics_powermax.Prelude.Dict.{Dict, lookup, insert, lookup-insert}
use csm_metrics_powermax.Prelude.Float.{Float64}
use csm_metrics_powermax.Metric.Handle.{dashed}
use csm_metrics_powermax.Metric.Types.{VolumeCapacityMetricsRecord}

module _ {F : Type 0} (fl : Float64 F) where
  open fl use {add}

  abbrev pub Metric : Type 0
  Metric = VolumeCapacityMetricsRecord F

  -- A later metric of a key is added to the first one, whose labels stay.
  unfoldable pub cumulate : Text → Dict Metric → Metric → Dict Metric
  cumulate key m metric = elim (lookup key m) [
    | none ↦ insert key metric m
    | some sum ↦
        insert key
          (record sum { total = add sum.total metric.total; used = add sum.used metric.used }) m
  ]

  unfoldable pub cumulate_all : (Metric → Text) → Dict Metric → List Metric → Dict Metric
  cumulate_all key m [] = m
  cumulate_all key m (metric ∷ metrics) = cumulate_all key (cumulate (key metric) m metric) metrics

  abbrev pub volume_key : Metric → Text
  volume_key metric = dashed metric.array_id metric.volume_id

  abbrev pub storage_group_key : Metric → Text
  storage_group_key metric = dashed metric.array_id metric.storage_group_id

  abbrev pub srp_key : Metric → Text
  srp_key metric = dashed metric.array_id metric.srp_id

  pub record CapacityMaps : Type 0 where
    pub array_id_map : Dict Metric
    pub storage_class_map : Dict Metric
    pub storage_group_map : Dict Metric
    pub srp_map : Dict Metric
    pub volume_id_map : Dict Metric

  -- One round of `for metric := range volumeCapacityMetrics`.
  unfoldable pub cumulate_metric : CapacityMaps → Metric → CapacityMaps
  cumulate_metric m metric = record {
    array_id_map = cumulate metric.array_id m.array_id_map metric;
    storage_class_map = cumulate metric.storage_class m.storage_class_map metric;
    volume_id_map = cumulate (volume_key metric) m.volume_id_map metric;
    storage_group_map = cumulate (storage_group_key metric) m.storage_group_map metric;
    srp_map = cumulate (srp_key metric) m.srp_map metric;
  }

  unfoldable pub cumulate_stream : CapacityMaps → List Metric → CapacityMaps
  cumulate_stream m [] = m
  cumulate_stream m (metric ∷ metrics) = cumulate_stream (cumulate_metric m metric) metrics

  abbrev pub no_metrics : CapacityMaps
  no_metrics = record {
    array_id_map = [];
    storage_class_map = [];
    storage_group_map = [];
    srp_map = [];
    volume_id_map = [];
  }

  -- The metrics of one key, added up behind a first one.
  abbrev pub sum_onto : Metric → List Metric → Metric
  sum_onto m ms = record m {
    total = foldl (λ t x. add t x.total) m.total ms;
    used = foldl (λ t x. add t x.used) m.used ms;
  }

  abbrev pub sum_of : List Metric → Option Metric
  sum_of [] = none
  sum_of (m ∷ ms) = some (sum_onto m ms)

  abbrev add_metric : Metric → Metric → Metric
  add_metric s x = record s { total = add s.total x.total; used = add s.used x.used }

  lookup-cumulate :
      (j k : Text) (m : Dict Metric) (metric : Metric)
      → lookup k (cumulate j m metric) ≡ (
          if text_eq j k
          then (elim (lookup k m) [ none ↦ some metric | some s ↦ some (add_metric s metric) ])
          else lookup k m)
  unfolding cumulate
  lookup-cumulate j k m metric = elim (Option-cases (lookup j m)) [
    | inl e ↦ ground (arith, text_eq_iff j k, lookup-insert j k metric m)
    | inr (s, e) ↦ ground (arith, text_eq_iff j k, lookup-insert j k (add_metric s metric) m)
  ]

  cumulate_all_from :
      (key : Metric → Text) (k : Text) (m : Dict Metric) (metrics : List Metric)
      → lookup k (cumulate_all key m metrics) ≡ (elim (lookup k m) [
        | none ↦ sum_of (filter (λ x. text_eq (key x) k) metrics)
        | some s ↦ some (sum_onto s (filter (λ x. text_eq (key x) k) metrics))
      ])
  unfolding cumulate_all
  cumulate_all_from key k m [] = elim (Option-cases (lookup k m)) [
    | inl e ↦ rw e
    | inr (s, e) ↦ rw e
  ]
  cumulate_all_from key k m (metric ∷ metrics) =
      rw
        (
          cumulate_all_from key k (cumulate (key metric) m metric) metrics,
          lookup-cumulate (key metric) k m metric,
        )
        (ground arith)

  stream_maps :
      (m : CapacityMaps) (metrics : List Metric)
      → cumulate_stream m metrics ≡ record {
        array_id_map = cumulate_all (λ x. x.array_id) m.array_id_map metrics;
        storage_class_map = cumulate_all (λ x. x.storage_class) m.storage_class_map metrics;
        storage_group_map = cumulate_all storage_group_key m.storage_group_map metrics;
        srp_map = cumulate_all srp_key m.srp_map metrics;
        volume_id_map = cumulate_all volume_key m.volume_id_map metrics;
      }
  unfolding cumulate_stream cumulate_all cumulate_metric
  stream_maps m [] = refl
  stream_maps m (metric ∷ metrics) = stream_maps (cumulate_metric m metric) metrics

  -- What the stream adds up to for a key.
  abbrev pub sum_for : (Metric → Text) → Text → List Metric → Option Metric
  sum_for key k metrics = sum_of (filter (λ x. text_eq (key x) k) metrics)

  -- After the whole stream each of the five maps holds, for each key, the first metric of the key
  -- with the totals and the used capacities of all metrics of the key added up in the order of
  -- their arrival, and no entry for a key that no metric has.
  pub cumulate_stream_lem :
      (metrics : List Metric) (k : Text)
      → let m = cumulate_stream no_metrics metrics in
        (lookup k m.array_id_map ≡ sum_for (λ x. x.array_id) k metrics)
        × (lookup k m.storage_class_map ≡ sum_for (λ x. x.storage_class) k metrics)
        × (lookup k m.storage_group_map ≡ sum_for storage_group_key k metrics)
        × (lookup k m.srp_map ≡ sum_for srp_key k metrics)
        × (lookup k m.volume_id_map ≡ sum_for volume_key k metrics)
  unfolding lookup
  cumulate_stream_lem metrics k = rw (stream_maps no_metrics metrics) (
    cumulate_all_from (λ x. x.array_id) k [] metrics,
    cumulate_all_from (λ x. x.storage_class) k [] metrics,
    cumulate_all_from storage_group_key k [] metrics,
    cumulate_all_from srp_key k [] metrics,
    cumulate_all_from volume_key k [] metrics,
  )
