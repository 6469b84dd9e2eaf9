-- ===== src/Metric/Capacity/Collect/Observed.antt =====
-- The capacity collection together with the recorder of
-- internal/service/metric/metrics_recorder_wrapper.go: what the meter observes.
use mathlib.Core.List.{Perm, map-append}
use csm_metrics_powermax.Prelude.{
  ℕ, Text, ok, ◌≡◌, refl, ap, true, List, [], ◌∷◌, ◌++◌, Option, none, some, map, filter_map, codes,
}
use csm_metrics_powermax.Prelude.Dict.{Dict}
use csm_metrics_powermax.Prelude.Float.{Float64}
use csm_metrics_powermax.Prelude.Int.{pos}
use csm_metrics_powermax.K8s.Volumes.{VolumeInfo}
use csm_metrics_powermax.Metric.Push.Batch.{Batch, BatchReach}
use csm_metrics_powermax.Metric.Push.Batch.Closed.{batch_closed}
use csm_metrics_powermax.Metric.Types.{PowerMaxArray, VolumeCapacityMetricsRecord}
use csm_metrics_powermax.Metric.Capacity.Collect.{capacity_work, empty_capacity}
use csm_metrics_powermax.Metric.Capacity.Cumulate.{
  CapacityMaps, Metric, cumulate_stream, no_metrics,
}
use csm_metrics_powermax.Metric.Capacity.Group.{group_volumes}
use csm_metrics_powermax.Metric.Capacity.Push.{
  NumericCall, capacity_calls, volume_call, storage_group_call, srp_call, array_call,
  storage_class_call,
}
use csm_metrics_powermax.Metric.Recorder.Record.{
  Meter, create_all, numeric_names, observations, pair_up, prefixed, record_numeric_metrics,
  record_numeric_metrics-observations,
}

create_all_ok :
    {Instrument : Type 0} (meter : Meter Instrument) (instrument : Text → Instrument)
    → ((name : Text) → meter.up_down_counter name ≡ ok (instrument name))
    → (names : List Text) → create_all meter names ≡ ok (map instrument names)
unfolding create_all
create_all_ok meter instrument h [] = refl
create_all_ok meter instrument h (name ∷ names) =
    rw (create_all, h name, create_all_ok meter instrument h names)

filter_map-all :
    {A B : Type 0} (f : A → Option B) (g : A → B)
    → ((x : A) → f x ≡ some (g x))
    → (xs : List A) → filter_map f xs ≡ map g xs
filter_map-all f g h [] = refl
filter_map-all f g h (x ∷ xs) = rw (h x, filter_map, filter_map-all f g h xs)

module _ {Instrument F : Type 0} (fl : Float64 F) (meter : Meter Instrument) where
  -- A call of `RecordNumericMetrics` with the recorder's own implementation: what it has the meter
  -- observe, if it succeeds.
  unfoldable pub numeric_observations : NumericCall F → Option (List (Instrument × F))
  numeric_observations c =
      let (e, events) = record_numeric_metrics meter fl c.prefix c.labels c.metric in
      elim e [ none ↦ some (observations events) | some _ ↦ none ]

  -- The three values of a sum.
  abbrev pub values_of : NumericCall F → List F
  values_of c =
      c.metric.total
      ∷ c.metric.used
      ∷ fl.div (fl.mul c.metric.used (fl.of_int (pos 100))) c.metric.total
      ∷ []

  abbrev calls_of : List (Metric fl) → List (NumericCall F)
  calls_of rs = capacity_calls fl (cumulate_stream fl (no_metrics fl) rs)

  -- The states of the collection, where what a call has the meter observe stands for its name.
  abbrev pub ObservedReach :
      ℕ
      → Option (Dict (List (PowerMaxArray F)))
      → List VolumeInfo
      → Batch (Text × List VolumeInfo) (Metric fl) (NumericCall F) (List (Instrument × F))
      → Type 0
  ObservedReach limit clients pvs s =
      BatchReach limit (capacity_work fl clients) (empty_capacity fl) calls_of numeric_observations
        (group_volumes [] pvs) s

  numeric_observations_ok :
      (instrument : Text → Instrument)
      → ((name : Text) → meter.up_down_counter name ≡ ok (instrument name))
      → ((is : List Instrument) → meter.register_callback is ≡ none)
      → (c : NumericCall F)
      → numeric_observations c
        ≡ some (pair_up (map instrument (prefixed c.prefix numeric_names)) (values_of c))
  unfolding numeric_observations
  numeric_observations_ok instrument h k c =
      let (accepted, seen) =
        record_numeric_metrics-observations meter fl c.prefix c.labels c.metric
          (create_all_ok meter instrument h (prefixed c.prefix numeric_names)) (k _) in
      rw (accepted, numeric_observations) (ap some seen)

  -- The three values of a sum, on the instruments whose names begin with `prefix`.
  abbrev pub observed_of :
      (Text → Instrument) → Text → VolumeCapacityMetricsRecord F → List (Instrument × F)
  observed_of instrument prefix sum =
      (instrument (prefix ++ codes "total_capacity_gigabytes"), sum.total)
      ∷ (instrument (prefix ++ codes "used_capacity_gigabytes"), sum.used)
      ∷ (
        instrument (prefix ++ codes "used_capacity_percentage"),
        fl.div (fl.mul sum.used (fl.of_int (pos 100))) sum.total,
      )
      ∷ []

  -- The values of all sums of one map.
  abbrev pub observed_map :
      (Text → Instrument)
      → Text
      → Dict (VolumeCapacityMetricsRecord F)
      → List (List (Instrument × F))
  observed_map instrument prefix m = map (λ e. observed_of instrument prefix e.1) m

  -- The values of the five maps, each on the instruments of its kind.
  abbrev pub observed_maps : (Text → Instrument) → CapacityMaps fl → List (List (Instrument × F))
  observed_maps instrument m =
      observed_map instrument (codes "powermax_volume_") m.volume_id_map
      ++ (observed_map instrument (codes "powermax_storage_group_") m.storage_group_map
          ++ (observed_map instrument (codes "powermax_srp_") m.srp_map
              ++ (observed_map instrument (codes "powermax_array_") m.array_id_map
                  ++ observed_map instrument (codes "powermax_storage_class_")
                      m.storage_class_map)))

  -- What one call has the meter observe.
  abbrev seen : (Text → Instrument) → NumericCall F → List (Instrument × F)
  seen instrument c = pair_up (map instrument (prefixed c.prefix numeric_names)) (values_of c)

  one_map_lem :
      (instrument : Text → Instrument) (prefix : Text)
      (call : VolumeCapacityMetricsRecord F → NumericCall F)
      → ((r : VolumeCapacityMetricsRecord F) → (call r).prefix ≡ prefix)
      → ((r : VolumeCapacityMetricsRecord F) → (call r).metric ≡ r)
      → (m : Dict (VolumeCapacityMetricsRecord F))
      → map (seen instrument) (map call (map (λ e. e.1) m)) ≡ observed_map instrument prefix m
  one_map_lem instrument prefix call p q [] = refl
  one_map_lem instrument prefix call p q ((k, r) ∷ m) =
      rw (seen, values_of, p r, q r, one_map_lem instrument prefix call p q m) refl

  all_maps_lem :
      (instrument : Text → Instrument) (m : CapacityMaps fl)
      → map (seen instrument) (capacity_calls fl m) ≡ observed_maps instrument m
  unfolding capacity_calls volume_call storage_group_call srp_call array_call storage_class_call
  all_maps_lem instrument m =
      rw
        (
          capacity_calls,
          map-append,
          one_map_lem instrument (codes "powermax_volume_") volume_call (λ r. refl) (λ r. refl),
          map-append,
          one_map_lem instrument (codes "powermax_storage_group_") storage_group_call (λ r. refl)
              (λ r. refl),
          map-append,
          one_map_lem instrument (codes "powermax_srp_") srp_call (λ r. refl) (λ r. refl),
          map-append,
          one_map_lem instrument (codes "powermax_array_") array_call (λ r. refl) (λ r. refl),
          one_map_lem instrument (codes "powermax_storage_class_") storage_class_call (λ r. refl)
              (λ r. refl),
        )
        refl

  -- With a meter that makes every instrument, accepts every callback and runs it once before its
  -- registration is taken back, a capacity collection whose channel is closed has observed, in
  -- whatever schedule, three values for each sum of each of the five maps, each exactly once: its
  -- total, its used capacity and 100 times used over total, on the instruments of its kind, those
  -- of volumes, storage groups, storage resource pools, arrays and storage classes.
  pub capacity_observed :
      (limit : ℕ) (clients : Option (Dict (List (PowerMaxArray F)))) (pvs : List VolumeInfo)
      (instrument : Text → Instrument)
      → ((name : Text) → meter.up_down_counter name ≡ ok (instrument name))
      → ((is : List Instrument) → meter.register_callback is ≡ none)
      → {s : Batch (Text × List VolumeInfo) (Metric fl) (NumericCall F) (List (Instrument × F))}
      → ObservedReach limit clients pvs s
      → s.is_closed ≡ true
      → Perm s.names (observed_maps instrument (cumulate_stream fl (no_metrics fl) s.pool.sent))
  capacity_observed limit clients pvs instrument h k {s} r c =
      rw
        (
          ← all_maps_lem instrument (cumulate_stream fl (no_metrics fl) s.pool.sent),
          ← filter_map-all numeric_observations (seen instrument)
              (numeric_observations_ok instrument h k) (calls_of s.pool.sent),
        )
        (batch_closed limit (capacity_work fl clients) (empty_capacity fl) calls_of
          numeric_observations (group_volumes [] pvs) r c).2
