-- ===== src/Metric/Recorder/Record.antt =====
-- `RecordNumericMetrics`, `RecordVolPerfMetrics` and `RecordStorageGroupPerfMetrics`: the instruments
-- are created one by one, a callback that observes them is registered, and after it has run the
-- registration is taken back. The meter is the OpenTelemetry SDK's, so it is an argument; it runs a
-- registered callback, once before the registration is taken back.
use csm_metrics_powermax.Prelude.{
  ℕ, suc, Text, Error, Result, ok, err, Result-cases, Option-cases, inl, inr, codes, ◌≡◌, refl, ap,
  List, [], ◌∷◌, ◌++◌, map, Option, none, some, arith,
}
use csm_metrics_powermax.Prelude.Float.{Float64}
use csm_metrics_powermax.Prelude.Int.{pos}
use csm_metrics_powermax.Metric.Capacity.Push.{attr}
use csm_metrics_powermax.Metric.Types.{
  KeyValue, VolumeCapacityMetricsRecord, VolumePerfMetricsRecord, StorageGroupPerfMetricsRecord,
}
use csm_metrics_powermax.Units.{units_convert, kb, mb}

pub record Meter (Instrument : Type 0) : Type 0 where
  pub up_down_counter : Text → Result Instrument
  pub register_callback : List Instrument → Option Error

pub data Event (Instrument F : Type 0) : Type 0 where
  registered : List Instrument → Event Instrument F
  observed : Instrument → F → List KeyValue → Event Instrument F
  unregistered : Event Instrument F

abbrev pub prefixed : Text → List Text → List Text
prefixed prefix names = map (λ name. prefix ++ name) names

abbrev pub numeric_names : List Text
numeric_names =
    codes "total_capacity_gigabytes"
    ∷ codes "used_capacity_gigabytes"
    ∷ codes "used_capacity_percentage"
    ∷ []

abbrev volume_names : List Text
volume_names =
    codes "_read_bw_megabytes_per_second"
    ∷ codes "_write_bw_megabytes_per_second"
    ∷ codes "_read_latency_milliseconds"
    ∷ codes "_write_latency_milliseconds"
    ∷ codes "_read_io_per_second"
    ∷ codes "_write_io_per_second"
    ∷ []

module _ {Instrument : Type 0} (meter : Meter Instrument) where
  -- The instruments by name, up to the first error.
  unfoldable pub create_all : List Text → Result (List Instrument)
  create_all [] = ok []
  create_all (name ∷ names) = elim (meter.up_down_counter name) [
    | err e ↦ err e
    | ok i ↦ elim (create_all names) [ err e ↦ err e | ok is ↦ ok (i ∷ is) ]
  ]

module _ {Instrument F : Type 0} where
  -- The callback: one observation for each instrument.
  unfoldable pub observe_all : List KeyValue → List Instrument → List F → List (Event Instrument F)
  observe_all labels [] values = []
  observe_all labels (i ∷ is) [] = []
  observe_all labels (i ∷ is) (v ∷ values) = observed i v labels ∷ observe_all labels is values

  -- Registrations made, and registrations taken back.
  abbrev pub registrations : List (Event Instrument F) → ℕ
  registrations [] = 0
  registrations (registered _ ∷ es) = suc (registrations es)
  registrations (_ ∷ es) = registrations es

  abbrev pub withdrawals : List (Event Instrument F) → ℕ
  withdrawals [] = 0
  withdrawals (unregistered ∷ es) = suc (withdrawals es)
  withdrawals (_ ∷ es) = withdrawals es

  abbrev pub observations : List (Event Instrument F) → List (Instrument × F)
  observations [] = []
  observations (observed i v _ ∷ es) = (i, v) ∷ observations es
  observations (_ ∷ es) = observations es

  abbrev pub pair_up : List Instrument → List F → List (Instrument × F)
  pair_up [] vs = []
  pair_up (i ∷ is) [] = []
  pair_up (i ∷ is) (v ∷ vs) = (i, v) ∷ pair_up is vs

  observe_all_lem :
      (labels : List KeyValue) (is : List Instrument) (vs : List F)
      → let es = observe_all labels is vs ++ unregistered ∷ [] in
        (registrations es ≡ 0) × (withdrawals es ≡ 1) × (observations es ≡ pair_up is vs)
  unfolding observe_all
  observe_all_lem labels [] vs = (refl, refl, refl)
  observe_all_lem labels (i ∷ is) [] = (refl, refl, refl)
  observe_all_lem labels (i ∷ is) (v ∷ vs) =
      let (r, w, o) = observe_all_lem labels is vs in (r, w, ap (λ os. (i, v) ∷ os) o)

module _ {Instrument F : Type 0} (meter : Meter Instrument) where
  unfoldable pub record_metrics :
      List Text → List F → List KeyValue → Option Error × List (Event Instrument F)
  record_metrics names values labels = elim (create_all meter names) [
    | err e ↦ (some e, [])
    | ok is ↦ elim (meter.register_callback is) [
      | some e ↦ (some e, [])
      | none ↦ (none, registered is ∷ (observe_all labels is values ++ unregistered ∷ []))
    ]
  ]

  module _ (fl : Float64 F) where
    open fl use {mul, div, of_int}

    unfoldable pub record_numeric_metrics :
        Text
        → List KeyValue
        → VolumeCapacityMetricsRecord F
        → Option Error × List (Event Instrument F)
    record_numeric_metrics prefix labels metric =
        record_metrics (prefixed prefix numeric_names)
          (metric.total ∷ metric.used ∷ div (mul metric.used (of_int (pos 100))) metric.total ∷ [])
          labels

    unfoldable pub record_storage_group_perf_metrics :
        Text → StorageGroupPerfMetricsRecord F → Option Error × List (Event Instrument F)
    record_storage_group_perf_metrics prefix metric =
        record_metrics
          (prefixed prefix (volume_names ++ codes "_average_io_size_megabytes_per_second" ∷ []))
          (metric.host_mb_reads
            ∷ metric.host_mb_written
            ∷ metric.read_response_time
            ∷ metric.write_response_time
            ∷ metric.host_reads
            ∷ metric.host_writes
            ∷ units_convert fl metric.avg_io_size kb mb
            ∷ [])
          (attr (codes "ArrayID") metric.array_id
            ∷ attr (codes "StorageGroupID") metric.storage_group_id
            ∷ attr (codes "PlotWithMean") (codes "No")
            ∷ [])

  unfoldable pub record_vol_perf_metrics :
      Text → VolumePerfMetricsRecord F → Option Error × List (Event Instrument F)
  record_vol_perf_metrics prefix metric =
      record_metrics (prefixed prefix volume_names)
        (metric.mb_read ∷ metric.mb_written ∷ metric.read_response_time ∷ metric.write_response_time
          ∷ metric.reads ∷ metric.writes ∷ [])
        (attr (codes "VolumeID") metric.volume_id
          ∷ attr (codes "ArrayID") metric.array_id
          ∷ attr (codes "Driver") metric.driver
          ∷ attr (codes "StorageClass") metric.storage_class
          ∷ attr (codes "PersistentVolumeName") metric.persistent_volume_name
          ∷ attr (codes "PersistentVolumeClaimName") metric.persistent_volume_claim_name
          ∷ attr (codes "Namespace") metric.namespace
          ∷ attr (codes "PlotWithMean") (codes "No")
          ∷ [])

  -- What is recorded, registered and taken back, on every branch.
  record_metrics_balanced :
      (names : List Text) (values : List F) (labels : List KeyValue)
      → let es = (record_metrics names values labels).1 in registrations es ≡ withdrawals es
  unfolding record_metrics
  record_metrics_balanced names values labels = elim (Result-cases (create_all meter names)) [
    | inl (x, e) ↦ rw (e, record_metrics)
    | inr (is, e) ↦ elim (Option-cases (meter.register_callback is)) [
      | inl f ↦
          let (r, w, o) = observe_all_lem labels is values in
          rw (e, record_metrics) (rw f (omega (arith, r, w)))
      | inr (x, f) ↦ rw (e, record_metrics) (rw f)
    ]
  ]

  record_metrics_ok :
      (names : List Text) (values : List F) (labels : List KeyValue) {is : List Instrument}
      → create_all meter names ≡ ok is
      → meter.register_callback is ≡ none
      → ((record_metrics names values labels).0 ≡ none)
        × (observations (record_metrics names values labels).1 ≡ pair_up is values)
  unfolding record_metrics
  record_metrics_ok names values labels {is} e f =
      rw (e, record_metrics) (rw f (refl, (observe_all_lem labels is values).2))

  -- No recording leaves its callback behind: whether an instrument cannot be created, the callback
  -- is refused or all goes well, as many registrations are taken back as were made.
  pub recordings_balanced :
      (fl : Float64 F) (prefix : Text) (labels : List KeyValue) (c : VolumeCapacityMetricsRecord F)
      (v : VolumePerfMetricsRecord F) (g : StorageGroupPerfMetricsRecord F)
      → (registrations (record_numeric_metrics fl prefix labels c).1
          ≡ withdrawals (record_numeric_metrics fl prefix labels c).1)
        × (registrations (record_vol_perf_metrics prefix v).1
            ≡ withdrawals (record_vol_perf_metrics prefix v).1)
        × (registrations (record_storage_group_perf_metrics fl prefix g).1
            ≡ withdrawals (record_storage_group_perf_metrics fl prefix g).1)
  unfolding record_numeric_metrics record_vol_perf_metrics record_storage_group_perf_metrics
  recordings_balanced fl prefix labels c v g =
      (record_metrics_balanced _ _ _, record_metrics_balanced _ _ _, record_metrics_balanced _ _ _)

  -- When the three instruments are there and the callback is accepted, no error is returned, and a
  -- capacity metric is observed as its total, its used capacity and 100 times used over total,
  -- whatever percentage the record itself carries.
  pub record_numeric_metrics-observations :
      (fl : Float64 F) (prefix : Text) (labels : List KeyValue) (c : VolumeCapacityMetricsRecord F)
      {a b p : Instrument}
      → create_all meter (prefixed prefix numeric_names) ≡ ok (a ∷ b ∷ p ∷ [])
      → meter.register_callback (a ∷ b ∷ p ∷ []) ≡ none
      → ((record_numeric_metrics fl prefix labels c).0 ≡ none)
        × (observations (record_numeric_metrics fl prefix labels c).1
            ≡ (a, c.total)
              ∷ (b, c.used)
              ∷ (p, fl.div (fl.mul c.used (fl.of_int (pos 100))) c.total)
              ∷ [])
  unfolding record_numeric_metrics
  record_numeric_metrics-observations fl prefix labels c e f = record_metrics_ok _ _ _ e f
