-- ===== src/Metric/Recorder/Topology.antt =====
-- `RecordTopologyMetrics` and `initTopologyMetrics`: the cached instrument and labels of each volume.
use csm_metrics_powermax.Prelude.{
  Text, text_eq, if◌then◌else◌, Error, ok, err, codes, ◌≡◌, refl, sym, ap, ◌∙◌, List, [], ◌∷◌,
  Option, none, some, Bool, true, false,
}
use csm_metrics_powermax.Prelude.Dict.{Dict, lookup, insert, lookup-insert_self}
use csm_metrics_powermax.Prelude.Float.{Float64}
use csm_metrics_powermax.Metric.Capacity.Push.{attr}
use csm_metrics_powermax.Metric.Types.{KeyValue, TopologyMeta, TopologyMetricsRecord}
use csm_metrics_powermax.Metric.Recorder.Labels.{
  have_labels_changed, have_labels_changed_twice, have_labels_changed_self, AreOf,
}
use csm_metrics_powermax.Metric.Recorder.Record.{Meter, Event, registered, observed, unregistered}

-- The two maps of `MetricsRecorderWrapper` that the program uses. An instrument is `none` where its
-- creation failed: the error is dropped.
pub record Wrapper (Instrument : Type 0) : Type 0 where
  pub labels : Dict (List KeyValue)
  pub topology_metrics : Dict (Option Instrument)

-- The labels of a volume. `StorageClass` stands twice, as in the source.
unfoldable pub topology_labels : TopologyMeta → List KeyValue
topology_labels v =
    attr (codes "PersistentVolumeClaim") v.persistent_volume_claim
    ∷ attr (codes "Driver") v.driver
    ∷ attr (codes "PersistentVolume") v.persistent_volume
    ∷ attr (codes "PersistentVolumeStatus") v.persistent_volume_status
    ∷ attr (codes "StorageClass") v.storage_class
    ∷ attr (codes "PlotWithMean") (codes "No")
    ∷ attr (codes "StorageClass") v.storage_class
    ∷ attr (codes "Namespace") v.namespace
    ∷ attr (codes "ProvisionedSize") v.provisioned_size
    ∷ attr (codes "StorageSystemVolumeName") v.storage_system_volume_name
    ∷ attr (codes "StorageSystem") v.storage_system
    ∷ attr (codes "Protocol") v.protocol
    ∷ attr (codes "CreatedTime") v.created_time
    ∷ []

module _ {Instrument : Type 0} (meter : Meter Instrument) where
  abbrev pub topology_instrument : Option Instrument
  topology_instrument = elim (meter.up_down_counter (codes "karavi_topology_metrics")) [
    | err _ ↦ none
    | ok i ↦ some i
  ]

  unfoldable pub init_topology_metrics :
      Wrapper Instrument → Text → List KeyValue → Option Instrument × Wrapper Instrument
  init_topology_metrics w meta_id labels = (
    topology_instrument,
    record {
      topology_metrics = insert meta_id topology_instrument w.topology_metrics;
      labels = insert meta_id labels w.labels;
    },
  )

  -- `updateLabels`, with the loader and the initialiser that `RecordTopologyMetrics` gives it.
  unfoldable pub update_labels :
      Wrapper Instrument → Text → List KeyValue → Option Instrument × Wrapper Instrument
  update_labels w meta_id labels = elim (lookup meta_id w.topology_metrics) [
    | none ↦ init_topology_metrics w meta_id labels
    | some metrics ↦ elim (lookup meta_id w.labels) [
      | none ↦ (metrics, w)
      | some current ↦
          let (changed, updated) = have_labels_changed current labels in
          elim changed [ true ↦ init_topology_metrics w meta_id updated | false ↦ (metrics, w) ]
    ]
  ]

  -- The metadata of another type, `none`, leaves the name and the labels empty.
  unfoldable pub record_topology_metrics :
      {F : Type 0}
      → Float64 F
      → Wrapper Instrument
      → Option TopologyMeta
      → TopologyMetricsRecord
      → Option Error × List (Event (Option Instrument) F) × Wrapper Instrument
  record_topology_metrics fl w meta metric =
      let meta_id : Text = elim meta [ none ↦ [] | some v ↦ v.persistent_volume ] in
      let labels : List KeyValue = elim meta [ none ↦ [] | some v ↦ topology_labels v ] in
      let (metrics, w') = update_labels w meta_id labels in
      elim (meter.register_callback (elim metrics [ none ↦ [] | some i ↦ i ∷ [] ])) [
        | some e ↦ (some e, [], w')
        | none ↦ (
          none,
          registered (metrics ∷ [])
              ∷ observed metrics (fl.of_int metric.pv_available) labels
              ∷ unregistered
              ∷ [],
          w',
        )
      ]

  -- What an update leaves behind is settled: a second update of the same volume with the same labels,
  -- each key of which has one value, changes neither map.
  pub update_labels_twice :
      (g : Text → Text) (w : Wrapper Instrument) (id : Text) (labels : List KeyValue)
      → AreOf g labels
      → (update_labels (update_labels w id labels).1 id labels).1 ≡ (update_labels w id labels).1
  unfolding update_labels init_topology_metrics
  update_labels_twice g w id labels h = from_metrics (lookup id w.topology_metrics) refl
    where
      Settled : Type 0
      Settled =
          (update_labels (update_labels w id labels).1 id labels).1 ≡ (update_labels w id labels).1

      through :
          (v : Wrapper Instrument)
          → (update_labels w id labels).1 ≡ v
          → (update_labels v id labels).1 ≡ v
          → Settled
      through v e k = ap (λ u. (update_labels u id labels).1) e ∙ k ∙ sym e

      -- A wrapper whose labels an update finds unchanged stays as it is.
      stored :
          (topology : Dict (Option Instrument)) (updated : List KeyValue)
          → (have_labels_changed updated labels).0 ≡ false
          → let v : Wrapper Instrument = record {
            topology_metrics = insert id topology_instrument topology;
            labels = insert id updated w.labels;
          } in
            (update_labels v id labels).1 ≡ v
      stored topology updated e =
          rw
            (
              update_labels,
              lookup-insert_self id topology_instrument topology,
              lookup-insert_self id updated w.labels,
              e,
            )
            refl

      from_flag :
          (m : Option Instrument) (current : List KeyValue) (flag : Bool)
          → lookup id w.topology_metrics ≡ some m
          → lookup id w.labels ≡ some current
          → (have_labels_changed current labels).0 ≡ flag
          → Settled
      from_flag m current true e k l =
          through (init_topology_metrics w id (have_labels_changed current labels).1).1
            (rw (update_labels, e, k, l) refl)
            (stored w.topology_metrics (have_labels_changed current labels).1
              (have_labels_changed_twice g current labels h))
      from_flag m current false e k l =
          through w (rw (update_labels, e, k, l) refl) (rw (update_labels, e, k, l) refl)

      from_labels :
          (m : Option Instrument) (o : Option (List KeyValue))
          → lookup id w.topology_metrics ≡ some m
          → lookup id w.labels ≡ o
          → Settled
      from_labels m none e k =
          through w (rw (update_labels, e, k) refl) (rw (update_labels, e, k) refl)
      from_labels m (some current) e k =
          from_flag m current (have_labels_changed current labels).0 e k refl

      from_metrics : (o : Option (Option Instrument)) → lookup id w.topology_metrics ≡ o → Settled
      from_metrics none e =
          through (init_topology_metrics w id labels).1 (rw (update_labels, e) refl)
            (stored w.topology_metrics labels (have_labels_changed_self g labels h))
      from_metrics (some m) e = from_labels m (lookup id w.labels) e refl

-- The value that a key has in the labels of a volume.
abbrev label_value : List KeyValue → Text → Text
label_value [] k = []
label_value (x ∷ xs) k = if text_eq x.key k then x.value else label_value xs k

topology_labels-AreOf :
    (v : TopologyMeta) → AreOf (label_value (topology_labels v)) (topology_labels v)
unfolding topology_labels text_eq
topology_labels-AreOf v = (
  refl,
  (
    refl,
    (refl, (refl, (refl, (refl, (refl, (refl, (refl, (refl, (refl, (refl, (refl, tt))))))))))),
  ),
)
