-- ===== src/Metric/Capacity/Arrays.antt =====
-- `collectArrayCapacityMetrics` and its fallback `collectArrayCapacityMetricsLegacy`: the capacity
-- records of the volumes of one array.
use csm_metrics_powermax.Prelude.{
  Text, text_eq, ◌≡◌, refl, fun_ext, sym, List, [], ◌∷◌, Option, none, some, arith, if◌then◌else◌,
  filter_map, append_each, append_each-filter_map, Result, ok, err,
}
use csm_metrics_powermax.Prelude.Dict.{Dict, lookup, insert, lookup-insert}
use csm_metrics_powermax.Prelude.Float.{Float64}
use csm_metrics_powermax.Prelude.Int.{pos}
use csm_metrics_powermax.K8s.Volumes.{VolumeInfo}
use csm_metrics_powermax.Metric.Handle.{volume_id_of}
use csm_metrics_powermax.Metric.Types.{
  PowerMaxClient, Volume, VolumeEnhanced, VolumeCapacityMetricsRecord,
}

module _ {F : Type 0} where
  -- `capByVolumeID`: a later entry of the answer replaces an earlier one.
  unfoldable pub index_by_id :
      Dict (VolumeEnhanced F) → List (VolumeEnhanced F) → Dict (VolumeEnhanced F)
  index_by_id m [] = m
  index_by_id m (vol ∷ vols) = index_by_id (insert vol.id vol m) vols

module _ {F : Type 0} (fl : Float64 F) where
  open fl use {mul, div, lt, of_int}

  unfoldable pub capacity_record :
      Text → Text → VolumeInfo → F → F → F → VolumeCapacityMetricsRecord F
  capacity_record array_id volume_id volume total used used_percent = record {
    array_id = array_id;
    volume_id = volume_id;
    srp_id = volume.srp;
    storage_group_id = volume.storage_group;
    storage_class = volume.storage_class;
    driver = volume.driver;
    persistent_volume_name = volume.persistent_volume;
    persistent_volume_status = volume.persistent_volume_status;
    persistent_volume_claim_name = volume.volume_claim_name;
    namespace = volume.namespace;
    total = total;
    used = used;
    used_percent = used_percent;
  }

  -- No division by a capacity that is not positive.
  unfoldable pub used_percent_of : VolumeEnhanced F → F
  used_percent_of vol =
      if lt (of_int (pos 0)) vol.cap_gb
      then mul (div vol.effective_used_capacity_gb vol.cap_gb) (of_int (pos 100))
      else of_int (pos 0)

  abbrev pub bulk_record : Text → VolumeInfo → VolumeEnhanced F → VolumeCapacityMetricsRecord F
  bulk_record array_id volume vol =
      capacity_record array_id (volume_id_of volume.volume_handle) volume vol.cap_gb
        vol.effective_used_capacity_gb (used_percent_of vol)

  -- One round of the loop over the volumes, and one of the fallback's.
  unfoldable pub bulk_one :
      Text → Dict (VolumeEnhanced F) → VolumeInfo → Option (VolumeCapacityMetricsRecord F)
  bulk_one array_id index volume = elim (lookup (volume_id_of volume.volume_handle) index) [
    | none ↦ none
    | some vol ↦ some (bulk_record array_id volume vol)
  ]

  abbrev pub legacy_record : Text → VolumeInfo → Volume F → VolumeCapacityMetricsRecord F
  legacy_record array_id volume vol =
      capacity_record array_id (volume_id_of volume.volume_handle) volume vol.capacity_gb
        (mul (div (of_int vol.allocated_percent) (of_int (pos 100))) vol.capacity_gb)
        (of_int vol.allocated_percent)

  unfoldable pub legacy_one :
      PowerMaxClient F → Text → VolumeInfo → Option (VolumeCapacityMetricsRecord F)
  legacy_one client array_id volume =
      elim (client.get_volume_by_id array_id (volume_id_of volume.volume_handle)) [
        | err _ ↦ none
        | ok vol ↦ some (legacy_record array_id volume vol)
      ]

  -- An error, or a nil answer, of the bulk call leads to one call for each volume.
  unfoldable pub collect_array_capacity_metrics :
      PowerMaxClient F → Text → List VolumeInfo → List (VolumeCapacityMetricsRecord F)
  collect_array_capacity_metrics client array_id volumes =
      elim (client.get_volumes_capacity_bulk array_id) [
        | err _ ↦ append_each (legacy_one client array_id) volumes []
        | ok bulk ↦ elim bulk [
          | none ↦ append_each (legacy_one client array_id) volumes []
          | some vols ↦ append_each (bulk_one array_id (index_by_id [] vols)) volumes []
        ]
      ]

  -- The last entry of the answer with a given name.
  abbrev pub find_last : Text → List (VolumeEnhanced F) → Option (VolumeEnhanced F)
  find_last k [] = none
  find_last k (vol ∷ vols) = elim (find_last k vols) [
    | some later ↦ some later
    | none ↦ if text_eq vol.id k then some vol else none
  ]

  lookup-index_by_id :
      (k : Text) (m : Dict (VolumeEnhanced F)) (vols : List (VolumeEnhanced F))
      → lookup k (index_by_id m vols)
        ≡ (elim (find_last k vols) [ some vol ↦ some vol | none ↦ lookup k m ])
  unfolding index_by_id
  lookup-index_by_id k m [] = refl
  lookup-index_by_id k m (vol ∷ vols) =
      ground (arith, lookup-index_by_id k (insert vol.id vol m) vols, lookup-insert vol.id k vol m)

  bulk_one_lem :
      (a : Text) (vols : List (VolumeEnhanced F)) (v : VolumeInfo)
      → bulk_one a (index_by_id [] vols) v ≡ (elim (find_last (volume_id_of v.volume_handle) vols) [
        | none ↦ none
        | some vol ↦ some (bulk_record a v vol)
      ])
  unfolding bulk_one lookup
  bulk_one_lem a vols v = ground (arith, lookup-index_by_id (volume_id_of v.volume_handle) [] vols)

  -- What the volume's own call gives: a record, unless it fails.
  abbrev pub own_answer :
      PowerMaxClient F → Text → VolumeInfo → Option (VolumeCapacityMetricsRecord F)
  own_answer client a v = elim (client.get_volume_by_id a (volume_id_of v.volume_handle)) [
    | err _ ↦ none
    | ok vol ↦ some (legacy_record a v vol)
  ]

  -- What is reported of one volume: the array's bulk answer where there is one, the volume's own
  -- answer where not.
  abbrev pub capacity_of :
      PowerMaxClient F → Text → VolumeInfo → Option (VolumeCapacityMetricsRecord F)
  capacity_of client a v = elim (client.get_volumes_capacity_bulk a) [
    | err _ ↦ own_answer client a v
    | ok bulk ↦ elim bulk [
      | none ↦ own_answer client a v
      | some vols ↦ elim (find_last (volume_id_of v.volume_handle) vols) [
        | none ↦ none
        | some vol ↦ some (bulk_record a v vol)
      ]
    ]
  ]

  -- The records of an array are those of its volumes, in the order of the volumes: one for each
  -- volume that the array answers for, by the last bulk entry with the volume's name, or, if the
  -- bulk call fails or gives nil, by the volume's own call.
  pub collect_array_capacity_metrics_lem :
      (client : PowerMaxClient F) (a : Text) (volumes : List VolumeInfo)
      → collect_array_capacity_metrics client a volumes ≡ filter_map (capacity_of client a) volumes
  unfolding collect_array_capacity_metrics legacy_one
  collect_array_capacity_metrics_lem client a volumes = go (client.get_volumes_capacity_bulk a) refl
    where
      go :
          (r : Result (Option (List (VolumeEnhanced F))))
          → client.get_volumes_capacity_bulk a ≡ r
          → collect_array_capacity_metrics client a volumes
            ≡ filter_map (capacity_of client a) volumes
      go (err x) e =
          let same : capacity_of client a ≡ legacy_one client a =
            fun_ext (λ v. rw (e, capacity_of)) in
          rw (e, collect_array_capacity_metrics, same)
            (append_each-filter_map (legacy_one client a) volumes [])
      go (ok none) e =
          let same : capacity_of client a ≡ legacy_one client a =
            fun_ext (λ v. rw (e, capacity_of)) in
          rw (e, collect_array_capacity_metrics, same)
            (append_each-filter_map (legacy_one client a) volumes [])
      go (ok (some vols)) e =
          let same : capacity_of client a ≡ bulk_one a (index_by_id [] vols) =
            fun_ext (λ v. rw (e, capacity_of) (sym (bulk_one_lem a vols v))) in
          rw (e, collect_array_capacity_metrics, same)
            (append_each-filter_map (bulk_one a (index_by_id [] vols)) volumes [])
