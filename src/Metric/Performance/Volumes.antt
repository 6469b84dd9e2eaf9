-- ===== src/Metric/Performance/Volumes.antt =====
-- `gatherVolumePerformanceMetrics`: the last available times, and the records of one array.
use csm_metrics_powermax.Prelude.{
  Text, ok, err, codes, contains_text, contains_text-append, ◌≡◌, refl, List, [], ◌∷◌, ◌++◌, Option,
  none, some, arith, if◌then◌else◌, append_each, inl, inr, Result-cases, All, All-append_each,
}
use csm_metrics_powermax.Prelude.Dict.{Dict, lookup, insert}
use csm_metrics_powermax.Prelude.Int.{ℤ}
use csm_metrics_powermax.K8s.Volumes.{VolumeInfo}
use csm_metrics_powermax.Metric.Base.{get_powermax_client}
use csm_metrics_powermax.Metric.Types.{
  PowerMaxArray, PowerMaxClient, LastAvailable, VolumeMetric, VolumeMetrics,
  VolumePerfMetricsRecord,
}
use csm_metrics_powermax.Metric.Performance.Targets.{volume_key}

unfoldable pub store_times : Dict ℤ → List LastAvailable → Dict ℤ
store_times m [] = m
store_times m (info ∷ infos) = store_times (insert info.name info.last_available_date m) infos

-- The metrics asked of an array, and the groups, each followed by a comma.
abbrev pub volume_metrics_query : List Text
volume_metrics_query =
    codes "MBRead"
    ∷ codes "MBWritten"
    ∷ codes "ReadResponseTime"
    ∷ codes "WriteResponseTime"
    ∷ codes "Reads"
    ∷ codes "Writes"
    ∷ []

unfoldable pub query_sg_params : Text → List Text → Text
query_sg_params query [] = query
query_sg_params query (sg ∷ sgs) = query_sg_params (query ++ (sg ++ codes ",")) sgs

module _ {F : Type 0} where
  -- The loop over the arrays: one answer may bring the times of other arrays too.
  unfoldable pub last_avail_times :
      Option (Dict (List (PowerMaxArray F))) → Dict ℤ → List Text → Dict ℤ
  last_avail_times clients m [] = m
  last_avail_times clients m (a ∷ arrays) =
      last_avail_times clients
        (elim (lookup a m) [
          | some _ ↦ m
          | none ↦ elim (get_powermax_client clients a) [
            | err _ ↦ m
            | ok client ↦ elim client [
              | none ↦ m
              | some c ↦ elim c.get_array_perf_keys [ err _ ↦ m | ok infos ↦ store_times m infos ]
            ]
          ]
        ])
        arrays

  unfoldable pub volume_perf_record :
      Text → Text → VolumeInfo → VolumeMetric F → VolumePerfMetricsRecord F
  volume_perf_record array_id volume_id volume m = record {
    array_id = array_id;
    volume_id = volume_id;
    storage_group_id = volume.storage_group;
    storage_class = volume.storage_class;
    driver = volume.driver;
    persistent_volume_name = volume.persistent_volume;
    persistent_volume_claim_name = volume.volume_claim_name;
    namespace = volume.namespace;
    mb_read = m.mb_read;
    mb_written = m.mb_written;
    read_response_time = m.read_response_time;
    write_response_time = m.write_response_time;
    reads = m.reads;
    writes = m.writes;
  }

  -- One round of the loop over the answer: the first sample of a volume that is listed and whose
  -- group `strings.Contains` finds in the answer's groups.
  unfoldable pub volume_perf_one :
      Text → Dict VolumeInfo → VolumeMetrics F → Option (VolumePerfMetricsRecord F)
  volume_perf_one array_id id2volume result =
      elim (lookup (volume_key result.volume_id array_id) id2volume) [
        | none ↦ none
        | some volume ↦
            if contains_text result.storage_groups volume.storage_group
            then (elim result.volume_result [
              | [] ↦ none
              | m ∷ _ ↦ some (volume_perf_record array_id result.volume_id volume m)
            ])
            else none
      ]

  -- The goroutine of one array.
  unfoldable pub volume_perf_work :
      Option (Dict (List (PowerMaxArray F)))
      → Dict ℤ
      → Dict VolumeInfo
      → Text × List Text
      → List (VolumePerfMetricsRecord F)
  volume_perf_work clients times id2volume (a, sgs) = elim (lookup a times) [
    | none ↦ []
    | some t ↦ elim (get_powermax_client clients a) [
      | err _ ↦ []
      | ok client ↦ elim client [
        | none ↦ []
        | some c ↦
            elim (c.get_volumes_metrics a (query_sg_params [] sgs) volume_metrics_query t t) [
              | err _ ↦ []
              | ok results ↦ append_each (volume_perf_one a id2volume) results []
            ]
      ]
    ]
  ]

  -- What is promised of each record of array `a`: it names the array, and it carries the labels of
  -- the listed volume of that name and array.
  pub record IsOfVolume (a : Text) (id2volume : Dict VolumeInfo) (r : VolumePerfMetricsRecord F)
      : Type 0 where
    pub on_array : r.array_id ≡ a
    pub volume : VolumeInfo
    pub listed : lookup (volume_key r.volume_id a) id2volume ≡ some volume
    pub claim : r.persistent_volume_claim_name ≡ volume.volume_claim_name
    pub named : r.persistent_volume_name ≡ volume.persistent_volume
    pub group : r.storage_group_id ≡ volume.storage_group
    pub driven : r.driver ≡ volume.driver
    pub classed : r.storage_class ≡ volume.storage_class
    pub spaced : r.namespace ≡ volume.namespace

  volume_perf_one-IsOfVolume :
      (a : Text) (id2volume : Dict VolumeInfo) (result : VolumeMetrics F)
      (r : VolumePerfMetricsRecord F)
      → volume_perf_one a id2volume result ≡ some r
      → IsOfVolume a id2volume r
  unfolding volume_perf_one volume_perf_record
  volume_perf_one-IsOfVolume a id2volume result r e =
      go (lookup (volume_key result.volume_id a) id2volume) refl
    where
      go :
          (o : Option VolumeInfo)
          → lookup (volume_key result.volume_id a) id2volume ≡ o
          → IsOfVolume a id2volume r
      go none q = ground arith
      go (some v) q =
          let id_same : result.volume_id ≡ r.volume_id = ground arith in
          record {
            on_array = ground arith;
            volume = v;
            listed = rw (← id_same) q;
            claim = ground arith;
            named = ground arith;
            group = ground arith;
            driven = ground arith;
            classed = ground arith;
            spaced = ground arith;
          }

  -- Every record that an array's goroutine sends is of that array, and of a volume that the listing
  -- has under the same name and array, with that volume's labels.
  pub volume_perf_work-IsOfVolume :
      (clients : Option (Dict (List (PowerMaxArray F)))) (times : Dict ℤ)
      (id2volume : Dict VolumeInfo) (a : Text) (sgs : List Text)
      → All (IsOfVolume a id2volume) (volume_perf_work clients times id2volume (a, sgs))
  unfolding volume_perf_work
  volume_perf_work-IsOfVolume clients times id2volume a sgs = from_time (lookup a times) refl
    where
      from_client :
          (t : ℤ) (c : PowerMaxClient F)
          → All
              (IsOfVolume a id2volume)
              (elim (c.get_volumes_metrics a (query_sg_params [] sgs) volume_metrics_query t t) [
                | err _ ↦ []
                | ok results ↦ append_each (volume_perf_one a id2volume) results []
              ])
      from_client t c =
          elim (Result-cases
            (c.get_volumes_metrics a (query_sg_params [] sgs) volume_metrics_query t t)) [
              | inl (x, e) ↦ rw e tt
              | inr (results, e) ↦ rw e (
                  All-append_each (IsOfVolume a id2volume) (volume_perf_one a id2volume)
                    (volume_perf_one-IsOfVolume a id2volume) results)
            ]

      from_time :
          (o : Option ℤ)
          → lookup a times ≡ o
          → All (IsOfVolume a id2volume) (volume_perf_work clients times id2volume (a, sgs))
      from_time none q = rw (q, volume_perf_work) tt
      from_time (some t) q = elim (Result-cases (get_powermax_client clients a)) [
        | inl (x, e) ↦ rw (q, volume_perf_work) (rw e tt)
        | inr (none, e) ↦ rw (q, volume_perf_work) (rw e tt)
        | inr (some c, e) ↦ rw (q, volume_perf_work) (rw e (from_client t c))
      ]

  -- The group test is by substring: a volume whose group's name occurs in the name of the group that
  -- the answer gives, "sg1" in "sg10", is reported under its own group's name.
  pub volume_perf_one_substring :
      (a : Text) (id2volume : Dict VolumeInfo) (volume : VolumeInfo) (volume_id p u : Text)
      (m : VolumeMetric F) (ms : List (VolumeMetric F))
      → lookup (volume_key volume_id a) id2volume ≡ some volume
      → volume_perf_one a id2volume (record {
        volume_id = volume_id;
        storage_groups = p ++ (volume.storage_group ++ u);
        volume_result = m ∷ ms;
      })
        ≡ some (volume_perf_record a volume_id volume m)
  unfolding volume_perf_one
  volume_perf_one_substring a id2volume volume volume_id p u m ms e =
      ground (arith, contains_text-append p volume.storage_group u)
