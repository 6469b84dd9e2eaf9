-- ===== src/Metric/Performance/Collect/Records.antt =====
-- What the consumers of both `gather…` functions receive, traced back to the listing of the volumes.
use csm_metrics_powermax.Prelude.{
  ℕ, Text, ◌≡◌, refl, sym, subst, ◌∙◌, List, [], ◌∷◌, Option, some, inl, inr, true, any, All, ◌⊎◌,
}
use csm_metrics_powermax.Prelude.Dict.{Dict, keys, lookup, lookup-entries}
use csm_metrics_powermax.Prelude.Float.{Float64}
use csm_metrics_powermax.Prelude.Int.{ℤ}
use csm_metrics_powermax.K8s.Volumes.{VolumeInfo}
use csm_metrics_powermax.Metric.Fanout.{Pool}
use csm_metrics_powermax.Metric.Fanout.Sound.{gather_sound}
use csm_metrics_powermax.Metric.Types.{
  PowerMaxArray, StorageGroupPerfMetricsRecord, VolumePerfMetricsRecord,
}
use csm_metrics_powermax.Metric.Performance.SgCache.{SgCountCache}
use csm_metrics_powermax.Metric.Performance.StorageGroups.Records.{IsAsked, sg_perf_work-IsAsked}
use csm_metrics_powermax.Metric.Performance.Targets.{
  add_targets, add_targets_lem, no_targets, is_in, volume_key,
}
use csm_metrics_powermax.Metric.Performance.Volumes.{
  IsOfVolume, volume_perf_work-IsOfVolume, volume_perf_work, last_avail_times,
}
use csm_metrics_powermax.Metric.Performance.Collect.Listing.{
  add_targets-IsNodup, add_targets-IsFrom, IsFrom, NoArray, add_targets-NoArray,
}
use csm_metrics_powermax.Metric.Performance.Collect.{
  GroupReach, VolumeReach, group_work, empty_sg_perf, empty_volume_perf,
}

module _ {F : Type 0} (fl : Float64 F) where
  -- The record is of a group that some listed volume is in, on the array that this volume's handle
  -- names; or it is the empty record, and the listing names no array.
  abbrev pub GroupAccounted : List VolumeInfo → StorageGroupPerfMetricsRecord F → Type 0
  GroupAccounted pvs r =
      (any (is_in r.array_id r.storage_group_id) pvs ≡ true)
      ⊎ ((r ≡ empty_sg_perf fl) × NoArray pvs)

  asked-GroupAccounted :
      (pvs : List VolumeInfo) (a : Text) (sgs : List Text)
      (rs : List (StorageGroupPerfMetricsRecord F))
      → lookup a (add_targets no_targets pvs).array2sgs ≡ some sgs
      → All (IsAsked a sgs) rs
      → All (GroupAccounted pvs) rs
  asked-GroupAccounted pvs a sgs [] e h = tt
  asked-GroupAccounted pvs a sgs (r ∷ rs) e ((on_array, known), h) =
      let found = (add_targets_lem r.array_id r.storage_group_id pvs).1 in
      (inl (sym found ∙ rw (on_array, e) known), asked-GroupAccounted pvs a sgs rs e h)

  -- Whatever the recorder is given for storage groups, at any moment of any schedule, it is a record
  -- of a group that some listed volume is in, on the array that this volume's handle names, or it
  -- is the empty record and no listed volume names an array.
  pub group_records_accounted :
      (limit : ℕ) (clients : Option (Dict (List (PowerMaxArray F)))) (ratio : F)
      (now fetched : Text → ℕ) (cache : SgCountCache) (pvs : List VolumeInfo)
      {s : Pool (Text × List Text) (StorageGroupPerfMetricsRecord F)}
      → GroupReach fl limit ratio clients now fetched cache (add_targets no_targets pvs) s
      → All (GroupAccounted pvs) s.sent
  group_records_accounted limit clients ratio now fetched cache pvs r =
      let t = add_targets no_targets pvs in
      gather_sound limit (group_work fl ratio clients now fetched cache) (empty_sg_perf fl)
        (GroupAccounted pvs) t.array2sgs
        (each t.array2sgs (lookup-entries t.array2sgs (add_targets-IsNodup no_targets pvs tt)))
        (λ e. inr (refl, add_targets-NoArray no_targets pvs e)) r
    where
      each :
          (jobs : Dict (List Text))
          → All (λ j. lookup j.0 (add_targets no_targets pvs).array2sgs ≡ some j.1) jobs
          → All
              (λ j. All (GroupAccounted pvs) (group_work fl ratio clients now fetched cache j))
              jobs
      each [] h = tt
      each ((a, sgs) ∷ jobs) (e, h) = (
        asked-GroupAccounted pvs a sgs _ e (
            unfold group_work in
            sg_perf_work-IsAsked fl ratio (now a) (fetched a) cache clients a sgs),
        each jobs h,
      )

  -- The record carries the labels of a listed volume, whose handle its key is made from; or it is
  -- the empty record, and the listing names no array.
  pub record Labelled (pvs : List VolumeInfo) (r : VolumePerfMetricsRecord F) : Type 0 where
    pub volume : VolumeInfo
    pub from : IsFrom pvs (volume_key r.volume_id r.array_id) volume
    pub claim : r.persistent_volume_claim_name ≡ volume.volume_claim_name
    pub named : r.persistent_volume_name ≡ volume.persistent_volume
    pub group : r.storage_group_id ≡ volume.storage_group
    pub driven : r.driver ≡ volume.driver
    pub classed : r.storage_class ≡ volume.storage_class
    pub spaced : r.namespace ≡ volume.namespace

  abbrev pub VolumeAccounted : List VolumeInfo → VolumePerfMetricsRecord F → Type 0
  VolumeAccounted pvs r = Labelled pvs r ⊎ ((r ≡ empty_volume_perf fl) × NoArray pvs)

  of_volume-VolumeAccounted :
      (pvs : List VolumeInfo) (a : Text) (rs : List (VolumePerfMetricsRecord F))
      → All (IsOfVolume a (add_targets no_targets pvs).id2volume) rs
      → All (VolumeAccounted pvs) rs
  unfolding lookup
  of_volume-VolumeAccounted pvs a [] h = tt
  of_volume-VolumeAccounted pvs a (r ∷ rs) (v, h) = (
    elim (add_targets-IsFrom no_targets pvs (volume_key r.volume_id a) v.volume v.listed) [
      | inl e ↦ cc
      | inr f ↦ inl (record {
        volume = v.volume;
        from = subst (λ b. IsFrom pvs (volume_key r.volume_id b) v.volume) (sym v.on_array) f;
        claim = v.claim;
        named = v.named;
        group = v.group;
        driven = v.driven;
        classed = v.classed;
        spaced = v.spaced;
      })
    ],
    of_volume-VolumeAccounted pvs a rs h,
  )

  -- Whatever the recorder is given for volumes, at any moment of any schedule, carries the labels
  -- of a listed volume from whose handle its key is made (its claim, its persistent volume, its
  -- group, its driver, its storage class and its namespace), or it is the empty record and no
  -- listed volume names an array.
  pub volume_records_accounted :
      (limit : ℕ) (clients : Option (Dict (List (PowerMaxArray F)))) (pvs : List VolumeInfo)
      {s : Pool (Text × List Text) (VolumePerfMetricsRecord F)}
      → VolumeReach fl limit clients (add_targets no_targets pvs) s
      → All (VolumeAccounted pvs) s.sent
  volume_records_accounted limit clients pvs r =
      let t = add_targets no_targets pvs in
      gather_sound limit (volume_perf_work clients times t.id2volume) (empty_volume_perf fl)
        (VolumeAccounted pvs) t.array2sgs (each t.array2sgs)
        (λ e. inr (refl, add_targets-NoArray no_targets pvs e)) r
    where
      times : Dict ℤ
      times = last_avail_times clients [] (keys (add_targets no_targets pvs).array2sgs)

      each :
          (jobs : Dict (List Text))
          → All
              (λ j.
                All
                  (VolumeAccounted pvs)
                  (volume_perf_work clients times (add_targets no_targets pvs).id2volume j))
              jobs
      each [] = tt
      each ((a, sgs) ∷ jobs) = (
        of_volume-VolumeAccounted pvs a _ (
            volume_perf_work-IsOfVolume clients times (add_targets no_targets pvs).id2volume a sgs),
        each jobs,
      )
