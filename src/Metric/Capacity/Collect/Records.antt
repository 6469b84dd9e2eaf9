-- ===== src/Metric/Capacity/Collect/Records.antt =====
-- What the consumer of `gatherCapacityMetrics` receives, traced back to the listing of the volumes.
use mathlib.Core.List.{Mem, mem-cons_self, mem-cons_of_mem}
use csm_metrics_powermax.Prelude.{
  All-map, Result, ℕ, Text, ok, err, Result-cases, ◌≡◌, refl, sym, ap, ◌∙◌, List, [], ◌∷◌, Option,
  none, some, Option-cases, inl, inr, true, All, ◌⊎◌, filter, arith, get_or_default,
  All-filter_map_of, Bool-cases,
}
use csm_metrics_powermax.Prelude.Dict.{Dict, lookup, lookup-entries}
use csm_metrics_powermax.Prelude.Float.{Float64}
use csm_metrics_powermax.Prelude.Int.{pos}
use csm_metrics_powermax.K8s.Volumes.{VolumeInfo}
use csm_metrics_powermax.Metric.Base.{get_powermax_client}
use csm_metrics_powermax.Metric.Fanout.{Pool}
use csm_metrics_powermax.Metric.Fanout.Sound.{gather_sound}
use csm_metrics_powermax.Metric.Handle.{volume_id_of}
use csm_metrics_powermax.Metric.Types.{
  PowerMaxArray, PowerMaxClient, VolumeEnhanced, VolumeCapacityMetricsRecord,
}
use csm_metrics_powermax.Metric.Capacity.Arrays.{
  capacity_of, find_last, used_percent_of, capacity_record, collect_array_capacity_metrics_lem,
  legacy_one,
}
use csm_metrics_powermax.Metric.Capacity.Collect.{CapacityReach, capacity_work, empty_capacity}
use csm_metrics_powermax.Metric.Capacity.Group.{group_volumes, group_volumes_lem, is_on}

filter-Mem :
    (a : Text) (pvs : List VolumeInfo)
    → All (λ v. Mem v pvs × (is_on a v ≡ true)) (filter (is_on a) pvs)
filter-Mem a [] = tt
filter-Mem a (v ∷ pvs) =
    let others =
      All-map (λ w. Mem w pvs × (is_on a w ≡ true)) (λ w. Mem w (v ∷ pvs) × (is_on a w ≡ true))
        (λ w h. (mem-cons_of_mem v h.0, h.1)) (filter (is_on a) pvs) (filter-Mem a pvs) in
    elim (Bool-cases (is_on a v)) [
      | inl e ↦ rw e ((mem-cons_self, e), others)
      | inr e ↦ rw e others
    ]

module _ {F : Type 0} (fl : Float64 F) where
  -- The record is of a listed volume on its array, with that volume's names.
  pub record IsOfListed (pvs : List VolumeInfo) (r : VolumeCapacityMetricsRecord F) : Type 0 where
    pub volume : VolumeInfo
    pub listed : Mem volume pvs
    pub on_array : is_on r.array_id volume ≡ true
    pub id : r.volume_id ≡ volume_id_of volume.volume_handle
    pub claim : r.persistent_volume_claim_name ≡ volume.volume_claim_name
    pub named : r.persistent_volume_name ≡ volume.persistent_volume
    pub group : r.storage_group_id ≡ volume.storage_group
    pub pool : r.srp_id ≡ volume.srp

  -- Whichever call answers for a volume, the record has the volume's names.
  pub capacity_of-record :
      (client : PowerMaxClient F) (a : Text) (v : VolumeInfo) (r : VolumeCapacityMetricsRecord F)
      → capacity_of fl client a v ≡ some r
      → (total : F) × (used : F) × (percent : F) × (capacity_record fl a
            (volume_id_of v.volume_handle)
            v
            total
            used
            percent
          ≡ r)
  unfolding legacy_one
  capacity_of-record client a v r e = go (client.get_volumes_capacity_bulk a) refl
    where
      by_volume :
          legacy_one fl client a v ≡ some r
          → (total : F) × (used : F) × (percent : F) × (capacity_record fl a
                (volume_id_of v.volume_handle)
                v
                total
                used
                percent
              ≡ r)
      by_volume h = elim (Result-cases (client.get_volume_by_id a (volume_id_of v.volume_handle))) [
        | inl (x, f) ↦ absurd (ground arith)
        | inr (vol, f) ↦ (
          vol.capacity_gb,
          fl.mul (fl.div (fl.of_int vol.allocated_percent) (fl.of_int (pos 100))) vol.capacity_gb,
          fl.of_int vol.allocated_percent,
          ground arith,
        )
      ]

      go :
          (answer : Result (Option (List (VolumeEnhanced F))))
          → client.get_volumes_capacity_bulk a ≡ answer
          → (total : F) × (used : F) × (percent : F) × (capacity_record fl a
                (volume_id_of v.volume_handle)
                v
                total
                used
                percent
              ≡ r)
      go (err x) f = by_volume (rw (f, capacity_of) at e)
      go (ok none) f = by_volume (rw (f, capacity_of) at e)
      go (ok (some vols)) f =
          elim (Option-cases (find_last fl (volume_id_of v.volume_handle) vols)) [
            | inl g ↦ absurd (ground arith)
            | inr (vol, g) ↦
                (vol.cap_gb, vol.effective_used_capacity_gb, used_percent_of fl vol, ground arith)
          ]

  capacity_of-IsOfListed :
      (client : PowerMaxClient F) (pvs : List VolumeInfo) (a : Text) (v : VolumeInfo)
      (r : VolumeCapacityMetricsRecord F)
      → Mem v pvs × (is_on a v ≡ true)
      → capacity_of fl client a v ≡ some r
      → IsOfListed pvs r
  unfolding capacity_record
  capacity_of-IsOfListed client pvs a v r (m, on) e =
      let (t, u, p, same) = capacity_of-record client a v r e in
      rw (← same) (record {
        volume = v;
        listed = m;
        on_array = on;
        id = refl;
        claim = refl;
        named = refl;
        group = refl;
        pool = refl;
      })

  -- A record of a listed volume, or the empty record in case the listing names no array.
  abbrev pub CapacityAccounted : List VolumeInfo → VolumeCapacityMetricsRecord F → Type 0
  CapacityAccounted pvs r =
      IsOfListed pvs r ⊎ ((r ≡ empty_capacity fl) × (group_volumes [] pvs ≡ []))

  capacity_work-IsOfListed :
      (clients : Option (Dict (List (PowerMaxArray F)))) (pvs : List VolumeInfo) (a : Text)
      (vs : List VolumeInfo)
      → lookup a (group_volumes [] pvs) ≡ some vs
      → All (CapacityAccounted pvs) (capacity_work fl clients (a, vs))
  unfolding capacity_work
  capacity_work-IsOfListed clients pvs a vs e =
      elim (Result-cases (get_powermax_client clients a)) [
        | inl (x, f) ↦ rw (f, capacity_work) tt
        | inr (none, f) ↦ rw (f, capacity_work) tt
        | inr (some c, f) ↦
            let those : vs ≡ filter (is_on a) pvs =
              sym (ap (get_or_default []) e) ∙ (group_volumes_lem pvs).1 a in
            rw (f, capacity_work, collect_array_capacity_metrics_lem fl c a vs, those)
              (All-filter_map_of (λ v. Mem v pvs × (is_on a v ≡ true)) (CapacityAccounted pvs)
                (capacity_of fl c a) (λ v r h k. inl (capacity_of-IsOfListed c pvs a v r h k))
                (filter (is_on a) pvs) (filter-Mem a pvs))
      ]

  -- Whatever is received of the capacities, at any moment of any schedule, is a record of a listed
  -- volume, on the array that the volume's handle names, with the volume's names; or it is the
  -- empty record, and the listing names no array.
  pub capacity_records_accounted :
      (limit : ℕ) (clients : Option (Dict (List (PowerMaxArray F)))) (pvs : List VolumeInfo)
      {s : Pool (Text × List VolumeInfo) (VolumeCapacityMetricsRecord F)}
      → CapacityReach fl limit clients pvs s
      → All (CapacityAccounted pvs) s.sent
  capacity_records_accounted limit clients pvs r =
      let jobs = group_volumes [] pvs in
      gather_sound limit (capacity_work fl clients) (empty_capacity fl) (CapacityAccounted pvs) jobs
        (each jobs (lookup-entries jobs (group_volumes_lem pvs).0)) (λ e. inr (refl, e)) r
    where
      each :
          (jobs : Dict (List VolumeInfo))
          → All (λ j. lookup j.0 (group_volumes [] pvs) ≡ some j.1) jobs
          → All (λ j. All (CapacityAccounted pvs) (capacity_work fl clients j)) jobs
      each [] h = tt
      each ((a, vs) ∷ jobs) (e, h) = (capacity_work-IsOfListed clients pvs a vs e, each jobs h)
