-- ===== src/Metric/Capacity/Group.antt =====
-- The start of `gatherCapacityMetrics`: the volumes of each array, by the name in their handle.
use csm_metrics_powermax.Prelude.{
  Text, Option-cases, inl, inr, text_eq, text_eq_iff, ◌≡◌, List, [], ◌∷◌, ◌++◌, none, some, Bool,
  false, arith, if◌then◌else◌, get_or_default, filter, append-nil, append_assoc,
}
use csm_metrics_powermax.Prelude.Dict.{
  Dict, lookup, insert, lookup-insert, keys, IsNodup, insert-IsNodup,
}
use csm_metrics_powermax.K8s.Volumes.{VolumeInfo}
use csm_metrics_powermax.Metric.Handle.{array_id_of}

-- `array2Volumes[arrayID] = append(array2Volumes[arrayID], volume)`, or nothing for a bad handle.
unfoldable pub group_volume : Dict (List VolumeInfo) → VolumeInfo → Dict (List VolumeInfo)
group_volume m volume = elim (array_id_of volume.volume_handle) [
  | none ↦ m
  | some a ↦ insert a (get_or_default [] (lookup a m) ++ volume ∷ []) m
]

unfoldable pub group_volumes : Dict (List VolumeInfo) → List VolumeInfo → Dict (List VolumeInfo)
group_volumes m [] = m
group_volumes m (volume ∷ pvs) = group_volumes (group_volume m volume) pvs

-- Is the volume on array `a`, by its handle?
abbrev pub is_on : Text → VolumeInfo → Bool
is_on a volume = elim (array_id_of volume.volume_handle) [ none ↦ false | some b ↦ text_eq b a ]

abbrev pub volumes_at : Text → Dict (List VolumeInfo) → List VolumeInfo
volumes_at a m = get_or_default [] (lookup a m)

group_volume_lem :
    (a : Text) (m : Dict (List VolumeInfo)) (volume : VolumeInfo)
    → volumes_at a (group_volume m volume)
      ≡ volumes_at a m ++ (if is_on a volume then volume ∷ [] else [])
unfolding group_volume
group_volume_lem a m volume = elim (Option-cases (array_id_of volume.volume_handle)) [
  | inl e ↦ ground (arith, append-nil (volumes_at a m))
  | inr (b, e) ↦ ground (
    arith,
    text_eq_iff b a,
    append-nil (volumes_at a m),
    lookup-insert b a (volumes_at b m ++ volume ∷ []) m,
  )
]

group_volumes_from :
    (a : Text) (m : Dict (List VolumeInfo)) (pvs : List VolumeInfo)
    → volumes_at a (group_volumes m pvs) ≡ volumes_at a m ++ filter (is_on a) pvs
unfolding group_volumes
group_volumes_from a m [] = rw append-nil
group_volumes_from a m (volume ∷ pvs) =
    rw (group_volumes_from a (group_volume m volume) pvs, group_volume_lem a m volume)
      (ground (
        arith,
        append-nil (volumes_at a m),
        append_assoc (volumes_at a m) (volume ∷ []) (filter (is_on a) pvs),
      ))

group_volume-IsNodup :
    (m : Dict (List VolumeInfo)) (volume : VolumeInfo)
    → IsNodup (keys m)
    → IsNodup (keys (group_volume m volume))
unfolding group_volume
group_volume-IsNodup m volume h = elim (Option-cases (array_id_of volume.volume_handle)) [
  | inl e ↦ rw (e, group_volume) h
  | inr (b, e) ↦ rw (e, group_volume) (insert-IsNodup b (volumes_at b m ++ volume ∷ []) m h)
]

group_volumes-IsNodup :
    (m : Dict (List VolumeInfo)) (pvs : List VolumeInfo)
    → IsNodup (keys m)
    → IsNodup (keys (group_volumes m pvs))
unfolding group_volumes
group_volumes-IsNodup m [] h = h
group_volumes-IsNodup m (volume ∷ pvs) h =
    group_volumes-IsNodup (group_volume m volume) pvs (group_volume-IsNodup m volume h)

-- Each array is visited once, and its list is exactly the volumes whose handle names it, in the
-- order of the listing: no volume with a good handle is lost, doubled or put on another array.
pub group_volumes_lem :
    (pvs : List VolumeInfo)
    → IsNodup (keys (group_volumes [] pvs))
      × ((a : Text) → volumes_at a (group_volumes [] pvs) ≡ filter (is_on a) pvs)
unfolding lookup
group_volumes_lem pvs = (group_volumes-IsNodup [] pvs tt, λ a. group_volumes_from a [] pvs)
