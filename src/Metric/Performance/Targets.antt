-- ===== src/Metric/Performance/Targets.antt =====
-- The start of `Collect`: the storage groups to query for each array, and the volumes by name.
use csm_metrics_powermax.Prelude.{
  Text, text_eq, text_eq_iff, ◌≡◌, refl, List, [], ◌∷◌, ◌++◌, none, some, Bool, false, ◌&&◌, ◌||◌,
  any, arith, if◌then◌else◌, get_or_default, Option-cases, inl, inr,
}
use csm_metrics_powermax.Prelude.Dict.{Dict, lookup, insert, lookup-insert, member, IsNodup}
use csm_metrics_powermax.K8s.Volumes.{VolumeInfo}
use csm_metrics_powermax.Metric.Handle.{array_id_of, volume_id_of}

-- `map[string]struct{}` as a set: its members, each once.
unfoldable pub add_member : Text → List Text → List Text
add_member k [] = k ∷ []
add_member k (j ∷ ks) = if text_eq j k then j ∷ ks else j ∷ add_member k ks

pub record Targets : Type 0 where
  pub array2sgs : Dict (List Text)
  pub id2volume : Dict VolumeInfo

-- `volumeID+"="+arrayID`
abbrev pub volume_key : Text → Text → Text
volume_key volume_id array_id = volume_id ++ b'=' ∷ array_id

-- One round of the loop over the volumes.
unfoldable pub add_target : Targets → VolumeInfo → Targets
add_target t volume = elim (array_id_of volume.volume_handle) [
  | none ↦ t
  | some a ↦ record {
    array2sgs =
        insert a
          (elim (lookup a t.array2sgs) [
            | some sgs ↦ add_member volume.storage_group sgs
            | none ↦ volume.storage_group ∷ []
          ])
          t.array2sgs;
    id2volume = insert (volume_key (volume_id_of volume.volume_handle) a) volume t.id2volume;
  }
]

unfoldable pub add_targets : Targets → List VolumeInfo → Targets
add_targets t [] = t
add_targets t (volume ∷ pvs) = add_targets (add_target t volume) pvs

abbrev pub no_targets : Targets
no_targets = record { array2sgs = []; id2volume = [] }

abbrev pub groups_of : Text → Targets → List Text
groups_of a t = get_or_default [] (lookup a t.array2sgs)

pub member-add_member :
    (k j : Text) (ks : List Text) → member j (add_member k ks) ≡ (text_eq k j || member j ks)
unfolding member add_member
member-add_member k j [] = refl
member-add_member k j (i ∷ ks) =
    ground (arith, text_eq_iff i k, text_eq_iff i j, text_eq_iff k j, member-add_member k j ks)

add_member-IsNodup : (k : Text) (ks : List Text) → IsNodup ks → IsNodup (add_member k ks)
unfolding member add_member
add_member-IsNodup k [] h = (refl, tt)
add_member-IsNodup k (i ∷ ks) h =
    ground
      (arith, text_eq_iff i k, text_eq_iff k i, member-add_member k i ks, add_member-IsNodup k ks)

-- Is the volume on array `a` and in group `sg`?
abbrev pub is_in : Text → Text → VolumeInfo → Bool
is_in a sg volume = elim (array_id_of volume.volume_handle) [
  | none ↦ false
  | some b ↦ text_eq b a && text_eq volume.storage_group sg
]

add_target_lem :
    (a sg : Text) (t : Targets) (volume : VolumeInfo)
    → (member sg (groups_of a (add_target t volume))
        ≡ (is_in a sg volume || member sg (groups_of a t)))
unfolding add_target member
add_target_lem a sg t volume = elim (Option-cases (array_id_of volume.volume_handle)) [
  | inl e ↦ ground arith
  | inr (b, e) ↦ elim (Option-cases (lookup b t.array2sgs)) [
    | inl f ↦
        ground (arith, text_eq_iff b a, lookup-insert b a (volume.storage_group ∷ []) t.array2sgs)
    | inr (sgs, f) ↦ ground (
      arith,
      text_eq_iff b a,
      member-add_member volume.storage_group sg sgs,
      lookup-insert b a (add_member volume.storage_group sgs) t.array2sgs,
    )
  ]
]

add_target-IsNodup :
    (a : Text) (t : Targets) (volume : VolumeInfo)
    → IsNodup (groups_of a t)
    → IsNodup (groups_of a (add_target t volume))
unfolding add_target member
add_target-IsNodup a t volume h = elim (Option-cases (array_id_of volume.volume_handle)) [
  | inl e ↦ ground arith
  | inr (b, e) ↦ elim (Option-cases (lookup b t.array2sgs)) [
    | inl f ↦
        ground (arith, text_eq_iff b a, lookup-insert b a (volume.storage_group ∷ []) t.array2sgs)
    | inr (sgs, f) ↦ ground (
      arith,
      text_eq_iff b a,
      add_member-IsNodup volume.storage_group sgs,
      lookup-insert b a (add_member volume.storage_group sgs) t.array2sgs,
    )
  ]
]

add_targets_from :
    (a sg : Text) (t : Targets) (pvs : List VolumeInfo)
    → IsNodup (groups_of a t)
    → IsNodup (groups_of a (add_targets t pvs))
      × (member sg (groups_of a (add_targets t pvs))
          ≡ (any (is_in a sg) pvs || member sg (groups_of a t)))
unfolding add_targets
add_targets_from a sg t [] h = (h, refl)
add_targets_from a sg t (volume ∷ pvs) h =
    let (nodup, found) =
      add_targets_from a sg (add_target t volume) pvs (add_target-IsNodup a t volume h) in
    (nodup, ground (arith, found, add_target_lem a sg t volume))

-- The groups queried for an array are those of its volumes, each once: a group is in the set exactly
-- when some volume with a good handle is on the array and in the group.
pub add_targets_lem :
    (a sg : Text) (pvs : List VolumeInfo)
    → IsNodup (groups_of a (add_targets no_targets pvs))
      × (member sg (groups_of a (add_targets no_targets pvs)) ≡ any (is_in a sg) pvs)
unfolding lookup member
add_targets_lem a sg pvs =
    let (nodup, found) = add_targets_from a sg no_targets pvs tt in (nodup, ground (arith, found))
