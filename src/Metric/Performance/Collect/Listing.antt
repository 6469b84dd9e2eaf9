-- ===== src/Metric/Performance/Collect/Listing.antt =====
-- The loop of `Collect` over the volumes: what it leaves in its two maps comes from the listing.
use mathlib.Core.List.{Mem, mem-cons_self, mem-cons_of_mem}
use csm_metrics_powermax.Prelude.{
  Text, text_eq, text_eq_iff, ◌≡◌, subst, List, [], ◌∷◌, none, some, Option-cases, Bool-cases, ◌≢◌,
  inl, inr, arith, All, ◌⊎◌,
}
use csm_metrics_powermax.Prelude.Dict.{
  Dict, keys, lookup, insert, lookup-insert, IsNodup, insert-IsNodup,
}
use csm_metrics_powermax.K8s.Volumes.{VolumeInfo}
use csm_metrics_powermax.Metric.Handle.{array_id_of, volume_id_of}
use csm_metrics_powermax.Metric.Performance.Targets.{Targets, add_target, add_targets, volume_key}

pub add_targets-IsNodup :
    (t : Targets) (pvs : List VolumeInfo)
    → IsNodup (keys t.array2sgs)
    → IsNodup (keys (add_targets t pvs).array2sgs)
unfolding add_targets add_target
add_targets-IsNodup t [] h = h
add_targets-IsNodup t (volume ∷ pvs) h =
    add_targets-IsNodup (add_target t volume) pvs (one t volume h)
  where
    one :
        (u : Targets) (v : VolumeInfo)
        → IsNodup (keys u.array2sgs)
        → IsNodup (keys (add_target u v).array2sgs)
    one u v d = elim (Option-cases (array_id_of v.volume_handle)) [
      | inl e ↦ rw (add_target, e) d
      | inr (a, e) ↦ rw (add_target, e) (insert-IsNodup a _ u.array2sgs d)
    ]

-- Volume `v` of the listing names an array, and `key` is made from its handle.
pub record IsFrom (pvs : List VolumeInfo) (key : Text) (v : VolumeInfo) : Type 0 where
  pub array_id : Text
  pub listed : Mem v pvs
  pub on_array : array_id_of v.volume_handle ≡ some array_id
  pub same_key : volume_key (volume_id_of v.volume_handle) array_id ≡ key

IsFrom-later :
    (u : VolumeInfo) (pvs : List VolumeInfo) (key : Text) (v : VolumeInfo)
    → IsFrom pvs key v
    → IsFrom (u ∷ pvs) key v
IsFrom-later u pvs key v f = record {
  array_id = f.array_id;
  listed = mem-cons_of_mem u f.listed;
  on_array = f.on_array;
  same_key = f.same_key;
}

add_target-IsFrom :
    (t : Targets) (u : VolumeInfo) (pvs : List VolumeInfo) (key : Text) (v : VolumeInfo)
    → lookup key (add_target t u).id2volume ≡ some v
    → (lookup key t.id2volume ≡ some v) ⊎ IsFrom (u ∷ pvs) key v
unfolding add_target
add_target-IsFrom t u pvs key v h = elim (Option-cases (array_id_of u.volume_handle)) [
  | inl e ↦ inl (ground arith)
  | inr (a, e) ↦
      let k = volume_key (volume_id_of u.volume_handle) a in
      let found = lookup-insert k key u t.id2volume in
      elim (Bool-cases (text_eq k key)) [
        | inl same ↦
            let is_u : u ≡ v = ground (arith, found) in
            inr (record {
              array_id = a;
              listed = subst (λ w. Mem w (u ∷ pvs)) is_u mem-cons_self;
              on_array = rw (← is_u) e;
              same_key = rw (← is_u) ((text_eq_iff k key).0 same);
            })
        | inr other ↦ inl (ground (arith, found))
      ]
]

pub add_targets-IsFrom :
    (t : Targets) (pvs : List VolumeInfo) (key : Text) (v : VolumeInfo)
    → lookup key (add_targets t pvs).id2volume ≡ some v
    → (lookup key t.id2volume ≡ some v) ⊎ IsFrom pvs key v
unfolding add_targets
add_targets-IsFrom t [] key v h = inl h
add_targets-IsFrom t (u ∷ pvs) key v h = elim (add_targets-IsFrom (add_target t u) pvs key v h) [
  | inl e ↦ add_target-IsFrom t u pvs key v e
  | inr f ↦ inr (IsFrom-later u pvs key v f)
]

-- No volume of the listing names an array.
abbrev pub NoArray : List VolumeInfo → Type 0
NoArray pvs = All (λ v. array_id_of v.volume_handle ≡ none) pvs

insert-ne-nil : {V : Type 0} (k : Text) (v : V) (m : Dict V) → insert k v m ≢ []
unfolding insert
insert-ne-nil k v [] = λ e. cc
insert-ne-nil k v ((j, w) ∷ m) = ground arith

add_targets-ne-nil :
    (t : Targets) (pvs : List VolumeInfo) → t.array2sgs ≢ [] → (add_targets t pvs).array2sgs ≢ []
unfolding add_targets add_target
add_targets-ne-nil t [] h = h
add_targets-ne-nil t (v ∷ pvs) h =
    add_targets-ne-nil (add_target t v) pvs (elim (Option-cases (array_id_of v.volume_handle)) [
      | inl e ↦ rw (add_target, e) h
      | inr (a, e) ↦ rw (add_target, e) (insert-ne-nil a _ t.array2sgs)
    ])

pub add_targets-NoArray :
    (t : Targets) (pvs : List VolumeInfo) → (add_targets t pvs).array2sgs ≡ [] → NoArray pvs
unfolding add_targets add_target
add_targets-NoArray t [] h = tt
add_targets-NoArray t (v ∷ pvs) h = elim (Option-cases (array_id_of v.volume_handle)) [
  | inl e ↦ (e, add_targets-NoArray (add_target t v) pvs h)
  | inr (a, e) ↦ absurd (
      add_targets-ne-nil (add_target t v) pvs (rw (add_target, e) (insert-ne-nil a _ t.array2sgs))
        h)
]
