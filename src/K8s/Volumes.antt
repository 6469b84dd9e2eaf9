-- ===== src/K8s/Volumes.antt =====
-- internal/k8s/volume_finder.go: the persistent volumes of the configured drivers.
use csm_metrics_powermax.Prelude.{
  Text, Result, ok, err, codes, text_eq, List, [], ◌∷◌, Option, none, some, Bool, true, false,
  if◌then◌else◌, get_or_default, append_each, append_each-filter_map, filter_map,
  length-filter_map-le, All, All-append_each, length, ◌≡◌, ◌≢◌, ◌≤◌, refl, arith, text_eq_iff,
}
use csm_metrics_powermax.Prelude.Dict.{Dict, lookup}

pub record VolumeInfo : Type 0 where
  pub namespace : Text
  pub persistent_volume_claim : Text
  pub persistent_volume_status : Text
  pub volume_claim_name : Text
  pub persistent_volume : Text
  pub storage_class : Text
  pub driver : Text
  pub provisioned_size : Text
  pub created_time : Text
  pub volume_handle : Text
  pub srp : Text
  pub service_level : Text
  pub storage_group : Text
  pub sym_id : Text
  pub storage_system_volume_name : Text
  pub protocol : Text

-- What the finder reads of a Kubernetes `PersistentVolume`; `none` is a nil pointer. The printed
-- capacity and time are those that the API's `String` methods give.
pub record Csi : Type 0 where
  pub csi_driver : Text
  pub csi_volume_handle : Text
  pub volume_attributes : Dict Text

pub record ClaimRef : Type 0 where
  pub claim_namespace : Text
  pub claim_name : Text
  pub claim_uid : Text

pub record PersistentVolume : Type 0 where
  pub name : Text
  pub creation_timestamp : Text
  pub phase : Text
  pub storage_class_name : Text
  pub capacity : Text
  pub csi : Option Csi
  pub claim_ref : Option ClaimRef

-- `contains`, and its exported twin `Contains` of storageclass_finder.go.
unfoldable pub contains : List Text → Text → Bool
contains [] value = false
contains (element ∷ slice) value =
    let rest = contains slice value in if text_eq element value then true else rest

-- A read of a missing key gives "".
abbrev attribute : Text → Csi → Text
attribute key c = get_or_default [] (lookup key c.volume_attributes)

unfoldable pub storage_protocol : Csi → Text
storage_protocol c =
    let p = attribute (codes "Protocol") c in if text_eq p [] then codes "N/A" else p

storage_protocol_ne_nil : (c : Csi) → storage_protocol c ≢ []
unfolding storage_protocol
storage_protocol_ne_nil c = ground (arith, text_eq_iff (attribute (codes "Protocol") c) [])

unfoldable pub info_of : PersistentVolume → Csi → ClaimRef → VolumeInfo
info_of volume c claim = record {
  namespace = claim.claim_namespace;
  persistent_volume_claim = claim.claim_uid;
  volume_claim_name = claim.claim_name;
  persistent_volume_status = volume.phase;
  persistent_volume = volume.name;
  storage_class = volume.storage_class_name;
  driver = c.csi_driver;
  provisioned_size = volume.capacity;
  created_time = volume.creation_timestamp;
  volume_handle = c.csi_volume_handle;
  srp = attribute (codes "SRP") c;
  service_level = attribute (codes "ServiceLevel") c;
  storage_group = attribute (codes "StorageGroup") c;
  sym_id = attribute (codes "powermax/SYMID") c;
  storage_system_volume_name = volume.name;
  protocol = storage_protocol c;
}

-- One round of the loop: a volume of another kind of storage, without a claim or of a driver that
-- is not configured is passed over.
unfoldable pub select : List Text → PersistentVolume → Option VolumeInfo
select drivers volume = elim volume.csi [
  | none ↦ none
  | some c ↦ elim volume.claim_ref [
    | none ↦ none
    | some claim ↦ if contains drivers c.csi_driver then some (info_of volume c claim) else none
  ]
]

-- `GetPersistentVolumes`, from the answer of the API.
unfoldable pub get_persistent_volumes :
    List Text → Result (List PersistentVolume) → Result (List VolumeInfo)
get_persistent_volumes drivers (err e) = err e
get_persistent_volumes drivers (ok items) = ok (append_each (select drivers) items [])

-- What the listing promises of each entry.
pub record IsListed (drivers : List Text) (i : VolumeInfo) : Type 0 where
  pub driver_known : contains drivers i.driver ≡ true
  pub protocol_given : i.protocol ≢ []
  pub same_name : i.storage_system_volume_name ≡ i.persistent_volume

select-IsListed :
    (drivers : List Text) (volume : PersistentVolume) (i : VolumeInfo)
    → select drivers volume ≡ some i
    → IsListed drivers i
unfolding select info_of
select-IsListed drivers volume i e = go volume.csi refl
  where
    go : (o : Option Csi) → volume.csi ≡ o → IsListed drivers i
    go none q = ground arith
    go (some c) q = ground (arith, storage_protocol_ne_nil c)

-- Every volume that is listed belongs to a configured driver, has a protocol (possibly "N/A") and
-- its own name as the name of the storage system volume, and no more volumes are listed than the
-- API gives.
pub get_persistent_volumes-IsListed :
    (drivers : List Text) (items : List PersistentVolume) {infos : List VolumeInfo}
    → get_persistent_volumes drivers (ok items) ≡ ok infos
    → All (IsListed drivers) infos × (length infos ≤ length items)
unfolding get_persistent_volumes
get_persistent_volumes-IsListed drivers items {infos} e =
    let looped : append_each (select drivers) items [] ≡ infos = cc in
    let same : filter_map (select drivers) items ≡ infos =
      cc (append_each-filter_map (select drivers) items []) in
    (
      rw (← looped)
          (All-append_each (IsListed drivers) (select drivers) (select-IsListed drivers) items),
      rw (← same) (length-filter_map-le (select drivers) items),
    )
