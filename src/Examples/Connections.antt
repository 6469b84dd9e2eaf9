-- ===== src/Examples/Connections.antt =====
-- A proxy configuration with two endpoints, and the service that reads it.
use csm_metrics_powermax.Prelude.{
  ℕ, Text, Result, ok, err, codes, text_eq, List, [], ◌∷◌, some, true, false, ◌≡◌, refl, filter,
  map, get_or_default,
}
use csm_metrics_powermax.Prelude.Dict.{lookup}
use csm_metrics_powermax.Examples.Data.{array1, array2, client1, clients, service, whole, volume}
use csm_metrics_powermax.K8s.Api.{Cluster, absent, answers, get_all, panics, get_after_failure}
use csm_metrics_powermax.K8s.StorageClasses.{StorageArrayId, StorageClass}
use csm_metrics_powermax.K8s.Volumes.{PersistentVolume, VolumeInfo}
use csm_metrics_powermax.Pmax.Arrays.{
  ProxyConfig, Url, from_config_map, arrays_from, endpoints_for, get_powermax_arrays,
}
use csm_metrics_powermax.Pmax.Connect.{Environment, get_connected_arrays, connect_all, read_arrays}
use csm_metrics_powermax.Pmax.Connected.{accepts, get_connected_arrays_lem, in_use}
use csm_metrics_powermax.Service.Observability.{
  record_obs_metrics, record_obs_metrics_lem, statuses,
}

abbrev primary : Url
primary = record { text = codes "https://a:8443"; host = codes "a:8443" }

abbrev secondary : Url
secondary = record { text = codes "https://b:8443"; host = codes "b:8443" }

abbrev proxy : ProxyConfig
proxy = record {
  storage_arrays =
      record {
        storage_array_identifier = array1;
        primary_endpoint = primary;
        secondary_endpoint = secondary;
      }
      ∷ [];
  management_servers =
      record {
        endpoint = secondary;
        skip_certificate_validation = true;
        credentials_user_name = codes "user";
        credentials_password = codes "password";
        username = [];
        password = [];
      }
      ∷ [];
}

-- A client can be made of the secondary endpoint only.
abbrev environment : Environment ℕ
environment = record {
  use_secret = [];
  read_config = λ path. ok proxy;
  read_config_from_secret = err (codes "no secret");
  new_client_with_args = λ url name b c version. elim (text_eq url secondary.text) [
    | true ↦ ok client1
    | false ↦ err (codes "refused")
  ];
}

get_connected_arrays_example :
    get_or_default []
      (lookup array1 (connect_all environment (arrays_from from_config_map proxy) []))
    ≡ map (in_use environment) (
        filter
          (accepts environment)
          (endpoints_for from_config_map proxy.management_servers array1 proxy.storage_arrays))
unfolding text_eq get_connected_arrays read_arrays arrays_from get_powermax_arrays
get_connected_arrays_example =
    get_connected_arrays_lem environment (codes "/etc/reverseproxy/config.yaml") array1
      from_config_map proxy (connect_all environment (arrays_from from_config_map proxy) []) refl
      refl

-- The first array has an active endpoint, the second has none, and the export failed.
record_obs_metrics_example :
    statuses (record_obs_metrics whole service 3 (some (codes "timeout")))
    ≡ (array1, codes "failure") ∷ (array2, codes "error") ∷ []
record_obs_metrics_example =
    record_obs_metrics_lem whole service 3 (some (codes "timeout")) clients refl refl

abbrev persistent_volume : Text → PersistentVolume
persistent_volume driver = record {
  name = codes "pv1";
  creation_timestamp = codes "2024";
  phase = codes "Bound";
  storage_class_name = codes "gold";
  capacity = codes "8Gi";
  csi = some (record {
    csi_driver = driver;
    csi_volume_handle = codes "csi-0001-00A";
    volume_attributes = [];
  });
  claim_ref = some (record {
    claim_namespace = codes "default";
    claim_name = codes "claim";
    claim_uid = codes "uid";
  });
}

abbrev items : List PersistentVolume
items = persistent_volume (codes "csi-powermax") ∷ persistent_volume (codes "other") ∷ []

abbrev drivers : List Text
drivers = codes "csi-powermax" ∷ []

abbrev infos : List VolumeInfo
infos =
    record (volume (codes "pv1") (codes "csi-0001-00A") []) {
      srp = [];
      service_level = [];
      sym_id = [];
      protocol = codes "N/A";
    }
    ∷ []

abbrev gold : StorageClass
gold = record {
  name = codes "gold";
  provisioner = codes "csi-powermax";
  parameters = (codes "StorageArrayId", array1) ∷ [];
}

abbrev plain : StorageClass
plain = record { name = codes "plain"; provisioner = codes "csi-powermax"; parameters = [] }

abbrev array_ids : List StorageArrayId
array_ids = record { id = array1; is_default = false; driver_names = drivers } ∷ []

-- The first clientset cannot be made, the second could.
abbrev broken : Cluster ℕ ℕ
broken = record { in_cluster_config = ok 1; new_config = λ c. err (codes "no clientset") }

abbrev working : Cluster ℕ ℕ
working = record { in_cluster_config = ok 1; new_config = λ c. ok c }

abbrev list_items : ℕ → Result (List ℕ)
list_items c = ok (c ∷ [])

get_after_failure_example :
    get_all list_items (broken ∷ working ∷ working ∷ []) absent
    ≡ answers (err (codes "no clientset")) ∷ panics ∷ panics ∷ []
get_after_failure_example =
    get_after_failure list_items broken (working ∷ working ∷ []) 1 (codes "no clientset") refl refl
