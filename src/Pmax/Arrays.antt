-- ===== src/Pmax/Arrays.antt =====
-- `getPowerMaxArrays`, `getPowerMaxArraysFromSecret` and `getManagementServer` of
-- internal/k8spmax/k8spmax.go. A proxy configuration is what its accessors answer.
use csm_metrics_powermax.Prelude.{
  Text, text_eq, List, [], ◌∷◌, ◌++◌, Option, none, some, Bool, true, false, not, ◌≡◌,
  if◌then◌else◌, get_or_default, append-nil, append_assoc, sym, ap, ◌∙◌,
}
use csm_metrics_powermax.Prelude.Dict.{
  Dict, lookup, append_at, lookup-append_at, IsNodup, keys, insert-IsNodup,
}
use csm_metrics_powermax.Metric.Types.{PowerMaxArray}

-- A `url.URL`: what `String` gives, and its host.
pub record Url : Type 0 where
  pub text : Text
  pub host : Text

pub record StorageArray : Type 0 where
  pub storage_array_identifier : Text
  pub primary_endpoint : Url
  pub secondary_endpoint : Url

-- The credentials of the secret that a ConfigMap names, and those that stand in a secret.
pub record ManagementServer : Type 0 where
  pub endpoint : Url
  pub skip_certificate_validation : Bool
  pub credentials_user_name : Text
  pub credentials_password : Text
  pub username : Text
  pub password : Text

pub record ProxyConfig : Type 0 where
  pub storage_arrays : List StorageArray
  pub management_servers : List ManagementServer

unfoldable pub get_management_server : Text → List ManagementServer → Option ManagementServer
get_management_server url [] = none
get_management_server url (server ∷ rest) =
    let found = get_management_server url rest in
    if text_eq url server.endpoint.text then some server else found

-- Where a server keeps the user and the password.
pub data CredentialSource : Type 0 where
  from_config_map : CredentialSource
  from_secret : CredentialSource

abbrev pub user_of : CredentialSource → ManagementServer → Text
user_of from_config_map server = server.credentials_user_name
user_of from_secret server = server.username

abbrev pub password_of : CredentialSource → ManagementServer → Text
password_of from_config_map server = server.credentials_password
password_of from_secret server = server.password

module _ {F : Type 0} where
  -- One endpoint of a storage array, with no client yet.
  unfoldable pub array_of :
      CredentialSource → List ManagementServer → Text → Bool → Text → PowerMaxArray F
  array_of source servers id is_primary endpoint =
      let array : PowerMaxArray F = record {
        endpoint = endpoint;
        storage_array_id = id;
        username = [];
        password = [];
        insecure = false;
        is_primary = is_primary;
        is_active = false;
        client = none;
      } in
      elim (get_management_server endpoint servers) [
        | none ↦ array
        | some server ↦ record array {
          insecure = server.skip_certificate_validation;
          username = user_of source server;
          password = password_of source server;
        }
      ]

  abbrev pub endpoints_of :
      CredentialSource → List ManagementServer → StorageArray → List (PowerMaxArray F)
  endpoints_of source servers a =
      array_of source servers a.storage_array_identifier true a.primary_endpoint.text
      ∷ (if not (text_eq a.secondary_endpoint.host [])
          then array_of source servers a.storage_array_identifier false a.secondary_endpoint.text
            ∷ []
          else [])

  -- One round of the loop over the storage arrays.
  abbrev pub add_storage_array :
      CredentialSource
      → List ManagementServer
      → StorageArray
      → Dict (List (PowerMaxArray F))
      → Dict (List (PowerMaxArray F))
  add_storage_array source servers a array_map =
      append_at a.storage_array_identifier (endpoints_of source servers a) array_map

  unfoldable pub add_storage_arrays :
      CredentialSource
      → List ManagementServer
      → List StorageArray
      → Dict (List (PowerMaxArray F))
      → Dict (List (PowerMaxArray F))
  add_storage_arrays source servers [] array_map = array_map
  add_storage_arrays source servers (a ∷ rest) array_map =
      add_storage_arrays source servers rest (add_storage_array source servers a array_map)

  unfoldable pub arrays_from : CredentialSource → ProxyConfig → Dict (List (PowerMaxArray F))
  arrays_from source c = add_storage_arrays source c.management_servers c.storage_arrays []

  unfoldable pub get_powermax_arrays : ProxyConfig → Dict (List (PowerMaxArray F))
  get_powermax_arrays c = arrays_from from_config_map c

  unfoldable pub get_powermax_arrays_from_secret : ProxyConfig → Dict (List (PowerMaxArray F))
  get_powermax_arrays_from_secret c = arrays_from from_secret c

  -- The endpoints that a list of storage arrays gives to an array.
  abbrev pub endpoints_for :
      CredentialSource → List ManagementServer → Text → List StorageArray → List (PowerMaxArray F)
  endpoints_for source servers id [] = []
  endpoints_for source servers id (a ∷ rest) =
      (if text_eq a.storage_array_identifier id then endpoints_of source servers a else [])
      ++ endpoints_for source servers id rest

  lookup-add_storage_arrays :
      (source : CredentialSource) (servers : List ManagementServer) (id : Text)
      (arrays : List StorageArray) (m : Dict (List (PowerMaxArray F)))
      → get_or_default [] (lookup id (add_storage_arrays source servers arrays m))
        ≡ get_or_default [] (lookup id m) ++ endpoints_for source servers id arrays
  unfolding add_storage_arrays
  lookup-add_storage_arrays source servers id [] m = sym (append-nil _)
  lookup-add_storage_arrays source servers id (a ∷ rest) m =
      lookup-add_storage_arrays source servers id rest (add_storage_array source servers a m)
      ∙ ap (λ xs. xs ++ endpoints_for source servers id rest)
          (lookup-append_at a.storage_array_identifier id (endpoints_of source servers a) m)
      ∙ append_assoc (get_or_default [] (lookup id m))
          (if text_eq a.storage_array_identifier id then endpoints_of source servers a else [])
          (endpoints_for source servers id rest)

  -- What the map holds for an array are the endpoints of the storage arrays with its identifier, in the
  -- configuration's order, the primary of each before its secondary, with the credentials of the
  -- first management server that has the endpoint's address.
  pub arrays_from-lookup :
      (source : CredentialSource) (c : ProxyConfig) (id : Text)
      → get_or_default [] (lookup id (arrays_from source c))
        ≡ endpoints_for source c.management_servers id c.storage_arrays
  unfolding arrays_from lookup
  arrays_from-lookup source c id =
      lookup-add_storage_arrays source c.management_servers id c.storage_arrays []

  add_storage_arrays-IsNodup :
      (source : CredentialSource) (servers : List ManagementServer) (arrays : List StorageArray)
      (m : Dict (List (PowerMaxArray F)))
      → IsNodup (keys m)
      → IsNodup (keys (add_storage_arrays source servers arrays m))
  unfolding add_storage_arrays
  add_storage_arrays-IsNodup source servers [] m h = h
  add_storage_arrays-IsNodup source servers (a ∷ rest) m h =
      add_storage_arrays-IsNodup source servers rest (add_storage_array source servers a m) (
        insert-IsNodup a.storage_array_identifier
          (get_or_default [] (lookup a.storage_array_identifier m) ++ endpoints_of source servers a)
          m h)

pub arrays_from-IsNodup :
    (F : Type 0) (source : CredentialSource) (c : ProxyConfig)
    → IsNodup (keys (arrays_from {F = F} source c))
unfolding arrays_from
arrays_from-IsNodup F source c =
    add_storage_arrays-IsNodup source c.management_servers c.storage_arrays [] tt
