-- ===== src/Pmax/Connect.antt =====
-- `GetPowerMaxArrays`, `Authenticate` and `InitK8sUtils` of internal/k8spmax/k8spmax.go. The readers of
-- the configuration and the client's constructor are parameters.
use csm_metrics_powermax.Prelude.{
  Text, Error, Result, ok, err, codes, text_eq, List, [], ◌∷◌, Option, none, some, Bool, true,
  false, if◌then◌else◌,
}
use csm_metrics_powermax.Prelude.Dict.{Dict, append_at}
use csm_metrics_powermax.Metric.Types.{PowerMaxArray, PowerMaxClient}
use csm_metrics_powermax.Pmax.Arrays.{
  ProxyConfig, get_powermax_arrays, get_powermax_arrays_from_secret,
}

abbrev pub default_u4p_version : Text
default_u4p_version = codes "100"

abbrev pub application_name : Text
application_name = codes "CSM Observability for Dell EMC PowerMax"

abbrev pub default_namespace : Text
default_namespace = codes "karavi"

unfoldable pub authenticate : {F : Type 0} → PowerMaxClient F → PowerMaxArray F → Option Error
authenticate client array = client.authenticate (record {
  endpoint = array.endpoint;
  username = array.username;
  password = array.password;
  version = default_u4p_version;
})

-- `InitK8sUtils`: the answer, the global variable afterwards, and whether the informer was started.
-- `init` is the utilities' constructor, which gives a pointer and an error.
unfoldable init_k8s_utils :
    {Utils : Type 0}
    → (Text → Option Utils × Option Error)
    → Text
    → Option Utils
    → Result (Option Utils) × Option Utils × Bool
init_k8s_utils init namespace (some utils) = (ok (some utils), some utils, false)
init_k8s_utils init namespace none =
    let (utils, e) = init (if text_eq namespace [] then default_namespace else namespace) in
    elim e [ some x ↦ (err x, utils, false) | none ↦ (ok utils, utils, true) ]

-- The environment, and the library calls that it answers: `ReadConfig` and `ReadConfigFromSecret` with
-- the `ProxyConfig` made of the result, and `NewClientWithArgs`.
pub record Environment (F : Type 0) : Type 0 where
  pub use_secret : Text
  pub read_config : Text → Result ProxyConfig
  pub read_config_from_secret : Result ProxyConfig
  pub new_client_with_args : Text → Text → Bool → Bool → Text → Result (PowerMaxClient F)

module _ {F : Type 0} where
  -- The body of the inner loop: the array with its client, unless a step fails.
  unfoldable pub connect : Environment F → PowerMaxArray F → Option (PowerMaxArray F)
  connect env array =
      elim (env.new_client_with_args array.endpoint application_name true false []) [
        | err _ ↦ none
        | ok c ↦ elim (authenticate c array) [
          | some _ ↦ none
          | none ↦ some (record array { is_active = true; client = some c })
        ]
      ]

  unfoldable pub connect_list :
      Environment F
      → Text
      → List (PowerMaxArray F)
      → Dict (List (PowerMaxArray F))
      → Dict (List (PowerMaxArray F))
  connect_list env id [] array_map = array_map
  connect_list env id (array ∷ rest) array_map =
      connect_list env id rest (elim (connect env array) [
        | none ↦ array_map
        | some connected ↦ append_at id (connected ∷ []) array_map
      ])

  unfoldable pub connect_all :
      Environment F
      → Dict (List (PowerMaxArray F))
      → Dict (List (PowerMaxArray F))
      → Dict (List (PowerMaxArray F))
  connect_all env [] array_map = array_map
  connect_all env ((id, arrays) ∷ rest) array_map =
      connect_all env rest (connect_list env id arrays array_map)

  -- The tests before the loops, with the proxy configuration that they lead to. `k8s_utils_is_nil` says
  -- whether the interface is nil.
  unfoldable pub read_arrays : Environment F → Bool → Text → Result (Dict (List (PowerMaxArray F)))
  read_arrays env k8s_utils_is_nil file_path =
      if k8s_utils_is_nil
      then err (codes "k8sUtils is nil")
      else (if text_eq env.use_secret (codes "true")
          then elim env.read_config_from_secret [
            | err e ↦ err e
            | ok c ↦ ok (get_powermax_arrays_from_secret c)
          ]
          else elim (env.read_config file_path) [
            | err e ↦ err e
            | ok c ↦ ok (get_powermax_arrays c)
          ])

  -- `GetPowerMaxArrays`
  unfoldable pub get_connected_arrays :
      Environment F → Bool → Text → Result (Dict (List (PowerMaxArray F)))
  get_connected_arrays env k8s_utils_is_nil file_path =
      elim (read_arrays env k8s_utils_is_nil file_path) [
        | err e ↦ err e
        | ok arrays ↦ ok (connect_all env arrays [])
      ]
