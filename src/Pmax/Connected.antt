-- ===== src/Pmax/Connected.antt =====
-- What `GetPowerMaxArrays` of internal/k8spmax/k8spmax.go returns, array by array.
use csm_metrics_powermax.Prelude.{
  Text, Result, ok, err, codes, text_eq, List, [], ◌∷◌, ◌++◌, Bool, true, false, ◌≡◌, refl, arith,
  if◌then◌else◌, get_or_default, filter_map, append-nil, append_assoc, sym, ap, ◌∙◌, Bool-cases,
  inl, inr, Option-cases, subst, map, filter, Option, none, some, text_eq_iff,
}
use csm_metrics_powermax.Prelude.Dict.{
  Dict, lookup, append_at, lookup-append_at, member, keys, IsNodup, insert-IsNodup,
}
use csm_metrics_powermax.Metric.Types.{PowerMaxArray, PowerMaxClient}
use csm_metrics_powermax.Pmax.Arrays.{
  ProxyConfig, CredentialSource, from_config_map, from_secret, arrays_from, get_powermax_arrays,
  get_powermax_arrays_from_secret, endpoints_for, arrays_from-lookup, arrays_from-IsNodup,
}
use csm_metrics_powermax.Pmax.Connect.{
  Environment, application_name, authenticate, default_u4p_version, connect, connect_list,
  connect_all, read_arrays, get_connected_arrays,
}

module _ {F : Type 0} where
  -- The arrays that a map holds for a key, over all entries with it, as far as they connect.
  abbrev pub connected_for :
      Environment F → Text → Dict (List (PowerMaxArray F)) → List (PowerMaxArray F)
  connected_for env id [] = []
  connected_for env id ((k, arrays) ∷ rest) =
      (if text_eq k id then filter_map (connect env) arrays else []) ++ connected_for env id rest

  lookup-connect_list :
      (env : Environment F) (k id : Text) (arrays : List (PowerMaxArray F))
      (m : Dict (List (PowerMaxArray F)))
      → get_or_default [] (lookup id (connect_list env k arrays m))
        ≡ get_or_default [] (lookup id m)
          ++ (if text_eq k id then filter_map (connect env) arrays else [])
  unfolding connect_list
  lookup-connect_list env k id [] m = elim (Bool-cases (text_eq k id)) [
    | inl e ↦ rw (e) (sym (append-nil _))
    | inr e ↦ rw (e) (sym (append-nil _))
  ]
  lookup-connect_list env k id (array ∷ rest) m = elim (Option-cases (connect env array)) [
    | inl e ↦ rw (connect_list, filter_map, e) (lookup-connect_list env k id rest m)
    | inr (c, e) ↦
        rw (connect_list, filter_map, e)
          (lookup-connect_list env k id rest (append_at k (c ∷ []) m)
            ∙ ap (λ xs. xs ++ (if text_eq k id then filter_map (connect env) rest else []))
                (lookup-append_at k id (c ∷ []) m)
            ∙ append_assoc (get_or_default [] (lookup id m)) (if text_eq k id then c ∷ [] else [])
                (if text_eq k id then filter_map (connect env) rest else [])
            ∙ ap (λ xs. get_or_default [] (lookup id m) ++ xs)
                (one (text_eq k id) c (filter_map (connect env) rest)))
  ]
    where
      one :
          (b : Bool) (c : PowerMaxArray F) (xs : List (PowerMaxArray F))
          → (if b then c ∷ [] else []) ++ (if b then xs else []) ≡ (if b then c ∷ xs else [])
      one true c xs = refl
      one false c xs = refl

  lookup-connect_all :
      (env : Environment F) (id : Text) (arrays m : Dict (List (PowerMaxArray F)))
      → get_or_default [] (lookup id (connect_all env arrays m))
        ≡ get_or_default [] (lookup id m) ++ connected_for env id arrays
  unfolding connect_all
  lookup-connect_all env id [] m = sym (append-nil _)
  lookup-connect_all env id ((k, xs) ∷ rest) m =
      lookup-connect_all env id rest (connect_list env k xs m)
      ∙ ap (λ ys. ys ++ connected_for env id rest) (lookup-connect_list env k id xs m)
      ∙ append_assoc (get_or_default [] (lookup id m))
          (if text_eq k id then filter_map (connect env) xs else []) (connected_for env id rest)

  connect_list-IsNodup :
      (env : Environment F) (id : Text) (arrays : List (PowerMaxArray F))
      (m : Dict (List (PowerMaxArray F)))
      → IsNodup (keys m)
      → IsNodup (keys (connect_list env id arrays m))
  unfolding connect_list
  connect_list-IsNodup env id [] m h = h
  connect_list-IsNodup env id (array ∷ rest) m h = elim (Option-cases (connect env array)) [
    | inl e ↦ rw (connect_list, e) (connect_list-IsNodup env id rest m h)
    | inr (c, e) ↦
        rw (connect_list, e)
          (connect_list-IsNodup env id rest (append_at id (c ∷ []) m)
            (insert-IsNodup id (get_or_default [] (lookup id m) ++ c ∷ []) m h))
  ]

  pub connect_all-IsNodup :
      (env : Environment F) (arrays m : Dict (List (PowerMaxArray F)))
      → IsNodup (keys m)
      → IsNodup (keys (connect_all env arrays m))
  unfolding connect_all
  connect_all-IsNodup env [] m h = h
  connect_all-IsNodup env ((id, xs) ∷ rest) m h =
      connect_all-IsNodup env rest (connect_list env id xs m) (connect_list-IsNodup env id xs m h)

  connected_for_other :
      (env : Environment F) (id : Text) (m : Dict (List (PowerMaxArray F)))
      → member id (keys m) ≡ false
      → connected_for env id m ≡ []
  unfolding member
  connected_for_other env id [] h = refl
  connected_for_other env id ((k, xs) ∷ rest) h = ground (arith, connected_for_other env id rest)

  connected_for-lookup :
      (env : Environment F) (id : Text) (m : Dict (List (PowerMaxArray F)))
      → IsNodup (keys m)
      → connected_for env id m ≡ filter_map (connect env) (get_or_default [] (lookup id m))
  unfolding lookup
  connected_for-lookup env id [] h = refl
  connected_for-lookup env id ((k, xs) ∷ rest) (h, g) = elim (Bool-cases (text_eq k id)) [
    | inl e ↦
        rw
          (
            e,
            connected_for_other env id rest
                (subst (λ j. member j (keys rest) ≡ false) ((text_eq_iff k id).0 e) h),
          )
          (append-nil _)
    | inr e ↦ rw (e) (connected_for-lookup env id rest g)
  ]

  -- The configuration that is read, with where its credentials stand.
  abbrev pub config_of : Environment F → Text → Result (CredentialSource × ProxyConfig)
  config_of env file_path =
      if text_eq env.use_secret (codes "true")
      then elim env.read_config_from_secret [ err e ↦ err e | ok c ↦ ok (from_secret, c) ]
      else elim (env.read_config file_path) [ err e ↦ err e | ok c ↦ ok (from_config_map, c) ]

  pub get_connected_arrays_ok :
      (env : Environment F) (file_path : Text) (source : CredentialSource) (c : ProxyConfig)
      → config_of env file_path ≡ ok (source, c)
      → get_connected_arrays env false file_path ≡ ok (connect_all env (arrays_from source c) [])
  unfolding get_connected_arrays read_arrays get_powermax_arrays get_powermax_arrays_from_secret
  get_connected_arrays_ok env file_path source c h = ground arith

  -- Can a client be made for the endpoint, and does the array accept its credentials?
  abbrev pub accepts : Environment F → PowerMaxArray F → Bool
  accepts env array =
      elim (env.new_client_with_args array.endpoint application_name true false []) [
        | err _ ↦ false
        | ok c ↦
            elim (c.authenticate (record {
              endpoint = array.endpoint;
              username = array.username;
              password = array.password;
              version = default_u4p_version;
            })) [ some _ ↦ false | none ↦ true ]
      ]

  -- The client that is made for the endpoint.
  abbrev pub client_of : Environment F → PowerMaxArray F → Option (PowerMaxClient F)
  client_of env array =
      elim (env.new_client_with_args array.endpoint application_name true false []) [
        | err _ ↦ none
        | ok c ↦ some c
      ]

  -- The endpoint as it is used.
  abbrev pub in_use : Environment F → PowerMaxArray F → PowerMaxArray F
  in_use env array = record array { is_active = true; client = client_of env array }

  connect-in_use :
      (env : Environment F) (array : PowerMaxArray F)
      → connect env array ≡ (if accepts env array then some (in_use env array) else none)
  unfolding connect authenticate
  connect-in_use env array = ground arith

  connect_each :
      (env : Environment F) (arrays : List (PowerMaxArray F))
      → filter_map (connect env) arrays ≡ map (in_use env) (filter (accepts env) arrays)
  connect_each env [] = refl
  connect_each env (array ∷ rest) = elim (Bool-cases (accepts env array)) [
    | inl e ↦ rw (filter_map, connect-in_use env array, e, connect_each env rest) refl
    | inr e ↦ rw (filter_map, connect-in_use env array, e) (connect_each env rest)
  ]

  -- Once a configuration is read, the map that is returned holds for each array those endpoints of
  -- the configuration for which a client can be made and authenticates, each as active and with its
  -- client, in the configuration's order, and nothing else.
  pub get_connected_arrays_lem :
      (env : Environment F) (file_path id : Text) (source : CredentialSource) (c : ProxyConfig)
      (m : Dict (List (PowerMaxArray F)))
      → config_of env file_path ≡ ok (source, c)
      → get_connected_arrays env false file_path ≡ ok m
      → get_or_default [] (lookup id m)
        ≡ map
            (in_use env)
            (filter (accepts env) (endpoints_for source c.management_servers id c.storage_arrays))
  unfolding get_connected_arrays read_arrays get_powermax_arrays get_powermax_arrays_from_secret
      lookup
  get_connected_arrays_lem env file_path id source c m h k =
      ap (λ x. get_or_default [] (lookup id x)) found
      ∙ lookup-connect_all env id (arrays_from source c) []
      ∙ connected_for-lookup env id (arrays_from source c) (arrays_from-IsNodup F source c)
      ∙ ap (λ xs. filter_map (connect env) xs) (arrays_from-lookup source c id)
      ∙ connect_each env (endpoints_for source c.management_servers id c.storage_arrays)
    where
      found : m ≡ connect_all env (arrays_from source c) []
      found = ground arith
