-- ===== src/Main/Arrays.antt =====
-- `updatePowerMaxArrays` of cmd/metrics-powermax/main.go.
use csm_metrics_powermax.Prelude.{
  filter, map, Text, text_eq, text_eq_iff, ok, err, List, [], ◌∷◌, ◌++◌, some, Bool, false, ◌≡◌,
  refl, ap, sym, ◌∙◌, Result-cases, inl, inr, arith, get_or_default, if◌then◌else◌, append-nil,
  append_assoc,
}
use csm_metrics_powermax.Prelude.Dict.{
  Dict, append_at, lookup, lookup-append_at, IsNodup, keys, member, member-lookup,
}
use csm_metrics_powermax.Metric.Types.{PowerMaxArray}
use csm_metrics_powermax.Pmax.Arrays.{CredentialSource, ProxyConfig, arrays_from, endpoints_for}
use csm_metrics_powermax.Pmax.Connect.{Environment, connect_all, get_connected_arrays}
use csm_metrics_powermax.Pmax.Connected.{
  accepts, in_use, config_of, connect_all-IsNodup, get_connected_arrays_lem,
  get_connected_arrays_ok,
}
use csm_metrics_powermax.Service.Clients.{
  PowerMaxService, get_powermax_clients, set_powermax_clients,
}

module _ {F : Type 0} where
  -- The copy of the map that the loop builds.
  unfoldable pub copy_arrays :
      Dict (List (PowerMaxArray F)) → Dict (List (PowerMaxArray F)) → Dict (List (PowerMaxArray F))
  copy_arrays [] out = out
  copy_arrays ((id, arrays) ∷ rest) out = copy_arrays rest (append_at id arrays out)

  unfoldable pub update_powermax_arrays :
      {Recorder Finder : Type 0}
      → Environment F
      → Bool
      → Text
      → PowerMaxService F Recorder Finder
      → PowerMaxService F Recorder Finder
  update_powermax_arrays env k8s_utils_is_nil c_path s =
      elim (get_connected_arrays env k8s_utils_is_nil c_path) [
        | err _ ↦ s
        | ok arrays ↦ set_powermax_clients s (some (copy_arrays arrays []))
      ]

  pub update_powermax_arrays_limit :
      {Recorder Finder : Type 0} (env : Environment F) (is_nil : Bool) (c_path : Text)
      (s : PowerMaxService F Recorder Finder)
      → (update_powermax_arrays env is_nil c_path s).max_powermax_connections
        ≡ s.max_powermax_connections
  unfolding update_powermax_arrays set_powermax_clients
  update_powermax_arrays_limit env is_nil c_path s =
      elim (Result-cases (get_connected_arrays env is_nil c_path)) [
        | inl (x, e) ↦ rw (update_powermax_arrays, e) refl
        | inr (m, e) ↦ rw (update_powermax_arrays, e) refl
      ]

  one_entry :
      (id k : Text) (xs : List (PowerMaxArray F)) (rest : Dict (List (PowerMaxArray F)))
      → member k (keys rest) ≡ false
      → (if text_eq k id then xs else []) ++ get_or_default [] (lookup id rest)
        ≡ get_or_default [] (lookup id ((k, xs) ∷ rest))
  unfolding lookup
  one_entry id k xs rest h = ground (arith, text_eq_iff k id, member-lookup k rest, append-nil xs)

  lookup-copy_arrays :
      (id : Text) (m out : Dict (List (PowerMaxArray F)))
      → IsNodup (keys m)
      → get_or_default [] (lookup id (copy_arrays m out))
        ≡ get_or_default [] (lookup id out) ++ get_or_default [] (lookup id m)
  unfolding copy_arrays
  lookup-copy_arrays id [] out h = unfold lookup in (sym (append-nil _))
  lookup-copy_arrays id ((k, xs) ∷ rest) out (h, g) =
      lookup-copy_arrays id rest (append_at k xs out) g
      ∙ ap (λ ys. ys ++ get_or_default [] (lookup id rest)) (lookup-append_at k id xs out)
      ∙ append_assoc (get_or_default [] (lookup id out)) (if text_eq k id then xs else [])
          (get_or_default [] (lookup id rest))
      ∙ ap (λ ys. get_or_default [] (lookup id out) ++ ys) (one_entry id k xs rest h)

  -- After an update from a configuration that can be read, the service holds for each array those of
  -- its endpoints in the configuration that connect and authenticate, active and with their client,
  -- in the configuration's order.
  pub update_powermax_arrays_lem :
      {Recorder Finder : Type 0} (env : Environment F) (c_path id : Text)
      (source : CredentialSource) (c : ProxyConfig) (s : PowerMaxService F Recorder Finder)
      → config_of env c_path ≡ ok (source, c)
      → get_or_default [] (
          lookup id
            (get_or_default [] (get_powermax_clients (update_powermax_arrays env false c_path s))))
        ≡ map
            (in_use env)
            (filter (accepts env) (endpoints_for source c.management_servers id c.storage_arrays))
  unfolding update_powermax_arrays get_powermax_clients set_powermax_clients
  update_powermax_arrays_lem env c_path id source c s h =
      let k = get_connected_arrays_ok env c_path source c h in
      rw (update_powermax_arrays, k)
        (unfold lookup in
          (lookup-copy_arrays id (connect_all env (arrays_from source c) []) []
              (connect_all-IsNodup env (arrays_from source c) [] tt)
            ∙ get_connected_arrays_lem env c_path id source c
                (connect_all env (arrays_from source c) []) h k))
