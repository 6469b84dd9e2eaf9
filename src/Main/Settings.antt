-- ===== src/Main/Settings.antt =====
-- `updateMaxConnections`, `updateMetricsEnabled`, `updateProvisionerNames`, `updateCollectorAddress` and
-- the paths chosen in `configure` of cmd/metrics-powermax/main.go. A setting is what
-- `viper.GetString` gives: the empty text if it is not set.
use csm_metrics_powermax.Prelude.{
  Text, Error, ok, err, codes, text_eq, List, [], ◌∷◌, map, Option, none, some, Bool, not, arith,
  if◌then◌else◌, ◌++◌, ◌≡◌, ◌↔◌, Result-cases, inl, inr,
}
use csm_metrics_powermax.Prelude.Int.{ℤ, pos, ltb_ℤ, ◌<ℤ◌}
use csm_metrics_powermax.Prelude.Split.{split}
use csm_metrics_powermax.Entrypoint.Config.{Config}
use csm_metrics_powermax.K8s.StorageClasses.{StorageArrayId}
use csm_metrics_powermax.Service.Clients.{PowerMaxService, default_max_powermax_connections}
use csm_metrics_powermax.Main.Atoi.{atoi}

abbrev pub is_empty : Text → Bool
is_empty s = text_eq s []

unfoldable pub max_connections_of : Text → ℤ
max_connections_of value =
    if not (is_empty value)
    then elim (atoi value) [
      | err _ ↦ default_max_powermax_connections
      | ok n ↦ if ltb_ℤ (pos 0) n then n else default_max_powermax_connections
    ]
    else default_max_powermax_connections

unfoldable pub update_max_connections :
    {F Recorder Finder : Type 0}
    → Text
    → PowerMaxService F Recorder Finder
    → PowerMaxService F Recorder Finder
update_max_connections value s = record s { max_powermax_connections = max_connections_of value }

-- Whatever the setting is, the number of connections is at least one after the update.
pub update_max_connections-IsPositive :
    {F Recorder Finder : Type 0} (value : Text) (s : PowerMaxService F Recorder Finder)
    → pos 0 <ℤ (update_max_connections value s).max_powermax_connections
unfolding update_max_connections max_connections_of
update_max_connections-IsPositive value s = elim (Result-cases (atoi value)) [
  | inl (e, h) ↦ ground arith
  | inr (n, h) ↦ ground arith
]

abbrev pub is_enabled : Text → Bool
is_enabled value = not (text_eq value (codes "false"))

unfoldable pub update_metrics_enabled : Text → Text → Text → Config → Config
update_metrics_enabled capacity performance topology config = record config {
  capacity_metrics_enabled = is_enabled capacity;
  performance_metrics_enabled = is_enabled performance;
  topology_metrics_enabled = is_enabled topology;
}

-- The driver names of the volume finder and the arrays of the storage class finder.
unfoldable pub update_provisioner_names :
    Text → List Text × List StorageArrayId → List Text × List StorageArrayId
update_provisioner_names value (driver_names, arrays) =
    if is_empty value
    then (driver_names, arrays)
    else (let provisioner_names = split 44 value in
        let renamed : StorageArrayId → StorageArrayId =
          λ a. record a { driver_names = provisioner_names } in
        (provisioner_names, map renamed arrays))

-- The address of the configuration and that of the exporter.
unfoldable pub update_collector_address : Text → Config × Text → Config × Text
update_collector_address value (config, exporter_address) =
    if is_empty value
    then (config, exporter_address)
    else (record config { collector_address = value }, value)

abbrev pub default_reverse_proxy_config_file : Text
default_reverse_proxy_config_file = codes "/etc/reverseproxy/config.yaml"

abbrev pub default_secret_config_file : Text
default_secret_config_file = codes "/etc/powermax/config"

abbrev pub default_collector_cert_path : Text
default_collector_cert_path = codes "/etc/ssl/certs/cert.crt"

-- `cPath`, by `X_CSI_REVPROXY_USE_SECRET`.
unfoldable pub config_path : Text → Text
config_path use_secret =
    if text_eq use_secret (codes "true")
    then default_secret_config_file
    else default_reverse_proxy_config_file

-- The file that `TLS_ENABLED` and `COLLECTOR_CERT_PATH` ask for; `trim_space` is `strings.TrimSpace`.
unfoldable pub collector_cert_path : (Text → Text) → Text → Text → Text
collector_cert_path trim_space tls path =
    if text_eq tls (codes "true")
    then (if is_empty (trim_space path) then default_collector_cert_path else path)
    else []

-- `validateTLSFiles`, by what opening and closing a file answers; `quote` is the verb %q of fmt.
unfoldable pub validate_tls_files :
    (Text → Text) → (Text → Option Error) → (Text → Option Error) → Text → Text → Option Error
validate_tls_files quote open_file close_file cert_file key_file = check (cert_file ∷ key_file ∷ [])
  where
    failed : Text → Text → Error → Error
    failed what path e = what ++ (quote path ++ (codes ": " ++ e))

    check : List Text → Option Error
    check [] = none
    check (path ∷ rest) =
        let others = check rest in
        elim (open_file path) [
          | some e ↦ some (failed (codes "cannot open TLS file ") path e)
          | none ↦ elim (close_file path) [
            | some e ↦ some (failed (codes "cannot close TLS file ") path e)
            | none ↦ others
          ]
        ]

-- The files are accepted just if both of them can be opened and closed.
pub validate_tls_files_lem :
    (quote : Text → Text) (open_file close_file : Text → Option Error) (cert_file key_file : Text)
    → (validate_tls_files quote open_file close_file cert_file key_file ≡ none) ↔ (
        (open_file cert_file ≡ none)
        × (close_file cert_file ≡ none)
        × (open_file key_file ≡ none)
        × (close_file key_file ≡ none))
unfolding validate_tls_files
validate_tls_files_lem quote open_file close_file cert_file key_file = ground arith
