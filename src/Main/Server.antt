-- ===== src/Main/Server.antt =====
-- `startMetricsServer` of cmd/metrics-powermax/main.go: the settings that the server of the program's
-- own metrics is made with. What `srv.Start` does in its goroutine is the server library's.
use csm_metrics_powermax.Prelude.{
  Text, Error, codes, [], ◌++◌, Option, none, some, true, if◌then◌else◌, get_or_default,
}
use csm_metrics_powermax.Main.Logging.{equal_fold}
use csm_metrics_powermax.Main.Settings.{validate_tls_files}
use csm_metrics_powermax.Service.Clients.{PowerMaxService}

abbrev pub csi_obs_metrics_enabled_key : Text
csi_obs_metrics_enabled_key = codes "X_CSI_METRICS_ENABLED"

abbrev pub csi_obs_metrics_port_key : Text
csi_obs_metrics_port_key = codes "X_CSI_METRICS_PORT"

abbrev pub csi_obs_metrics_scheme_key : Text
csi_obs_metrics_scheme_key = codes "X_CSI_METRICS_SCHEME"

abbrev pub csi_obs_metrics_cert_key : Text
csi_obs_metrics_cert_key = codes "X_CSI_METRICS_TLS_CERT_FILE"

abbrev pub csi_obs_metrics_key_key : Text
csi_obs_metrics_key_key = codes "X_CSI_METRICS_TLS_KEY_FILE"

-- What viper holds: `none` is a key that is not set.
abbrev pub Settings : Type 0
Settings = Text → Option Text

-- `viper.GetString`, and the same after `viper.SetDefault`.
abbrev pub get_string : Settings → Text → Text
get_string settings key = get_or_default [] (settings key)

abbrev pub get_string_or : Text → Settings → Text → Text
get_string_or value settings key = get_or_default value (settings key)

-- The files of the machine, by what opening and closing one answers, and the verb %q of fmt.
pub record Files : Type 0 where
  pub quote : Text → Text
  pub open_file : Text → Option Error
  pub close_file : Text → Option Error

-- `csmserver.Config`, without the registry.
pub record ServerConfig : Type 0 where
  pub port : Text
  pub cert_file : Text
  pub key_file : Text

-- What a function of `main` ends in: a value, or the end of the process by `Fatal`.
pub data Startup (A : Type 0) : Type 0 where
  started : A → Startup A
  fatal : Text → Error → Startup A

abbrev pub server_config : Settings → Text → Text → ServerConfig
server_config settings cert_file key_file = record {
  port = codes ":" ++ get_string_or (codes "8443") settings csi_obs_metrics_port_key;
  cert_file = cert_file;
  key_file = key_file;
}

unfoldable pub start_metrics_server :
    {F Recorder Finder : Type 0}
    → Files
    → Settings
    → PowerMaxService F Recorder Finder
    → Startup (PowerMaxService F Recorder Finder × ServerConfig)
start_metrics_server files settings s =
    let s = record s { obs_instrumenter = true } in
    let cert = get_string_or (codes "/etc/metrics-tls/tls.crt") settings csi_obs_metrics_cert_key in
    let key = get_string_or (codes "/etc/metrics-tls/tls.key") settings csi_obs_metrics_key_key in
    if equal_fold (get_string_or (codes "http") settings csi_obs_metrics_scheme_key) (codes "https")
    then elim (validate_tls_files files.quote files.open_file files.close_file cert key) [
      | some e ↦
          fatal (codes "observability metrics server failed to start: invalid TLS configuration") e
      | none ↦ started (s, server_config settings cert key)
    ]
    else started (s, server_config settings [] [])
