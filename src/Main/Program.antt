-- ===== src/Main/Program.antt =====
-- `configure`, `onChangeUpdate` and `main` of cmd/metrics-powermax/main.go.
use csm_metrics_powermax.Prelude.{
  Text, Error, Result, codes, List, [], ◌∷◌, Option, none, some, Bool, false, if◌then◌else◌,
  get_or_default,
}
use csm_metrics_powermax.Prelude.Int.{pos}
use csm_metrics_powermax.Entrypoint.Config.{Config}
use csm_metrics_powermax.Entrypoint.Loop.{Action, Callees, Event, Outcome, run}
use csm_metrics_powermax.K8s.StorageClasses.{StorageArrayId}
use csm_metrics_powermax.Pmax.Connect.{Environment}
use csm_metrics_powermax.Service.Clients.{PowerMaxService}
use csm_metrics_powermax.Main.Arrays.{update_powermax_arrays}
use csm_metrics_powermax.Main.Intervals.{update_tick_intervals}
use csm_metrics_powermax.Main.Logging.{Logging, equal_fold, update_logging_settings}
use csm_metrics_powermax.Main.Server.{
  Files, Settings, Startup, started, fatal, get_string, start_metrics_server,
  csi_obs_metrics_enabled_key,
}
use csm_metrics_powermax.Main.Settings.{
  collector_cert_path, config_path, update_collector_address, update_max_connections,
  update_metrics_enabled, update_provisioner_names,
}

-- What the outside is at one moment: the settings, the cluster and its arrays, and whether the package
-- k8spmax has its utilities.
pub record Moment (F : Type 0) : Type 0 where
  pub settings : Settings
  pub environment : Environment F
  pub k8s_utils_is_nil : Bool

-- The objects that `configure` makes and shares. `exporter_address` is the field `CollectorAddr` of the
-- exporter, which nothing reads: the endpoint in use is the one that `Run` reads when it starts. The names that the volume finder looks for stand in
-- the service, which holds the same finder.
pub record Program (F Level : Type 0) : Type 0 where
  pub logging : Logging Level
  pub config : Config
  pub exporter_address : Text
  pub service : PowerMaxService F Unit (List Text)
  pub storage_arrays : List StorageArrayId
  pub c_path : Text

-- The callbacks: the file of the settings, the file of the reverse proxy or its secret, and the secret
-- with the credentials of an array has changed.
pub data Change (F : Type 0) : Type 0 where
  settings_changed : Moment F → Change F
  config_changed : Moment F → Change F
  secret_changed : Moment F → Change F

module _ {F Level : Type 0} where
  unfoldable pub update_powermax_connection : Moment F → Program F Level → Program F Level
  update_powermax_connection m p =
      let s = update_powermax_arrays m.environment m.k8s_utils_is_nil p.c_path p.service in
      let (names, arrays) =
        update_provisioner_names (get_string m.settings (codes "PROVISIONER_NAMES"))
          (get_or_default [] s.volume_finder, p.storage_arrays) in
      record p { service = record s { volume_finder = some names }; storage_arrays = arrays }

  unfoldable pub on_change_update : Moment F → Program F Level → Program F Level
  on_change_update m p =
      let p = update_powermax_connection m p in
      let config =
        update_metrics_enabled (get_string m.settings (codes "POWERMAX_CAPACITY_METRICS_ENABLED"))
          (get_string m.settings (codes "POWERMAX_PERFORMANCE_METRICS_ENABLED"))
          (get_string m.settings (codes "POWERMAX_TOPOLOGY_METRICS_ENABLED")) p.config in
      let (config, address) =
        update_collector_address (get_string m.settings (codes "COLLECTOR_ADDR"))
          (config, p.exporter_address) in
      let config =
        update_tick_intervals (get_string m.settings (codes "POWERMAX_CAPACITY_POLL_FREQUENCY"))
          (get_string m.settings (codes "POWERMAX_PERFORMANCE_POLL_FREQUENCY"))
          (get_string m.settings (codes "POWERMAX_TOPOLOGY_METRICS_POLL_FREQUENCY")) config in
      record p {
        config = config;
        exporter_address = address;
        service =
            update_max_connections (get_string m.settings (codes "POWERMAX_MAX_CONCURRENT_QUERIES"))
              p.service;
      }

  -- `UpdatePowerMaxArraysOnSecretChanged`, the callback of the secret's informer.
  unfoldable pub update_powermax_arrays_on_secret_changed :
      Moment F → Program F Level → Program F Level
  update_powermax_arrays_on_secret_changed m p = record p {
    service = update_powermax_arrays m.environment m.k8s_utils_is_nil p.c_path p.service;
  }

-- `env` is `os.Getenv`, `trim_space` is `strings.TrimSpace`.
module _ {F Level : Type 0} (parse_level : Text → Result Level) (info_level : Level)
    (trim_space env : Text → Text) where
  unfoldable pub update_logging : Moment F → Logging Level
  update_logging m =
      update_logging_settings parse_level info_level (get_string m.settings (codes "LOG_FORMAT"))
        (get_string m.settings (codes "LOG_LEVEL"))

  -- The objects before the first update.
  abbrev pub fresh : Moment F → Program F Level
  fresh m = record {
    logging = update_logging m;
    config = record {
      capacity_tick_interval = pos 0;
      performance_tick_interval = pos 0;
      topology_metrics_tick_interval = pos 0;
      liveness_probe_tick_interval = pos 0;
      capacity_metrics_enabled = false;
      performance_metrics_enabled = false;
      topology_metrics_enabled = false;
      collector_address = [];
      collector_cert_path =
          collector_cert_path trim_space (env (codes "TLS_ENABLED"))
            (env (codes "COLLECTOR_CERT_PATH"));
    };
    exporter_address = [];
    service = record {
      metrics_recorder = some tt;
      obs_instrumenter = false;
      max_powermax_connections = pos 0;
      powermax_clients = none;
      volume_finder = some [];
    };
    storage_arrays = [];
    c_path = config_path (env (codes "X_CSI_REVPROXY_USE_SECRET"));
  }

  -- `init_k8s_utils` is the error of `InitK8sUtils`, `m` what the outside is at the first update.
  unfoldable pub configure : Option Error → Moment F → Startup (Program F Level)
  configure init_k8s_utils m = elim init_k8s_utils [
    | some e ↦ fatal (codes "cannot initialize k8sUtils") e
    | none ↦ started (on_change_update m (fresh m))
  ]

  unfoldable pub apply : Change F → Program F Level → Program F Level
  apply (settings_changed m) p = record p { logging = update_logging m }
  apply (config_changed m) p = on_change_update m p
  apply (secret_changed m) p = update_powermax_arrays_on_secret_changed m p

  unfoldable pub apply_all : List (Change F) → Program F Level → Program F Level
  apply_all [] p = p
  apply_all (c ∷ cs) p = apply_all cs (apply c p)

  -- The rounds of the loop, each with the configuration that it sees after the callbacks before it.
  unfoldable pub seen : Program F Level → List (List (Change F) × Event) → List (Config × Event)
  seen p [] = []
  seen p ((changes, event) ∷ rest) = let p = apply_all changes p in (p.config, event) ∷ seen p rest

  -- `main`: what `Run` does and how it ends. An error that it returns ends the process.
  unfoldable pub main :
      Callees
      → Option Error
      → Files
      → Moment F
      → List (List (Change F) × Event)
      → Startup (List Action × Outcome)
  main callees init_k8s_utils files m rest = elim (configure init_k8s_utils m) [
    | fatal what e ↦ fatal what e
    | started p ↦
        let ran = run callees (some p.config) (seen p rest) in
        if equal_fold (get_string m.settings csi_obs_metrics_enabled_key) (codes "true")
        then elim (start_metrics_server files m.settings p.service) [
          | fatal what e ↦ fatal what e
          | started _ ↦ started ran
        ]
        else started ran
  ]
