-- ===== src/Entrypoint/Startup.antt =====
-- The two goroutines that `Run` (internal/entrypoint/run.go) starts before its loop: what each of them
-- sends on the error channel.
pub mod Failure
pub mod Channel
use csm_metrics_powermax.Prelude.{
  Text, Error, Result, ok, err, codes, text_eq, List, [], ◌∷◌, ◌++◌, Option, none, some, true, ◌≡◌,
  refl, arith, if◌then◌else◌, Bool, inl, inr, Bool-cases, Result-cases, ap,
}
use csm_metrics_powermax.Entrypoint.Config.{Config}
use csm_metrics_powermax.Entrypoint.Tickers.{IsValid}
use csm_metrics_powermax.K8s.Api.{Cluster, init_leader_election}
use csm_metrics_powermax.Entrypoint.Loop.{
  Action, Event, Loop, Outcome, continues, returns, panics, from_err_ch, deferred, rounds, run,
  start, step, stop_exporter,
}
use csm_metrics_powermax.Exporter.{
  OtlCollectorExporter, Options, Sdk, Security, set_export_failure_recorder, insecure, tls,
  init_exporter, init_otlp_exporter,
}

abbrev pub default_end_point : Text
default_end_point = codes "karavi-metrics-powermax"

abbrev pub default_name_space : Text
default_name_space = codes "karavi"

abbrev pub or_default : Text → Text → Text
or_default d value = if text_eq value [] then d else value

-- The endpoint and the namespace of the election; `env` is `os.Getenv`.
unfoldable pub election_names : (Text → Text) → Text × Text
election_names env = (
  or_default default_end_point (env (codes "POWERMAX_METRICS_ENDPOINT")),
  or_default default_name_space (env (codes "POWERMAX_METRICS_NAMESPACE")),
)

-- What the first goroutine sends, once `InitLeaderElection` has returned, and the elector that the
-- loop asks.
unfoldable pub start_election :
    {C Configuration Elector : Type 0}
    → (Text → Text)
    → Cluster C Configuration
    → (C → Text → Text → Result Elector)
    → Option Elector
    → List (Option Error) × Option Elector
start_election env cluster new_leader_elector elector =
    let (endpoint, namespace) = election_names env in
    let (e, elected) = init_leader_election cluster new_leader_elector endpoint namespace elector in
    (e ∷ [], elected)

module _ {Credentials Client Provider : Type 0} (sdk : Sdk Credentials Client Provider) where
  -- What the second goroutine sends, and the exporter afterwards. `load` is
  -- `credentials.NewClientTLSFromFile`; its error is sent, and the start goes on without credentials.
  -- `is_otlp` says whether the exporter is an `OtlCollectorExporter`, whose failures are recorded.
  unfoldable pub start_exporter :
      (Text → Result Credentials)
      → Config
      → Bool
      → OtlCollectorExporter Client Provider
      → List (Option Error) × OtlCollectorExporter Client Provider
  start_exporter load config is_otlp x =
      let options : Security Credentials → Options Credentials =
        λ s. record { endpoint = config.collector_address; security = s } in
      let x : OtlCollectorExporter Client Provider =
        if is_otlp then set_export_failure_recorder true x else x in
      if text_eq config.collector_cert_path []
      then (let (e, y) = init_exporter sdk (options insecure) x in (e ∷ [], y))
      else elim (load config.collector_cert_path) [
        | err cannot_load ↦
            let (e, y) = init_exporter sdk (options (tls none)) x in (some cannot_load ∷ e ∷ [], y)
        | ok creds ↦ let (e, y) = init_exporter sdk (options (tls (some creds))) x in (e ∷ [], y)
      ]
