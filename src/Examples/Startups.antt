-- ===== src/Examples/Startups.antt =====
-- The exporter's start with a certificate that cannot be loaded.
use csm_metrics_powermax.Prelude.{
  Error, List, Option, Result, Text, [], codes, err, false, none, refl, some, text_eq, true, ℕ,
  ◌++◌, ◌∷◌, ◌≡◌,
}
use csm_metrics_powermax.Entrypoint.Config.{Config, validate_config}
use csm_metrics_powermax.Entrypoint.Loop.{
  Callees, panics, from_err_ch, performance_tick, rounds, run, start, step, update_tickers,
  update_capacity, update_performance, update_topology, stop_exporter,
}
use csm_metrics_powermax.Entrypoint.Startup.{start_exporter}
use csm_metrics_powermax.Entrypoint.Startup.Channel.{
  Startup, StartupReach, StartupStep, at_start, election_sends, exporter_sends, loop_takes,
  starting, startup_error_returns, then_step,
}
use csm_metrics_powermax.Entrypoint.Startup.Failure.{failed_start_ends_run}
use csm_metrics_powermax.Examples.Loops.{config}
use csm_metrics_powermax.Exporter
use csm_metrics_powermax.Exporter.{
  Ended, OtlCollectorExporter, Sdk, init_exporter, init_otlp_exporter,
}

abbrev sdk : Sdk ℕ ℕ ℕ
sdk = record {
  new = λ opts. err (codes "no credentials");
  new_meter_provider = λ client. client;
  shutdown_client = λ client. Ended.panicked;
  shutdown_provider = λ provider. Ended.ended none;
}

abbrev exporter : OtlCollectorExporter ℕ ℕ
exporter = record { exporter = none; controller = none; records_failures = false }

abbrev with_certificate : Config
with_certificate = record config { collector_cert_path = codes "/etc/ssl/certs/cert.crt" }

abbrev load : Text → Result ℕ
load path = err (codes "no such file")

-- The deferred call meets the exporter as its failed start leaves it.
abbrev callees : Callees
callees = record {
  call_panics = λ before a. false;
  stop = Exporter.stop_exporter sdk (start_exporter sdk load with_certificate true exporter).1;
}

failed_start_ends_run_example :
    run callees (some with_certificate) (
      (with_certificate, performance_tick)
      ∷ (with_certificate, from_err_ch (some (codes "no such file")))
      ∷ [])
    ≡ ([] ++ stop_exporter ∷ [], panics)
unfolding validate_config start rounds step update_tickers update_capacity update_performance
    update_topology start_exporter init_exporter init_otlp_exporter text_eq
failed_start_ends_run_example =
    failed_start_ends_run sdk load callees with_certificate with_certificate true exporter
      ((with_certificate, performance_tick) ∷ []) [] (codes "no such file")
      (some (codes "no credentials") ∷ []) refl (λ before a. refl) refl refl refl refl refl refl
      (refl, tt)

-- The goroutine of the exporter is first, and the loop returns by its error.
abbrev sends : List (Option Error)
sends = some (codes "no such file") ∷ some (codes "no credentials") ∷ []

abbrev blocked : Startup
blocked = record {
  election = [];
  exporter = some (codes "no credentials") ∷ [];
  slot = some none;
  taken = some (codes "no such file") ∷ [];
  has_returned = true;
}

schedule : StartupReach (starting (none ∷ []) sends) blocked
schedule =
    then_step
      (then_step
        (then_step at_start (
          exporter_sends (some (codes "no such file")) (some (codes "no credentials") ∷ []) refl
            refl refl))
        (loop_takes (some (codes "no such file")) refl refl refl))
      (election_sends none [] refl refl refl)

no_step : (t : Startup) → ¬ StartupStep blocked t
no_step t (election_sends o rest p q e) = cc
no_step t (exporter_sends o rest p q e) = cc
no_step t (loop_takes o p q e) = cc

startup_error_returns_example : blocked.has_returned ≡ true
startup_error_returns_example = startup_error_returns (none ∷ []) sends refl schedule no_step
