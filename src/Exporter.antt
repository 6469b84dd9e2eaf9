-- ===== src/Exporter.antt =====
-- opentelemetry/exporters/opentelemetry_collector_exporter.go: `OtlCollectorExporter`. What the
-- OpenTelemetry SDK answers is a parameter.
use csm_metrics_powermax.Prelude.{Text, Error, Result, ok, err, Option, none, some, Bool}

-- How a call of the SDK ends: with its error, or by a panic.
pub data Ended : Type 0 where
  ended : Option Error → Ended
  panicked : Ended

-- The connection's credentials, which may be nil, or none at all.
pub data Security (Credentials : Type 0) : Type 0 where
  insecure : Security Credentials
  tls : Option Credentials → Security Credentials

pub record Options (Credentials : Type 0) : Type 0 where
  pub endpoint : Text
  pub security : Security Credentials

-- `otlpmetricgrpc.New`, the provider with its periodic reader, and both `Shutdown` methods. A nil
-- pointer is `none`.
pub record Sdk (Credentials Client Provider : Type 0) : Type 0 where
  pub new : Options Credentials → Result Client
  pub new_meter_provider : Client → Provider
  pub shutdown_client : Option Client → Ended
  pub shutdown_provider : Option Provider → Ended

pub record OtlCollectorExporter (Client Provider : Type 0) : Type 0 where
  pub exporter : Option Client
  pub controller : Option Provider
  pub records_failures : Bool

-- `SetExportFailureRecorder`; whether the callback is nil is what `Export` asks.
unfoldable pub set_export_failure_recorder :
    {Client Provider : Type 0}
    → Bool
    → OtlCollectorExporter Client Provider
    → OtlCollectorExporter Client Provider
set_export_failure_recorder given x = record x { records_failures = given }

module _ {Credentials Client Provider : Type 0} (sdk : Sdk Credentials Client Provider) where
  -- `initOTLPExporter`
  unfoldable pub init_otlp_exporter : Options Credentials → Result (Client × Provider)
  init_otlp_exporter opts = elim (sdk.new opts) [
    | err e ↦ err e
    | ok client ↦ ok (client, sdk.new_meter_provider client)
  ]

  -- The error, and the exporter afterwards.
  unfoldable pub init_exporter :
      Options Credentials
      → OtlCollectorExporter Client Provider
      → Option Error × OtlCollectorExporter Client Provider
  init_exporter opts x = elim (init_otlp_exporter opts) [
    | err e ↦ (some e, x)
    | ok (client, provider) ↦
        (none, record x { exporter = some client; controller = some provider })
  ]

  unfoldable pub stop_exporter : OtlCollectorExporter Client Provider → Ended
  stop_exporter x = elim (sdk.shutdown_client x.exporter) [
    | panicked ↦ panicked
    | ended e ↦ elim e [ some e' ↦ ended (some e') | none ↦ sdk.shutdown_provider x.controller ]
  ]
