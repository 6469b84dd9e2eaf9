-- ===== src/Entrypoint/Probe.antt =====
-- `validatePowerMaxArrays` and `recordPowerMaxExportFailure` of internal/entrypoint/run.go, and the
-- exporter of opentelemetry/exporters/opentelemetry_collector_exporter.go that calls the second.
use csm_metrics_powermax.Prelude.{
  Error, codes, List, [], ◌∷◌, map, Option, none, some, true, false, if◌then◌else◌, get_or_default,
}
use csm_metrics_powermax.Prelude.Dict.{Dict}
use csm_metrics_powermax.Metric.Types.{PowerMaxArray}
use csm_metrics_powermax.Pmax.Connect.{authenticate}
use csm_metrics_powermax.Service.Clients.{PowerMaxService, get_powermax_clients}
use csm_metrics_powermax.Service.Observability.{Sample, export_success}

module _ {F : Type 0} where
  -- The loop's own copy of an array after its body; `none` is the panic of a call on a nil client.
  unfoldable pub probe : PowerMaxArray F → Option (PowerMaxArray F)
  probe array = elim array.client [
    | none ↦ none
    | some c ↦ elim (authenticate c array) [
      | some _ ↦ some (record array { is_active = false })
      | none ↦ some (record array { is_active = true })
    ]
  ]

  unfoldable pub probe_list : List (PowerMaxArray F) → Option (List (PowerMaxArray F))
  probe_list [] = some []
  probe_list (a ∷ rest) =
      let others = probe_list rest in
      elim (probe a) [
        | none ↦ none
        | some copy ↦ elim others [ none ↦ none | some copies ↦ some (copy ∷ copies) ]
      ]

  -- The copies of all arrays, which end with the rounds that made them, and the map afterwards: a
  -- `range` over a slice of structs writes to its variable, not to the slice.
  unfoldable pub validate_powermax_arrays :
      Dict (List (PowerMaxArray F))
      → Option (List (List (PowerMaxArray F)) × Dict (List (PowerMaxArray F)))
  validate_powermax_arrays clients = elim (probe_all clients) [
    | none ↦ none
    | some copies ↦ some (copies, clients)
  ]
    where
      probe_all : Dict (List (PowerMaxArray F)) → Option (List (List (PowerMaxArray F)))
      probe_all [] = some []
      probe_all ((id, arrays) ∷ rest) =
          let others = probe_all rest in
          elim (probe_list arrays) [
            | none ↦ none
            | some copies ↦ elim others [ none ↦ none | some all ↦ some (copies ∷ all) ]
          ]

  unfoldable pub record_powermax_export_failure :
      {Recorder Finder : Type 0} → PowerMaxService F Recorder Finder → List (Sample F)
  record_powermax_export_failure s =
      if s.obs_instrumenter
      then map (λ e. export_success e.0 (codes "failure"))
          (get_or_default [] (get_powermax_clients s))
      else []

  -- `recordingExporter.Export`: the error of the wrapped exporter and what the recorder was told.
  unfoldable pub recording_export :
      Option Error → Option (List (Sample F)) → Option Error × List (Sample F)
  recording_export none recorder = (none, [])
  recording_export (some e) none = (some e, [])
  recording_export (some e) (some samples) = (some e, samples)
