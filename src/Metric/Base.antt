-- ===== src/Metric/Base.antt =====
-- internal/service/metric/base_metrics.go: the base of the three collectors.
use csm_metrics_powermax.Prelude.{
  Text, Error, Result, ok, err, codes, List, [], ◌∷◌, ◌++◌, Option, none, some, if◌then◌else◌,
  filter, get_or_default, ◌≡◌, refl, arith, Option-cases, inl, inr,
}
use csm_metrics_powermax.Prelude.Dict.{Dict, lookup}
use csm_metrics_powermax.Prelude.Int.{ℤ, pos, eqb_ℤ}
use csm_metrics_powermax.Metric.Types.{PowerMaxArray, PowerMaxClient}

-- A collector of some type, which changes the world `W` when it collects.
pub record Collector (W : Type 0) : Type 0 where
  pub type_name : Text
  pub collect : W → Option Error × W

-- `none` is a nil interface or a nil map; of the recorder and the finder only the presence counts.
pub record BaseMetrics (F W Recorder Finder : Type 0) : Type 0 where
  pub collector : Option (Collector W)
  pub volume_finder : Option Finder
  pub powermax_clients : Option (Dict (List (PowerMaxArray F)))
  pub metrics_recorder : Option Recorder
  pub max_powermax_connections : ℤ

abbrev pub no_client : Text → Error
no_client array_id = codes "unable to find active gopowermax client for array " ++ array_id

module _ {F : Type 0} where
  -- The loop over the endpoints of one array.
  unfoldable pub first_active : List (PowerMaxArray F) → Option (Option (PowerMaxClient F))
  first_active [] = none
  first_active (array ∷ arrays) =
      let rest = first_active arrays in if array.is_active then some array.client else rest

  unfoldable pub get_powermax_client :
      Option (Dict (List (PowerMaxArray F))) → Text → Result (Option (PowerMaxClient F))
  unfolding first_active
  get_powermax_client none array_id = err (codes "PowerMaxClients is empty")
  get_powermax_client (some clients) array_id = elim (lookup array_id clients) [
    | none ↦ err (no_client array_id)
    | some arrays ↦ elim (first_active arrays) [
      | none ↦ err (no_client array_id)
      | some client ↦ ok client
    ]
  ]

  first_active_lem :
      (array_id : Text) (arrays : List (PowerMaxArray F))
      → (elim (first_active arrays) [ none ↦ err (no_client array_id) | some client ↦ ok client ])
        ≡ (elim (filter (λ a. a.is_active) arrays) [
          | [] ↦ err (no_client array_id)
          | a ∷ _ ↦ ok a.client
        ])
  unfolding first_active
  first_active_lem array_id [] = refl
  first_active_lem array_id (a ∷ arrays) = ground (arith, first_active_lem array_id arrays)

  -- The client that answers for an array is that of the first of its active endpoints; an array that
  -- is not in the map, or none of whose endpoints is active, gives an error that names it.
  pub get_powermax_client_lem :
      (clients : Dict (List (PowerMaxArray F))) (array_id : Text)
      → get_powermax_client (some clients) array_id
        ≡ (elim (filter (λ a. a.is_active) (get_or_default [] (lookup array_id clients))) [
          | [] ↦ err (no_client array_id)
          | a ∷ _ ↦ ok a.client
        ])
  unfolding get_powermax_client
  get_powermax_client_lem clients array_id = elim (Option-cases (lookup array_id clients)) [
    | inl e ↦ rw (get_powermax_client, e) refl
    | inr (arrays, e) ↦ rw (get_powermax_client, e) (first_active_lem array_id arrays)
  ]

module _ {F W Recorder Finder : Type 0} where
  unfoldable pub export_metrics : BaseMetrics F W Recorder Finder → W → Option Error × W
  export_metrics m w = elim m.collector [
    | none ↦ (some (codes "no MetricsCollector provided"), w)
    | some c ↦ elim m.metrics_recorder [
      | none ↦ (some (codes "no MetricsRecorder provided for " ++ c.type_name), w)
      | some _ ↦ elim m.powermax_clients [
        | none ↦ (some (codes "no PowerMaxClients provided for " ++ c.type_name), w)
        | some _ ↦
            if eqb_ℤ m.max_powermax_connections (pos 0)
            then (some (codes "no MaxPowerMaxConnections provided for " ++ c.type_name), w)
            else c.collect w
      ]
    ]
  ]
