-- ===== src/Service/Observability.antt =====
-- `recordObsMetrics` of internal/service/service.go and internal/service/observability_metrics.go:
-- the self-metrics of each array.
use csm_metrics_powermax.Prelude.{
  Text, Error, codes, ◌≡◌, refl, List, [], ◌∷◌, Option, none, some, Bool, true, false, not, arith,
  if◌then◌else◌, length, any, flat_map, map, get_or_default,
}
use csm_metrics_powermax.Prelude.Dict.{Dict}
use csm_metrics_powermax.Prelude.Float.{Float64}
use csm_metrics_powermax.Prelude.Int.{pos}
use csm_metrics_powermax.Metric.Types.{PowerMaxArray}
use csm_metrics_powermax.Service.Clients.{PowerMaxService, get_powermax_clients}

-- What the instrumenter is told of an array.
pub data Sample (F : Type 0) : Type 0 where
  connectivity : Text → Bool → Sample F
  collection_rate : Text → F → Sample F
  processing_latency : Text → F → Sample F
  export_success : Text → Text → Sample F

unfoldable pub status_of : Bool → Option Error → Text
status_of active export_err =
    if not active
    then codes "error"
    else elim export_err [ none ↦ codes "success" | some _ ↦ codes "failure" ]

module _ {F : Type 0} where
  -- The loop that looks for an active endpoint.
  unfoldable pub is_active : List (PowerMaxArray F) → Bool
  is_active [] = false
  is_active (a ∷ arrays) = let rest = is_active arrays in if a.is_active then true else rest

  unfoldable pub array_samples :
      Float64 F → F → Option Error → Text × List (PowerMaxArray F) → List (Sample F)
  unfolding is_active status_of
  array_samples fl elapsed export_err (array_id, arrays) =
      connectivity array_id (is_active arrays)
      ∷ collection_rate array_id (fl.of_int (pos (length arrays)))
      ∷ processing_latency array_id elapsed
      ∷ export_success array_id (status_of (is_active arrays) export_err)
      ∷ []

  unfoldable pub record_obs_metrics :
      {Recorder Finder : Type 0}
      → Float64 F
      → PowerMaxService F Recorder Finder
      → F
      → Option Error
      → List (Sample F)
  record_obs_metrics fl s elapsed export_err =
      if s.obs_instrumenter
      then flat_map (array_samples fl elapsed export_err)
          (get_or_default [] (get_powermax_clients s))
      else []

-- The arrays and statuses of the `export_success` samples.
abbrev pub statuses : {F : Type 0} → List (Sample F) → List (Text × Text)
statuses [] = []
statuses (export_success array_id status ∷ rest) = (array_id, status) ∷ statuses rest
statuses (_ ∷ rest) = statuses rest

-- What an array should be reported as: the outcome of the export if one of its endpoints is active.
abbrev pub outcome : {F : Type 0} → Option Error → Text × List (PowerMaxArray F) → Text × Text
outcome export_err (array_id, arrays) = (
  array_id,
  if any (λ a. a.is_active) arrays
      then elim export_err [ none ↦ codes "success" | some _ ↦ codes "failure" ]
      else codes "error",
)

is_active-any :
    {F : Type 0} (arrays : List (PowerMaxArray F))
    → is_active arrays ≡ any (λ a. a.is_active) arrays
unfolding is_active
is_active-any [] = refl
is_active-any (a ∷ arrays) = ground (arith, is_active-any arrays)

statuses-array_samples :
    {F : Type 0} (fl : Float64 F) (elapsed : F) (e : Option Error)
    (clients : Dict (List (PowerMaxArray F)))
    → statuses (flat_map (array_samples fl elapsed e) clients) ≡ map (outcome e) clients
unfolding array_samples status_of
statuses-array_samples fl elapsed e [] = refl
statuses-array_samples fl elapsed e ((id, arrays) ∷ rest) =
    ground (arith, statuses-array_samples fl elapsed e rest, is_active-any arrays)

-- With an instrumenter, the export statuses that one export records are one for each known array, in
-- the order of the map: "error" if none of its endpoints is active, whatever the export returned, else
-- "failure" or "success" by the returned error, which is the same for all of them.
pub record_obs_metrics_lem :
    {F Recorder Finder : Type 0} (fl : Float64 F) (s : PowerMaxService F Recorder Finder)
    (elapsed : F) (e : Option Error) (clients : Dict (List (PowerMaxArray F)))
    → s.obs_instrumenter ≡ true
    → s.powermax_clients ≡ some clients
    → statuses (record_obs_metrics fl s elapsed e) ≡ map (outcome e) clients
unfolding record_obs_metrics get_powermax_clients
record_obs_metrics_lem fl s elapsed e clients h k =
    rw (h, k) (statuses-array_samples fl elapsed e clients)
