-- ===== src/Metric/Capacity/Collect.antt =====
-- `Collect` and the goroutines of `gatherCapacityMetrics`, as jobs of the worker pool.
pub mod Records
pub mod Schedules
pub mod Labels
pub mod Observed
pub mod Totals
use mathlib.Core.List.Perm
use csm_metrics_powermax.Prelude.{
  ℕ, Text, Error, Result, ok, err, ◌≡◌, ◌≢◌, refl, List, [], ◌∷◌, Option, none, some, All, flat_map,
}
use csm_metrics_powermax.Prelude.Dict.{Dict, keys}
use csm_metrics_powermax.Prelude.Float.{Float64}
use csm_metrics_powermax.Prelude.Int.{pos}
use csm_metrics_powermax.K8s.Volumes.{VolumeInfo}
use csm_metrics_powermax.Metric.Base.{get_powermax_client}
use csm_metrics_powermax.Metric.Fanout.{Phase, Pool, Reach, expected}
use csm_metrics_powermax.Metric.Fanout.Invariant.{gather_closed, expected-eq}
use csm_metrics_powermax.Metric.Types.{PowerMaxArray, VolumeCapacityMetricsRecord}
use csm_metrics_powermax.Metric.Capacity.Arrays.{collect_array_capacity_metrics}
use csm_metrics_powermax.Metric.Capacity.Cumulate.{cumulate_stream, no_metrics}
use csm_metrics_powermax.Metric.Capacity.Group.{group_volumes}
use csm_metrics_powermax.Metric.Capacity.Push.{NumericCall, capacity_calls, push_capacity_metrics}

module _ {F : Type 0} (fl : Float64 F) where
  -- The record that is sent if the listing names no array at all.
  abbrev pub empty_capacity : VolumeCapacityMetricsRecord F
  empty_capacity = record {
    array_id = [];
    volume_id = [];
    srp_id = [];
    storage_group_id = [];
    storage_class = [];
    driver = [];
    persistent_volume_name = [];
    persistent_volume_status = [];
    persistent_volume_claim_name = [];
    namespace = [];
    total = fl.of_int (pos 0);
    used = fl.of_int (pos 0);
    used_percent = fl.of_int (pos 0);
  }

  -- The goroutine of one array. An active endpoint has a client (Pmax.Connect); a nil client would
  -- be a fault, and is read here as an array without records.
  unfoldable pub capacity_work :
      Option (Dict (List (PowerMaxArray F)))
      → Text × List VolumeInfo
      → List (VolumeCapacityMetricsRecord F)
  capacity_work clients (array_id, volumes) = elim (get_powermax_client clients array_id) [
    | err _ ↦ []
    | ok client ↦ elim client [
      | none ↦ []
      | some c ↦ collect_array_capacity_metrics fl c array_id volumes
    ]
  ]

  -- The states of the collection for a listing.
  abbrev pub CapacityReach :
      ℕ
      → Option (Dict (List (PowerMaxArray F)))
      → List VolumeInfo
      → Pool (Text × List VolumeInfo) (VolumeCapacityMetricsRecord F)
      → Type 0
  CapacityReach limit clients pvs s =
      Reach limit (capacity_work clients) empty_capacity (group_volumes [] pvs) s

  -- `Collect`, under the schedule that serves the arrays one by one.
  unfoldable pub collect_capacity :
      Result (List VolumeInfo)
      → Option (Dict (List (PowerMaxArray F)))
      → (NumericCall F → Option Error)
      → Result (List Text)
  collect_capacity (err e) clients recorder = err e
  collect_capacity (ok pvs) clients recorder = ok (
      push_capacity_metrics fl recorder
        (expected 1 (capacity_work clients) empty_capacity (group_volumes [] pvs)))

  idle :
      (clients : Option (Dict (List (PowerMaxArray F)))) (a : Text) (vs : List VolumeInfo)
      {e : Error}
      → get_powermax_client clients a ≡ err e
      → capacity_work clients (a, vs) ≡ []
  unfolding capacity_work
  idle clients a vs p = rw (p, capacity_work)

  no_work :
      (clients : Option (Dict (List (PowerMaxArray F)))) (jobs : List (Text × List VolumeInfo))
      → All (λ k. (e : Error) × (get_powermax_client clients k ≡ err e)) (keys jobs)
      → flat_map (capacity_work clients) jobs ≡ []
  no_work clients [] h = refl
  no_work clients ((a, vs) ∷ jobs) ((e, p), h) = rw (idle clients a vs p, no_work clients jobs h)

  -- If volumes name arrays and none of these has an active client, then nothing is recorded in any
  -- schedule, not even the empty record.
  pub no_client_no_export :
      (limit : ℕ) (clients : Option (Dict (List (PowerMaxArray F)))) (pvs : List VolumeInfo)
      {s : Pool (Text × List VolumeInfo) (VolumeCapacityMetricsRecord F)}
      → group_volumes [] pvs ≢ []
      → All
          (λ k. (e : Error) × (get_powermax_client clients k ≡ err e))
          (keys (group_volumes [] pvs))
      → CapacityReach limit clients pvs s
      → s.phase ≡ Phase.closed
      → capacity_calls fl (cumulate_stream fl (no_metrics fl) s.sent) ≡ []
  unfolding capacity_calls cumulate_stream
  no_client_no_export limit clients pvs {s} some_array h r c =
      let jobs = group_volumes [] pvs in
      let none_sent : s.sent ≡ [] = Perm.eq-nil (
        rw
          (
            ← expected-eq limit (capacity_work clients) empty_capacity jobs some_array,
            no_work clients jobs h,
          )
          at (gather_closed limit (capacity_work clients) empty_capacity jobs r c)) in
      rw none_sent
