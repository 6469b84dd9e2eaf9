-- ===== src/Examples/Pools.antt =====
-- A pool of two arrays, the first with two records and the second with none.
use mathlib.Core.List.{Perm}
use csm_metrics_powermax.Prelude.{ℕ, List, [], ◌∷◌, ◌≡◌, refl, arith, true, false, ◌≤◌, ◌==◌}
use csm_metrics_powermax.Metric.Fanout.{
  Phase, Pool, Step, Reach, start, spawn, send, finish, release, wait, close, here, next,
}
use csm_metrics_powermax.Metric.Fanout.Invariant.{gather_in_flight, gather_closed}
use csm_metrics_powermax.Metric.Fanout.Refinement.{Moves, gather_refines, promised, view}
use csm_metrics_powermax.Metric.Fanout.Progress.{gather_finishes}

abbrev jobs : List ℕ
jobs = 1 ∷ 2 ∷ []

abbrev work : ℕ → List ℕ
work j = elim (j == 1) [ true ↦ 10 ∷ 11 ∷ [] | false ↦ [] ]

abbrev State : Type 0
State = Pool ℕ ℕ

abbrev after_spawn : State
after_spawn = record (start jobs) {
  exported = true;
  pending = 2 ∷ [];
  running = (10 ∷ 11 ∷ []) ∷ [];
}

spawned : Step 1 work 0 (start jobs) after_spawn
spawned = spawn 1 (2 ∷ []) refl refl (omega arith) refl

reached : Reach 1 work 0 jobs after_spawn
reached = next here spawned

-- One query at a time, with two arrays waiting.
gather_in_flight_example : 1 ≤ 1
gather_in_flight_example = gather_in_flight 1 work 0 jobs reached

gather_finishes_example :
    (t : State) × Reach 1 work 0 jobs t × (t.phase ≡ Phase.closed) × Perm t.sent (10 ∷ 11 ∷ [])
gather_finishes_example = gather_finishes 1 work 0 (omega arith) jobs reached

-- A whole schedule for one array with one record.
abbrev one : List ℕ
one = 1 ∷ []

abbrev single : ℕ → List ℕ
single j = 7 ∷ []

abbrev closed_pool : State
closed_pool = record {
  phase = Phase.closed;
  exported = true;
  pending = [];
  running = [];
  releasing = 0;
  sent = 7 ∷ [];
}

schedule : Reach 1 single 0 one closed_pool
schedule =
    next
      (next
        (next
          (next
            (next (next here (spawn 1 [] refl refl (omega arith) refl)) (send 7 [] [] [] refl refl))
            (finish [] [] refl refl))
          (release 0 refl refl))
        (wait refl refl refl refl))
      (close refl refl refl)

gather_closed_example : Perm {A = ℕ} (7 ∷ []) (7 ∷ [])
gather_closed_example = gather_closed 1 single 0 one schedule refl

-- The whole schedule is a run of the collection that owes one record.
gather_refines_example : Moves (promised 1 single 0 one) (view 1 single 0 closed_pool)
gather_refines_example = gather_refines 1 single 0 one schedule
