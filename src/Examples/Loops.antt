-- ===== src/Examples/Loops.antt =====
-- The entry point's loop on a few events, and the settings that it reads.
use csm_metrics_powermax.Prelude.{
  codes, none, [], ◌∷◌, some, true, false, ◌≡◌, refl, arith, All, ◌≤◌, ◌*◌, inl, inr,
}
use csm_metrics_powermax.Prelude.Int.{ℤ, pos}
use csm_metrics_powermax.Entrypoint.Config.{Config, second, validate_config}
use csm_metrics_powermax.Entrypoint.Loop.{
  Callees, Loop, Readings, Ticker, panics, leader_check, performance_tick, capacity_tick,
  liveness_probe_tick, step, rounds, run, start, export_capacity_metrics,
  export_performance_metrics, acquire, check_leader, update_tickers, update_capacity,
  update_performance, update_topology,
}
use csm_metrics_powermax.Entrypoint.Leadership.{IsAllowed, step-IsAllowed, reelection_collects}
use csm_metrics_powermax.Entrypoint.PerformanceExports.{
  performance_exports, rounds_performance_once,
}
use csm_metrics_powermax.Exporter.{ended}
use csm_metrics_powermax.Entrypoint.Intervals.{
  AllReturn, is_panic, run_no_panic, unchecked_interval_panics,
}

abbrev pub config : Config
config = record {
  capacity_tick_interval = pos (10 * second);
  performance_tick_interval = pos (20 * second);
  topology_metrics_tick_interval = pos (30 * second);
  liveness_probe_tick_interval = pos 0;
  capacity_metrics_enabled = true;
  performance_metrics_enabled = true;
  topology_metrics_enabled = false;
  collector_address = codes "collector:443";
  collector_cert_path = [];
}

abbrev pub leading : Readings
leading = record {
  is_leader = true;
  at_capacity = true;
  at_performance = true;
  at_topology = true;
  done_after_capacity = false;
  done_after_performance = false;
}

abbrev pub following : Readings
following = record leading {
  is_leader = false;
  at_capacity = false;
  at_performance = false;
  at_topology = false;
}

abbrev ticker : ℤ → Ticker
ticker i = record { period = i; pending = false }

abbrev pub first : Loop
first = record {
  capacity_tick_interval = pos (10 * second);
  performance_tick_interval = pos (20 * second);
  topology_metrics_tick_interval = pos (30 * second);
  capacity_ticker = ticker (pos (10 * second));
  performance_ticker = ticker (pos (20 * second));
  topology_metrics_ticker = ticker (pos (30 * second));
  collected_on_leader_acquired = false;
  was_leader = false;
}

-- After the collection on the first acquisition.
abbrev leader : Loop
leader = record first { collected_on_leader_acquired = true; was_leader = true }

step-IsAllowed_example :
    All (IsAllowed config (leader_check leading)) (step config (leader_check leading) first).0
step-IsAllowed_example = step-IsAllowed config (leader_check leading) first

performance_once_example :
    performance_exports
      (rounds
        ((config, leader_check leading)
          ∷ (config, performance_tick)
          ∷ (config, performance_tick)
          ∷ [])
        first).0
    ≤ 1
performance_once_example =
    rounds_performance_once
      ((config, leader_check leading)
        ∷ (config, performance_tick)
        ∷ (config, performance_tick)
        ∷ [])
      first (refl, (tt, (tt, tt)))

-- Elected, lost, elected again.
reelection_example :
    (step config (leader_check leading) first).0
    ≡ export_capacity_metrics ∷ export_performance_metrics ∷ []
unfolding start rounds step check_leader update_tickers update_capacity update_performance
    update_topology acquire
reelection_example =
    reelection_collects config config config first leader first
      ((config, leader_check leading) ∷ []) following leading refl refl refl refl
      (refl, refl, refl, refl, refl, refl)

abbrev pub quiet : Callees
quiet = record { call_panics = λ before a. false; stop = ended none }

pub quiet-AllReturn : AllReturn quiet
quiet-AllReturn = record { calls = λ before a. refl; stopped = (none, refl) }

run_no_panic_example :
    is_panic
      (run quiet
        (some config)
        ((config, capacity_tick true) ∷ (config, liveness_probe_tick) ∷ [])).1
    ≡ false
unfolding validate_config
run_no_panic_example =
    run_no_panic quiet config ((config, capacity_tick true) ∷ (config, liveness_probe_tick) ∷ [])
      quiet-AllReturn (omega arith) (refl, (refl, tt))

-- The performance interval is set to zero while the loop runs, and the leader keeps its lease.
unchecked_interval_example :
    (step (record config { performance_tick_interval = pos 0 }) (leader_check leading) leader).1
    ≡ panics
unchecked_interval_example =
    unchecked_interval_panics (record config { performance_tick_interval = pos 0 }) leader
      (leader_check leading) refl (inr (inl (omega arith, omega arith)))
