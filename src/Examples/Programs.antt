-- ===== src/Examples/Programs.antt =====
-- The program started with a few settings, and changes of them while it runs.
use csm_metrics_powermax.Prelude.{
  ℕ, Text, Result, err, codes, text_eq, List, [], ◌∷◌, none, some, false, ◌≡◌, refl, arith, inl,
  inr, if◌then◌else◌,
}
use csm_metrics_powermax.Entrypoint.Intervals.{is_panic}
use csm_metrics_powermax.Entrypoint.Loop.{Event, performance_tick, done, run}
use csm_metrics_powermax.Examples.Loops.{quiet, quiet-AllReturn}
use csm_metrics_powermax.Main.Atoi.{atoi, digits}
use csm_metrics_powermax.Main.Logging.{equal_fold, to_lower}
use csm_metrics_powermax.Main.Program.{
  Change, Moment, Program, apply_all, config_changed, secret_changed, configure, main,
  on_change_update, fresh, seen,
}
use csm_metrics_powermax.Main.Server.{Files, Settings}
use csm_metrics_powermax.Main.Updates.{AreAcceptable, IsReady, configure-IsReady, main_no_panic}
use csm_metrics_powermax.Pmax.Connect.{Environment}

-- A cluster whose proxy configuration cannot be read.
abbrev cluster : Environment ℕ
cluster = record {
  use_secret = [];
  read_config = λ p. err (codes "no such file");
  read_config_from_secret = err (codes "no such file");
  new_client_with_args = λ e a i d v. err (codes "refused");
}

-- The capacity is polled every seven seconds; nothing else is set.
abbrev seven : Settings
seven =
    λ key. if text_eq key (codes "POWERMAX_CAPACITY_POLL_FREQUENCY") then some (codes "7") else none

abbrev moment : Moment ℕ
moment = record { settings = seven; environment = cluster; k8s_utils_is_nil = false }

abbrev levels : Text → Result ℕ
levels t = err (codes "not a level")

abbrev env : Text → Text
env key = []

abbrev begun : Program ℕ ℕ
begun = on_change_update moment (fresh levels 4 (λ t. t) env moment)

configure-IsReady_example :
    IsReady
      (apply_all levels 4 (λ t. t) env (config_changed moment ∷ secret_changed moment ∷ []) begun)
unfolding configure
configure-IsReady_example =
    configure-IsReady levels 4 (λ t. t) env none moment
      (config_changed moment ∷ secret_changed moment ∷ []) refl

abbrev files : Files
files = record {
  quote = λ t. t;
  open_file = λ t. some (codes "no such file");
  close_file = λ t. none;
}

acceptable : AreAcceptable moment
unfolding text_eq atoi digits
acceptable = (inr (7, refl, omega arith, omega arith), inl (_, refl), inl (_, refl))

-- The secret changes before the first round, the configuration before the second.
abbrev changes : List (List (Change ℕ) × Event)
changes = (secret_changed moment ∷ [], performance_tick) ∷ (config_changed moment ∷ [], done) ∷ []

main_no_panic_example :
    is_panic (run quiet (some begun.config) (seen levels 4 (λ t. t) env begun changes)).1 ≡ false
unfolding configure main text_eq equal_fold to_lower
main_no_panic_example =
    main_no_panic levels 4 (λ t. t) env quiet none files moment changes quiet-AllReturn acceptable
      ((tt, tt), ((acceptable, tt), tt)) refl
