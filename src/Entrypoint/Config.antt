-- ===== src/Entrypoint/Config.antt =====
-- internal/entrypoint/run.go: `Config`, its interval accessors and `ValidateConfig`. A duration is its
-- number of nanoseconds, an int64.
use csm_metrics_powermax.Prelude.{
  ℕ, Text, Error, codes, ◌≡◌, ◌↔◌, Bool, false, ◌||◌, Option, none, some, arith, if◌then◌else◌, ◌*◌,
  ◌++◌,
}
use csm_metrics_powermax.Prelude.Int.{ℤ, pos, ltb_ℤ, ◌≤ℤ◌}

abbrev pub second : ℕ
second = 1000000000

abbrev pub maximum_tick_interval : ℤ
maximum_tick_interval = pos (24 * 60 * 60 * second)

abbrev pub minimum_tick_interval : ℤ
minimum_tick_interval = pos (5 * second)

abbrev pub liveness_probe_interval : ℤ
liveness_probe_interval = pos (30 * second)

abbrev pub leader_check_interval : ℤ
leader_check_interval = pos (5 * second)

-- The leader elector is the answers of its `IsLeader`, which the loop's events carry.
pub record Config : Type 0 where
  pub capacity_tick_interval : ℤ
  pub performance_tick_interval : ℤ
  pub topology_metrics_tick_interval : ℤ
  pub liveness_probe_tick_interval : ℤ
  pub capacity_metrics_enabled : Bool
  pub performance_metrics_enabled : Bool
  pub topology_metrics_enabled : Bool
  pub collector_address : Text
  pub collector_cert_path : Text

unfoldable pub get_tick_intervals : Config → ℤ × ℤ × ℤ
get_tick_intervals c =
    (c.capacity_tick_interval, c.performance_tick_interval, c.topology_metrics_tick_interval)

unfoldable pub set_tick_intervals : Config → ℤ → ℤ → ℤ → Config
set_tick_intervals c capacity performance topology = record c {
  capacity_tick_interval = capacity;
  performance_tick_interval = performance;
  topology_metrics_tick_interval = topology;
}

abbrev pub out_of_range : ℤ → Bool
out_of_range interval = ltb_ℤ maximum_tick_interval interval || ltb_ℤ interval minimum_tick_interval

abbrev pub not_within : Text → Error
not_within name = name ++ codes " polling frequency not within allowed range of 5s and 24h0m0s"

-- `none` of the argument is a nil pointer, `none` of the result no error.
unfoldable pub validate_config : Option Config → Option Error
validate_config none = some (codes "no config provided")
validate_config (some c) =
    if out_of_range c.capacity_tick_interval
    then some (not_within (codes "capacity"))
    else (if out_of_range c.performance_tick_interval
        then some (not_within (codes "performance metrics"))
        else (if out_of_range c.topology_metrics_tick_interval
            then some (not_within (codes "topology metrics"))
            else none))

abbrev pub InRange : ℤ → Type 0
InRange interval = (minimum_tick_interval ≤ℤ interval) × (interval ≤ℤ maximum_tick_interval)

in_range : (i : ℤ) → out_of_range i ≡ false → InRange i
in_range i h = (ground arith, ground arith)

-- A configuration is accepted just if its three intervals are from five seconds to a day, both
-- included.
pub validate_config_lem :
    (c : Config)
    → (validate_config (some c) ≡ none) ↔ (
        InRange c.capacity_tick_interval
        × InRange c.performance_tick_interval
        × InRange c.topology_metrics_tick_interval)
unfolding validate_config
validate_config_lem c = ground arith
