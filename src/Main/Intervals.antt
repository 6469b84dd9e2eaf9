-- ===== src/Main/Intervals.antt =====
-- `updateTickIntervals` of cmd/metrics-powermax/main.go. The product of seconds and nanoseconds is one
-- of int64 numbers, and wraps around as such.
use csm_metrics_powermax.Prelude.{
  ℕ, Text, Error, ok, err, none, some, not, ◌≡◌, arith, if◌then◌else◌, ◌*◌, ◌≤◌, ◌⊎◌, inl, inr,
  Bool-cases,
}
use csm_metrics_powermax.Prelude.Int.{ℤ, pos, scale, wrap64, wrap64_lem}
use csm_metrics_powermax.Entrypoint.Config.{
  Config, second, validate_config, validate_config_lem, InRange,
}
use csm_metrics_powermax.Main.Atoi.{atoi}
use csm_metrics_powermax.Main.Settings.{is_empty}

-- `defaultTickInterval`, five minutes, and its seconds.
abbrev pub default_tick_interval : ℤ
default_tick_interval = pos (300 * second)

abbrev pub default_seconds : ℤ
default_seconds = pos 300

unfoldable pub interval_of : Text → ℤ
interval_of value =
    if not (is_empty value)
    then wrap64 (scale (elim (atoi value) [ err _ ↦ default_seconds | ok n ↦ n ]) second)
    else default_tick_interval

unfoldable pub update_tick_intervals : Text → Text → Text → Config → Config
update_tick_intervals capacity performance topology config = record config {
  capacity_tick_interval = interval_of capacity;
  performance_tick_interval = interval_of performance;
  topology_metrics_tick_interval = interval_of topology;
}

scaled : (n : ℕ) → n ≤ 86400 → wrap64 (scale (pos n) second) ≡ pos (n * second)
scaled n h = wrap64_lem (pos (n * second)) (omega arith) (omega arith)

-- A setting that is no number, the empty text included, or a number of seconds from five to a day.
abbrev pub IsAcceptable : Text → Type 0
IsAcceptable value =
    ((e : Error) × (atoi value ≡ err e))
    ⊎ ((n : ℕ) × (atoi value ≡ ok (pos n)) × (5 ≤ n) × (n ≤ 86400))

interval_of-InRange : (value : Text) → IsAcceptable value → InRange (interval_of value)
unfolding interval_of
interval_of-InRange value (inl (e, h)) = elim (Bool-cases (is_empty value)) [
  | inl k ↦ rw (interval_of, k) (omega arith, omega arith)
  | inr k ↦ rw (interval_of, k, h, scaled 300 (omega arith)) (omega arith, omega arith)
]
interval_of-InRange value (inr (n, h, k, l)) = elim (Bool-cases (is_empty value)) [
  | inl i ↦ rw (interval_of, i) (omega arith, omega arith)
  | inr i ↦ rw (interval_of, i, h, scaled n l) (omega arith, omega arith)
]

-- Settings that are each no number, or a number of seconds from five to 86,400, give a
-- configuration that is accepted.
pub update_tick_intervals-IsValid :
    (capacity performance topology : Text) (config : Config)
    → IsAcceptable capacity
    → IsAcceptable performance
    → IsAcceptable topology
    → validate_config (some (update_tick_intervals capacity performance topology config)) ≡ none
unfolding update_tick_intervals
update_tick_intervals-IsValid capacity performance topology config h k l =
    (validate_config_lem (update_tick_intervals capacity performance topology config)).1 (
      interval_of-InRange capacity h,
      interval_of-InRange performance k,
      interval_of-InRange topology l,
    )
