-- ===== src/Metric/Performance/Threshold.antt =====
-- `init` and the choice of the bulk endpoint: POWERMAX_BULK_THRESHOLD_RATIO.
use csm_metrics_powermax.Prelude.{
  ℕ, Text, Result, ok, err, text_eq, ◌≡◌, [], Bool, false, ◌&&◌, ◌||◌, ltb, arith, if◌then◌else◌,
}
use csm_metrics_powermax.Prelude.Float.{Float64}
use csm_metrics_powermax.Prelude.Int.{pos}

module _ {F : Type 0} (fl : Float64 F) where
  open fl use {div, lt, of_int}

  -- 0.25
  abbrev pub default_bulk_threshold_ratio : F
  default_bulk_threshold_ratio = div (of_int (pos 1)) (of_int (pos 4))

  -- `init`, with `strconv.ParseFloat(_, 64)` as an argument. An unset variable reads as "".
  unfoldable pub init_ratio : (Text → Result F) → Text → F
  init_ratio parse_float v =
      if text_eq v [] then default_bulk_threshold_ratio else elim (parse_float v) [
        | err _ ↦ default_bulk_threshold_ratio
        | ok parsed ↦
            if lt parsed (of_int (pos 0)) || lt (of_int (pos 1)) parsed
            then default_bulk_threshold_ratio
            else parsed
      ]

  -- `float64(requestedSGs)/float64(totalSGs) > bulkThresholdRatio`, behind the guards.
  unfoldable pub use_bulk : F → ℕ → ℕ → Bool
  use_bulk ratio total_sgs requested_sgs =
      ltb 0 total_sgs
      && (ltb 0 requested_sgs
          && lt ratio (div (of_int (pos requested_sgs)) (of_int (pos total_sgs))))

  -- If the default is neither below 0 nor above 1, then neither is the ratio in use, whatever the
  -- variable holds and however it parses.
  pub init_ratio_range :
      (parse_float : Text → Result F) (v : Text)
      → lt default_bulk_threshold_ratio (of_int (pos 0)) ≡ false
      → lt (of_int (pos 1)) default_bulk_threshold_ratio ≡ false
      → (lt (init_ratio parse_float v) (of_int (pos 0)) ≡ false)
        × (lt (of_int (pos 1)) (init_ratio parse_float v) ≡ false)
  unfolding init_ratio
  init_ratio_range parse_float v low high = ground arith

  -- A variable that parses to a value which compares with nothing (NaN) is accepted as the ratio,
  -- and the bulk endpoint is then never chosen, however many groups are monitored.
  pub nan_disables_bulk :
      (parse_float : Text → Result F) (v : Text) {nan : F} (total_sgs requested_sgs : ℕ)
      → text_eq v [] ≡ false
      → parse_float v ≡ ok nan
      → ((x : F) → lt nan x ≡ false)
      → ((x : F) → lt x nan ≡ false)
      → (init_ratio parse_float v ≡ nan)
        × (use_bulk (init_ratio parse_float v) total_sgs requested_sgs ≡ false)
  unfolding init_ratio use_bulk
  nan_disables_bulk parse_float v {nan} total_sgs requested_sgs set p below above = ground (
    arith,
    below (of_int (pos 0)),
    above (of_int (pos 1)),
    above (div (of_int (pos requested_sgs)) (of_int (pos total_sgs))),
    below (div (of_int (pos requested_sgs)) (of_int (pos total_sgs))),
  )
