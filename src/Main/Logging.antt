-- ===== src/Main/Logging.antt =====
-- `updateLoggingSettings` in `configure` of cmd/metrics-powermax/main.go. The levels, and
-- `csmlog.ParseLevel`, are the logging library's.
use csm_metrics_powermax.Prelude.{
  ℕ, Text, Result, ok, err, codes, text_eq, map, if◌then◌else◌, leb, ◌&&◌, ◌+◌, Bool,
}

-- `strings.ToLower` and `strings.EqualFold` on ASCII text.
unfoldable pub lower : ℕ → ℕ
lower c = if leb b'A' c && leb c b'Z' then c + 32 else c

unfoldable pub to_lower : Text → Text
to_lower s = map lower s

unfoldable pub equal_fold : Text → Text → Bool
equal_fold s t = text_eq (to_lower s) (to_lower t)

pub record Logging (Level : Type 0) : Type 0 where
  pub format : Text
  pub level : Level

unfoldable pub update_logging_settings :
    {Level : Type 0} → (Text → Result Level) → Level → Text → Text → Logging Level
update_logging_settings parse_level info_level log_format log_level = record {
  format = if text_eq (to_lower log_format) (codes "text") then codes "text" else codes "json";
  level = elim (parse_level log_level) [ err _ ↦ info_level | ok level ↦ level ];
}
