-- ===== src/Units.antt =====
-- utilsconverter/unit_converter.go: units of disk allocation, in bits.
use csm_metrics_powermax.Prelude.{ℕ, ◌*◌}
use csm_metrics_powermax.Prelude.Float.{Float64}
use csm_metrics_powermax.Prelude.Int.{pos}

abbrev pub prefix_scale : ℕ
prefix_scale = 1024

abbrev pub bits : ℕ
bits = 1

abbrev pub bytes : ℕ
bytes = 8

abbrev pub kb : ℕ
kb = prefix_scale * bytes

abbrev pub mb : ℕ
mb = prefix_scale * kb

abbrev pub gb : ℕ
gb = prefix_scale * mb

abbrev pub tb : ℕ
tb = prefix_scale * gb

-- `UnitsConvert`, on a float64.
unfoldable pub units_convert : {F : Type 0} → Float64 F → F → ℕ → ℕ → F
units_convert fl value from to = fl.div (fl.mul value (fl.of_int (pos from))) (fl.of_int (pos to))
