-- ===== src/Prelude/Float.antt =====
-- float64 as an interface: the type and the operations that the program uses. IEEE arithmetic is no
-- code of the program, so no law of it is taken here; a theorem that needs one names it.
use csm_metrics_powermax.Prelude.{Bool}
use csm_metrics_powermax.Prelude.Int.{ℤ}

pub record Float64 (F : Type 0) : Type 0 where
  pub add : F → F → F
  pub mul : F → F → F
  pub div : F → F → F
  pub lt : F → F → Bool
  pub of_int : ℤ → F
