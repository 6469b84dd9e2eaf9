-- ===== src/Metric/Fanout/Isolated.antt =====
-- Two collections of the same jobs, whose work may differ but for one job.
use mathlib.Core.List.{Perm}
use mathlib.Core.List.Perm
use csm_metrics_powermax.Prelude.{
  ℕ, Text, All, ◌≡◌, refl, List, [], ◌∷◌, Option-cases, inl, inr, filter,
}
use csm_metrics_powermax.Prelude.Dict.{Dict, IsNodup, keys, lookup}
use csm_metrics_powermax.Prelude.Perms.{filter-perm}
use csm_metrics_powermax.Prelude.Picks.{made_for_lem, has_key, made_for}
use csm_metrics_powermax.Metric.Fanout.{closed, Pool, Reach, expected}
use csm_metrics_powermax.Metric.Fanout.Visits.{gather_closed_in}

module _ {V Out : Type 0} (key : Out → Text) (empty : Out) (work work' : Text × V → List Out)
    (owned : (k : Text) (v : V) → All (λ r. key r ≡ k) (work (k, v)))
    (owned' : (k : Text) (v : V) → All (λ r. key r ≡ k) (work' (k, v))) (a : Text)
    (same : (v : V) → work (a, v) ≡ work' (a, v)) where
  made_for_same :
      (jobs : Dict V) → made_for key work owned a jobs ≡ made_for key work' owned' a jobs
  made_for_same jobs = elim (Option-cases (lookup a jobs)) [
    | inl e ↦ rw (made_for, e)
    | inr (v, e) ↦ rw (made_for, e) (same v)
  ]

  expected_same :
      (limit limit' : ℕ) (jobs : Dict V)
      → IsNodup (keys jobs)
      → filter (has_key key a) (expected limit work empty jobs)
        ≡ filter (has_key key a) (expected limit' work' empty jobs)
  expected_same limit limit' [] d = refl
  expected_same limit limit' (j ∷ js) d =
      rw (made_for_lem key work owned a (j ∷ js) d, made_for_lem key work' owned' a (j ∷ js) d)
        (made_for_same (j ∷ js))

  -- Once both channels are closed, the records with the job's key are the same, up to order, in
  -- whatever order either collection visits the jobs.
  pub isolated :
      (limit limit' : ℕ) (jobs visited visited' : Dict V)
      → IsNodup (keys jobs)
      → Perm visited jobs
      → Perm visited' jobs
      → {s t : Pool (Text × V) Out} → Reach limit work empty visited s
      → s.phase ≡ closed
      → Reach limit' work' empty visited' t
      → t.phase ≡ closed
      → Perm (filter (has_key key a) s.sent) (filter (has_key key a) t.sent)
  isolated limit limit' jobs visited visited' d v v' {s} {t} r c q e =
      let p = filter-perm (has_key key a) (gather_closed_in work empty limit jobs visited v r c) in
      let p' =
        filter-perm (has_key key a) (gather_closed_in work' empty limit' jobs visited' v' q e) in
      Perm.trans (rw (expected_same limit limit' jobs d) at p) (Perm.symm p')
