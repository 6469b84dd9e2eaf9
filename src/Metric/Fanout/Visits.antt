-- ===== src/Metric/Fanout/Visits.antt =====
-- The same jobs in another order: a `range` over a map visits its entries in any order.
use mathlib.Core.List.{Perm}
use mathlib.Core.List.Perm
use csm_metrics_powermax.Prelude.{ℕ, ◌≡◌, sym, subst, List, [], ◌∷◌}
use csm_metrics_powermax.Prelude.Perms.{flat_map-perm}
use csm_metrics_powermax.Metric.Fanout.{closed, Pool, Reach, expected}
use csm_metrics_powermax.Metric.Fanout.Invariant.{gather_closed}

module _ {Job Out : Type 0} (work : Job → List Out) (empty : Out) where
  expected-perm :
      (limit limit' : ℕ) (jobs jobs' : List Job)
      → Perm jobs jobs'
      → Perm (expected limit work empty jobs) (expected limit' work empty jobs')
  expected-perm limit limit' [] [] p = Perm.refl _
  expected-perm limit limit' [] (j ∷ js) p =
      subst (λ l. Perm (empty ∷ []) (expected limit' work empty l))
        (sym (Perm.eq-nil (Perm.symm p))) (Perm.refl _)
  expected-perm limit limit' (j ∷ js) [] p =
      subst (λ l. Perm (expected limit work empty l) (empty ∷ [])) (sym (Perm.eq-nil p))
        (Perm.refl _)
  expected-perm limit limit' (j ∷ js) (k ∷ ks) p = flat_map-perm work p

  -- What the consumer has received in the end, whatever the order in which the jobs were visited.
  pub gather_closed_in :
      (limit : ℕ) (jobs visited : List Job)
      → Perm visited jobs
      → {s : Pool Job Out} → Reach limit work empty visited s
      → s.phase ≡ closed
      → Perm s.sent (expected limit work empty jobs)
  gather_closed_in limit jobs visited p r c =
      Perm.trans (gather_closed limit work empty visited r c)
        (expected-perm limit limit visited jobs p)

  -- The limit does not matter to it.
  pub same_limits :
      (limit limit' : ℕ) (jobs : List Job)
      → Perm (expected limit work empty jobs) (expected limit' work empty jobs)
  same_limits limit limit' jobs = expected-perm limit limit' jobs jobs (Perm.refl jobs)
