-- ===== src/Metric/Push/Batch/Progress.antt =====
-- A batch pusher never gets stuck, and every schedule of it ends, if the pool's schedules do.
use mathlib.Core.List.{Perm}
use csm_metrics_powermax.Prelude.{
  ℕ, zero, suc, ◌<◌, ◌≡◌, refl, true, List, [], ◌∷◌, Option, none, some, arith, ◌++◌, ◌∙◌,
  filter_map, Bool-cases, Option-cases, inl, inr,
}
use csm_metrics_powermax.Metric.Fanout.{closed}
use csm_metrics_powermax.Metric.Fanout.Progress as Pooled
use csm_metrics_powermax.Metric.Fanout.Progress.{Phase-discrete, Step-left, gather_progress}
use csm_metrics_powermax.Metric.Push.Batch.{
  Batch, BatchStep, gather, drained, start_call, accept, refuse, close_names, BatchReach, next,
}
use csm_metrics_powermax.Metric.Push.Batch.Closed.{batch_closed}

module _ {Job Rec Call Out : Type 0} (limit : ℕ) (work : Job → List Rec) (empty : Rec)
    (calls : List Rec → List Call) (push : Call → Option Out) where
  abbrev BStep : Batch Job Rec Call Out → Batch Job Rec Call Out → Type 0
  BStep s t = BatchStep limit work empty calls push s t

  abbrev BReach : List Job → Batch Job Rec Call Out → Type 0
  BReach jobs s = BatchReach limit work empty calls push jobs s

  -- The pool can be emptied: from a state of the whole, one whose pool is closed is reached.
  drain_within :
      0 < limit
      → (k : ℕ) (jobs : List Job) (s : Batch Job Rec Call Out)
      → Pooled.left limit work empty s.pool < k
      → BReach jobs s
      → (t : Batch Job Rec Call Out) × BReach jobs t
        × (t.pool.phase ≡ closed)
        × (t.starting ≡ s.starting)
  drain_within h zero jobs s m r = absurd (omega arith)
  drain_within h (suc k) jobs s m r = elim (Phase-discrete s.pool.phase closed) [
    | yes e ↦ (s, r, e, refl)
    | no n ↦
        let (p, st) = gather_progress limit work empty h s.pool n in
        drain_within h k jobs (record s { pool = p }) (omega (arith, Step-left limit work empty st))
          (next r (gather p st refl))
  ]

  -- Goroutines under way end, one by one.
  end_all :
      (jobs : List Job) (cs : List Call) (rs : List Call) (s : Batch Job Rec Call Out)
      → s.starting ≡ some cs
      → s.pushing ≡ rs
      → BReach jobs s
      → (t : Batch Job Rec Call Out) × BReach jobs t × (t.starting ≡ some cs) × (t.pushing ≡ [])
  end_all jobs cs [] s x p r = (s, r, x, p)
  end_all jobs cs (c ∷ after) s x p r = elim (Option-cases (push c)) [
    | inl e ↦
        end_all jobs cs after (record s { pushing = after }) x refl
          (next r (refuse [] c after p e refl))
    | inr (o, e) ↦
        end_all jobs cs after (record s { pushing = after; names = s.names ++ o ∷ [] }) x refl
          (next r (accept [] c after o p e refl))
  ]

  -- So are those that are still to start.
  start_all :
      (jobs : List Job) (cs : List Call) (s : Batch Job Rec Call Out)
      → s.starting ≡ some cs
      → BReach jobs s
      → (t : Batch Job Rec Call Out) × BReach jobs t × (t.starting ≡ some []) × (t.pushing ≡ [])
  start_all jobs [] s x r = end_all jobs [] s.pushing s x refl r
  start_all jobs (c ∷ cs) s x r =
      start_all jobs cs (record s { starting = some cs; pushing = c ∷ s.pushing }) refl
        (next r (start_call c cs x refl))

  close_up :
      (jobs : List Job) (s : Batch Job Rec Call Out)
      → (s.starting ≡ some [])
      → (s.pushing ≡ [])
      → BReach jobs s
      → (t : Batch Job Rec Call Out) × BReach jobs t × (t.is_closed ≡ true)
  close_up jobs s x p r = elim (Bool-cases s.is_closed) [
    | inl e ↦ (s, r, e)
    | inr e ↦ (_, next r (close_names x p e refl), refl)
  ]

  from_started :
      (jobs : List Job) (cs : List Call) (s : Batch Job Rec Call Out)
      → s.starting ≡ some cs
      → BReach jobs s
      → (t : Batch Job Rec Call Out) × BReach jobs t × (t.is_closed ≡ true)
  from_started jobs cs s x r = let (t, q, y, p) = start_all jobs cs s x r in close_up jobs t y p q

  -- With at least one slot the pool and the pusher never get stuck: from wherever a schedule has led,
  -- the result channel can still be closed, with the names of the calls that succeed.
  pub batch_finishes :
      0 < limit
      → (jobs : List Job) {s : Batch Job Rec Call Out} → BReach jobs s
      → (t : Batch Job Rec Call Out) × BReach jobs t
        × (t.is_closed ≡ true)
        × Perm t.names (filter_map push (calls t.pool.sent))
  batch_finishes h jobs {s} r =
      let (t, q, c) = go s.starting refl in
      (t, q, c, (batch_closed limit work empty calls push jobs q c).2)
    where
      go :
          (o : Option (List Call))
          → s.starting ≡ o
          → (t : Batch Job Rec Call Out) × BReach jobs t × (t.is_closed ≡ true)
      go none x =
          let (u, q, f, same) =
            drain_within h (suc (Pooled.left limit work empty s.pool)) jobs s (omega arith) r in
          from_started jobs (calls u.pool.sent) (record u { starting = some (calls u.pool.sent) })
            refl (next q (drained f (same ∙ x) refl))
      go (some cs) x = from_started jobs cs s x r
