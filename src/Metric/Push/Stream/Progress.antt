-- ===== src/Metric/Push/Stream/Progress.antt =====
-- A streaming pusher never gets stuck, and every schedule of it is finite.
use mathlib.Core.List.{Perm}
use csm_metrics_powermax.Prelude.{
  ℕ, zero, suc, ◌+◌, ◌*◌, ◌<◌, ◌≡◌, refl, Bool, true, false, List, [], ◌∷◌, Option, arith, length,
  length-append, filter_map, Bool-cases, Option-cases, inl, inr,
}
use csm_metrics_powermax.Metric.Fanout.{closed, expected}
use csm_metrics_powermax.Metric.Fanout.Progress as Pooled
use csm_metrics_powermax.Metric.Fanout.Progress.{Phase-discrete, Step-left, gather_progress}
use csm_metrics_powermax.Metric.Fanout.Sends.{Step-sent}
use csm_metrics_powermax.Metric.Push.Stream.{
  Stream, StreamStep, gather, receive, accept, refuse, close_names, StreamReach, next,
}
use csm_metrics_powermax.Metric.Push.Stream.Closed.{stream_closed}

module _ {Job Rec Out : Type 0} (limit : ℕ) (work : Job → List Rec) (empty : Rec)
    (push : Rec → Option Out) where
  abbrev to_close : Bool → ℕ
  to_close true = 0
  to_close false = 1

  -- Operations that are left, at most.
  abbrev left : Stream Job Rec Out → ℕ
  left s = 2 * Pooled.left limit work empty s.pool + length s.pushing + to_close s.is_closed

  StreamStep-left :
      {s t : Stream Job Rec Out} → StreamStep limit work empty push s t → left t < left s
  StreamStep-left (gather p m same e) = rw e (omega (arith, Step-left limit work empty m))
  StreamStep-left (receive p r m more e) = rw e (omega (arith, Step-left limit work empty m))
  StreamStep-left (accept before r after o q k e) =
      rw (e, q, length-append before (r ∷ after), length-append before after) (omega arith)
  StreamStep-left (refuse before r after q k e) =
      rw (e, q, length-append before (r ∷ after), length-append before after) (omega arith)
  StreamStep-left (close_names c q x e) = rw (e, x) (omega arith)

  -- Some step is possible, whatever the scheduler has done so far.
  advance :
      0 < limit
      → (s : Stream Job Rec Out) (rs : List Rec) → s.pushing ≡ rs
      → s.is_closed ≡ false
      → (t : Stream Job Rec Out) × StreamStep limit work empty push s t
  advance h s (r ∷ after) p x = elim (Option-cases (push r)) [
    | inl e ↦ (_, refuse [] r after p e refl)
    | inr (o, e) ↦ (_, accept [] r after o p e refl)
  ]
  advance h s [] p x = elim (Phase-discrete s.pool.phase closed) [
    | yes e ↦ (_, close_names e p x refl)
    | no n ↦
        let (q, m) = gather_progress limit work empty h s.pool n in
        elim (Step-sent limit work empty m) [
          | inl same ↦ (_, gather q m same refl)
          | inr (r, more) ↦ (_, receive q r m more refl)
        ]
  ]

  finish_within :
      0 < limit
      → (k : ℕ) (jobs : List Job) (s : Stream Job Rec Out) → left s < k
      → StreamReach limit work empty push jobs s
      → (t : Stream Job Rec Out) × StreamReach limit work empty push jobs t × (t.is_closed ≡ true)
  finish_within h zero jobs s m r = absurd (omega arith)
  finish_within h (suc k) jobs s m r = elim (Bool-cases s.is_closed) [
    | inl e ↦ (s, r, e)
    | inr e ↦
        let (t, st) = advance h s s.pushing refl e in
        finish_within h k jobs t (omega (arith, StreamStep-left st)) (next r st)
  ]

  -- With at least one slot the pool and the pusher never get stuck: from wherever a schedule has led,
  -- the result channel can still be closed, and `Collect` has then received the names of those
  -- records whose call succeeds, each exactly once, up to order.
  pub stream_finishes :
      0 < limit
      → (jobs : List Job) {s : Stream Job Rec Out} → StreamReach limit work empty push jobs s
      → (t : Stream Job Rec Out) × StreamReach limit work empty push jobs t
        × (t.is_closed ≡ true)
        × Perm t.names (filter_map push (expected limit work empty jobs))
  stream_finishes h jobs {s} r =
      let (t, q, c) = finish_within h (suc (left s)) jobs s (omega arith) r in
      (t, q, c, stream_closed limit work empty push jobs q c)
