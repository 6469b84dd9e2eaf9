-- ===== src/Metric/Pipeline/Progress.antt =====
-- The two stages never get stuck before both channels are closed, and every schedule is finite.
use mathlib.Core.List.{Perm}
use csm_metrics_powermax.Prelude.{
  ℕ, zero, suc, ◌+◌, ◌*◌, ◌<◌, ◌≡◌, refl, Bool, true, false, List, [], ◌∷◌, Option, arith, length,
  length-append, filter_map, Bool-cases, Option-cases, inl, inr,
}
use csm_metrics_powermax.Metric.Pipeline.{
  Line, LineStep, take, hand, accept, refuse, close_gather, close_push, LineReach, next,
}
use csm_metrics_powermax.Metric.Pipeline.Closed.{line_closed}

module _ {In Mid Out : Type 0} (first : In → Mid) (second : Mid → Option Out) where
  abbrev to_close : Bool → ℕ
  to_close true = 0
  to_close false = 1

  -- Channel and wait-group operations that are left, at most.
  pub left : Line In Mid Out → ℕ
  left s =
      3 * length s.served
      + 2 * length s.gathering
      + length s.pushing
      + to_close s.gather_closed
      + to_close s.push_closed

  -- Every step uses one of them up.
  LineStep-left : {s t : Line In Mid Out} → LineStep first second s t → left t < left s
  unfolding left
  LineStep-left {s} (take v vs p e) = rw (e, p) (omega arith)
  LineStep-left {s} (hand before v after p e) =
      rw (e, p, length-append before (v ∷ after), length-append before after) (omega arith)
  LineStep-left {s} (accept before r after o p q e) =
      rw (e, p, length-append before (r ∷ after), length-append before after) (omega arith)
  LineStep-left {s} (refuse before r after p q e) =
      rw (e, p, length-append before (r ∷ after), length-append before after) (omega arith)
  LineStep-left {s} (close_gather p q x e) = rw (e, x) (omega arith)
  LineStep-left {s} (close_push p q x e) = rw (e, x) (omega arith)

  -- Some step is possible, whatever the scheduler has done so far.
  advance :
      (s : Line In Mid Out) (ps : List Mid)
      → s.pushing ≡ ps
      → (gs : List In) → s.gathering ≡ gs
      → (vs : List In) → s.served ≡ vs
      → s.push_closed ≡ false
      → (t : Line In Mid Out) × LineStep first second s t
  advance s (r ∷ after) p gs g vs v c = elim (Option-cases (second r)) [
    | inl e ↦ (_, refuse [] r after p e refl)
    | inr (o, e) ↦ (_, accept [] r after o p e refl)
  ]
  advance s [] p (w ∷ after) g vs v c = (_, hand [] w after g refl)
  advance s [] p [] g (w ∷ vs) v c = (_, take w vs v refl)
  advance s [] p [] g [] v c = elim (Bool-cases s.gather_closed) [
    | inl e ↦ (_, close_push e p c refl)
    | inr e ↦ (_, close_gather v g e refl)
  ]

  finish_within :
      (k : ℕ) (items : List In) (s : Line In Mid Out)
      → left s < k
      → LineReach first second items s
      → (t : Line In Mid Out) × LineReach first second items t × (t.push_closed ≡ true)
  finish_within zero items s m r = absurd (omega arith)
  finish_within (suc k) items s m r = elim (Bool-cases s.push_closed) [
    | inl e ↦ (s, r, e)
    | inr e ↦
        let (t, st) = advance s s.pushing refl s.gathering refl s.served refl e in
        finish_within k items t (omega (arith, LineStep-left st)) (next r st)
  ]

  -- From wherever a schedule has led, both channels can still be closed, and what the consumer has
  -- then received is what the pusher accepts of the record of each item, each exactly once, up to
  -- order: no interleaving gets stuck or loses the way to the right result.
  pub line_finishes :
      (items : List In) {s : Line In Mid Out}
      → LineReach first second items s
      → (t : Line In Mid Out) × LineReach first second items t
        × (t.push_closed ≡ true)
        × Perm t.sent (filter_map (λ v. second (first v)) items)
  line_finishes items {s} r =
      let (t, q, c) = finish_within (suc (left s)) items s (omega arith) r in
      (t, q, c, line_closed first second items q c)
