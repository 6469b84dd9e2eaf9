-- ===== src/Metric/Fanout/Progress.antt =====
-- The pool never gets stuck and every schedule is finite, if the semaphore has a slot.
use csm_metrics_powermax.Prelude.{
  ℕ, zero, suc, ◌+◌, ◌≤◌, ◌<◌, ◌≡◌, ◌≢◌, refl, List, [], ◌∷◌, ◌++◌, arith, length, Bool-cases, inl,
  inr,
}
use mathlib.Core.List.{Perm}
use csm_metrics_powermax.Metric.Fanout.Invariant.{gather_closed}
use csm_metrics_powermax.Metric.Fanout.{
  Phase, dispatching, waiting, closed, Pool, start, Step, spawn, send, finish, release, send_empty,
  wait, close, Reach, next, expected,
}

pub Phase-discrete : Discrete Phase
Phase-discrete = hlevel

module _ {Job Out : Type 0} (limit : ℕ) (work : Job → List Out) (empty : Out) where
  -- Channel and wait-group operations that are left, at most.
  abbrev to_run : List Job → ℕ
  to_run [] = 0
  to_run (j ∷ js) = length (work j) + 3 + to_run js

  abbrev to_send : List (List Out) → ℕ
  to_send [] = 0
  to_send (os ∷ rest) = length os + 2 + to_send rest

  abbrev to_close : Phase → ℕ
  to_close dispatching = 2
  to_close waiting = 1
  to_close closed = 0

  pub left : Pool Job Out → ℕ
  left s = to_run s.pending + to_send s.running + s.releasing + to_close s.phase

  to_send-append : (xs ys : List (List Out)) → to_send (xs ++ ys) ≡ to_send xs + to_send ys
  to_send-append [] ys = omega arith
  to_send-append (x ∷ xs) ys = omega (arith, to_send-append xs ys)

  -- Every step uses one of them up.
  pub Step-left : {s t : Pool Job Out} → Step limit work empty s t → left t < left s
  unfolding left
  Step-left {s} (spawn j js p q room e) = rw (e, q) (omega arith)
  Step-left {s} (send o before os after q e) =
      rw (e, q, to_send-append before (os ∷ after), to_send-append before ((o ∷ os) ∷ after))
        (omega arith)
  Step-left {s} (finish before after q e) =
      rw (e, q, to_send-append before after, to_send-append before ([] ∷ after)) (omega arith)
  Step-left {s} (release n q e) = rw (e, q) (omega arith)
  Step-left {s} (send_empty p q x e) = rw (e, p) (omega arith)
  Step-left {s} (wait p q x e) = rw (e, p) (omega arith)
  Step-left {s} (close p q e) = rw (e, p) (omega arith)

  -- Some step is possible, whatever the scheduler has done so far.
  advance :
      0 < limit
      → (s : Pool Job Out) (rs : List (List Out)) → s.running ≡ rs
      → (n : ℕ) → s.releasing ≡ n
      → (p : Phase) → s.phase ≡ p
      → (js : List Job) → s.pending ≡ js
      → p ≢ closed
      → (t : Pool Job Out) × Step limit work empty s t
  advance h s ((o ∷ os) ∷ after) r n _ p _ js _ open_ = (_, send o [] os after r refl)
  advance h s ([] ∷ after) r n _ p _ js _ open_ = (_, finish [] after r refl)
  advance h s [] r (suc n) m p _ js _ open_ = (_, release n m refl)
  advance h s [] r zero m dispatching d (j ∷ js) q open_ =
      (_, spawn j js d q (rw (r, m) (omega arith)) refl)
  advance h s [] r zero m dispatching d [] q open_ = elim (Bool-cases s.exported) [
    | inl x ↦ (_, wait d q x refl)
    | inr x ↦ (_, send_empty d q x refl)
  ]
  advance h s [] r zero m waiting w js q open_ = (_, close w r refl)
  advance h s [] r zero m closed w js q open_ = absurd (open_ refl)

  pub data Run (s : Pool Job Out) : ℕ → Pool Job Out → Type 0 where
    none_yet : Run s zero s
    more : {n : ℕ} {t u : Pool Job Out} → Run s n t → Step limit work empty t u → Run s (suc n) u

  Run-left : {s t : Pool Job Out} {n : ℕ} → Run s n t → n + left t ≤ left s
  Run-left none_yet = omega arith
  Run-left (more r st) = omega (arith, Run-left r, Step-left st)

  -- With at least one slot there is no deadlock: a pool whose channel is not closed can make a
  -- step, whatever the scheduler has done so far.
  pub gather_progress :
      0 < limit
      → (s : Pool Job Out) → s.phase ≢ closed
      → (t : Pool Job Out) × Step limit work empty s t
  gather_progress h s c = advance h s s.running refl s.releasing refl s.phase refl s.pending refl c

  -- No schedule is endless: from the start of a collection no more than `left (start jobs)` steps
  -- are possible, in whatever order.
  pub gather_bounded :
      (jobs : List Job) (n : ℕ) (s : Pool Job Out) → Run (start jobs) n s → n ≤ left (start jobs)
  gather_bounded jobs n s r = omega (arith, Run-left r)

  -- The channel can be closed, and what every step keeps is kept.
  pub finish_within :
      0 < limit
      → (P : Pool Job Out → Type 0) → ((s t : Pool Job Out) → P s → Step limit work empty s t → P t)
      → (k : ℕ) (s : Pool Job Out) → left s < k
      → P s
      → (t : Pool Job Out) × P t × (t.phase ≡ closed)
  finish_within h P keep zero s m r = absurd (omega arith)
  finish_within h P keep (suc k) s m r = elim (Phase-discrete s.phase closed) [
    | yes e ↦ (s, r, e)
    | no n ↦
        let (t, st) = gather_progress h s n in
        finish_within h P keep k t (omega (arith, Step-left st)) (keep s t r st)
  ]

  -- With at least one slot, from wherever a schedule has led a collection, the channel can still be
  -- closed, and the consumer has then received the records of every array, each exactly once up to
  -- order, or the one empty record if there is no array.
  pub gather_finishes :
      0 < limit
      → (jobs : List Job) {s : Pool Job Out} → Reach limit work empty jobs s
      → (t : Pool Job Out) × Reach limit work empty jobs t
        × (t.phase ≡ closed)
        × Perm t.sent (expected limit work empty jobs)
  gather_finishes h jobs {s} r =
      let (t, q, c) =
        finish_within h (Reach limit work empty jobs) (λ _ _ r st. next r st) (suc (left s)) s
          (omega arith) r in
      (t, q, c, gather_closed limit work empty jobs q c)

-- Why `ExportMetrics` refuses a limit of 0: the dispatcher would wait for ever for a slot that the
-- semaphore does not have. No step at all leads out of the start if there is an array.
pub no_slot_deadlock :
    {Job Out : Type 0} (work : Job → List Out) (empty : Out) (j : Job) (js : List Job)
    (t : Pool Job Out)
    → ¬ Step 0 work empty (start (j ∷ js)) t
no_slot_deadlock work empty j js t (spawn _ _ p q room e) = omega arith
no_slot_deadlock work empty j js t (send o [] os after q e) = cc
no_slot_deadlock work empty j js t (send o (b ∷ before) os after q e) = cc
no_slot_deadlock work empty j js t (finish [] after q e) = cc
no_slot_deadlock work empty j js t (finish (b ∷ before) after q e) = cc
no_slot_deadlock work empty j js t (release n q e) = cc
no_slot_deadlock work empty j js t (send_empty p q x e) = cc
no_slot_deadlock work empty j js t (wait p q x e) = cc
no_slot_deadlock work empty j js t (close p q e) = cc
