-- ===== src/Metric/Fanout/Refinement.antt =====
-- The pool against what it promises: a collection owes each record once, in no order, hands them over
-- one by one, and is done when it owes nothing. Scheduling, slots and goroutines are not seen.
use mathlib.Core.List.{Perm, perm_middle, perm_append_comm}
use mathlib.Core.List.Perm
use mathlib.Core.Quot.{sound}
use mathlib.Mathlib.Data.Multiset.Defs.{Multiset, of_list}
use mathlib.Mathlib.Data.Multiset.ZeroCons.{cons}
use csm_metrics_powermax.Prelude.{
  ℕ, ◌≡◌, refl, Bool, true, false, List, [], ◌∷◌, ◌++◌, arith, flat_map, append_assoc,
  if◌then◌else◌,
}
use csm_metrics_powermax.Metric.Fanout.{
  Phase, dispatching, closed, Pool, Step, spawn, send, finish, release, send_empty, wait, close,
  Reach, here, next, expected,
}
use csm_metrics_powermax.Metric.Fanout.Invariant.{flatten, flatten-append}

pub record View (Out : Type 0) : Type 0 where
  pub owed : Multiset Out
  pub received : List Out
  pub is_done : Bool

pub data Move {Out : Type 0} (v w : View Out) : Type 0 where
  keep : w ≡ v → Move v w
  deliver :
      (o : Out)
      → v.owed ≡ cons o w.owed
      → w.received ≡ v.received ++ o ∷ []
      → w.is_done ≡ v.is_done
      → Move v w
  end : v.owed ≡ of_list [] → w ≡ record v { is_done = true } → Move v w

pub data Moves {Out : Type 0} (u : View Out) : View Out → Type 0 where
  stay : Moves u u
  then_move : {v w : View Out} → Moves u v → Move v w → Moves u w

module _ {Job Out : Type 0} (limit : ℕ) (work : Job → List Out) (empty : Out) where
  -- What the dispatcher has not handed to a goroutine.
  abbrev undispatched : Phase → Bool → List Job → List Out
  undispatched dispatching exported pending =
      if exported then flat_map work pending else expected limit work empty pending
  undispatched _ _ _ = []

  abbrev is_closed : Phase → Bool
  is_closed closed = true
  is_closed _ = false

  abbrev owed_by : Pool Job Out → List Out
  owed_by s = flatten s.running ++ undispatched s.phase s.exported s.pending

  abbrev pub view : Pool Job Out → View Out
  view s = record { owed = of_list (owed_by s); received = s.sent; is_done = is_closed s.phase }

  undispatched-cons :
      (p : Phase) (b : Bool) (j : Job) (js : List Job)
      → p ≡ dispatching
      → undispatched p b (j ∷ js) ≡ work j ++ flat_map work js
  undispatched-cons p b j js e = rw e (ground arith)

  spawn-Perm :
      (one running rest : List Out) → Perm ((one ++ running) ++ rest) (running ++ (one ++ rest))
  spawn-Perm one running rest =
      rw (← append_assoc) (Perm.append_right rest (perm_append_comm one running))

  send-Perm :
      (o : Out) (before : List (List Out)) (os : List Out) (after : List (List Out))
      (rest : List Out)
      → Perm
          (flatten (before ++ (o ∷ os) ∷ after) ++ rest)
          (o ∷ (flatten (before ++ os ∷ after) ++ rest))
  send-Perm o before os after rest =
      rw (flatten-append before (os ∷ after), flatten-append before ((o ∷ os) ∷ after))
        (simp append_assoc (perm_middle (flatten before) (os ++ (flatten after ++ rest))))

  flatten-drop :
      (before after : List (List Out)) → flatten (before ++ [] ∷ after) ≡ flatten (before ++ after)
  flatten-drop before after =
      rw (flatten-append before ([] ∷ after), flatten-append before after) refl

  send_empty-Perm : (running : List Out) → Perm (running ++ empty ∷ []) (empty ∷ (running ++ []))
  send_empty-Perm running = perm_middle running []

  view-same :
      (s t : Pool Job Out)
      → of_list (owed_by t) ≡ of_list (owed_by s)
      → t.sent ≡ s.sent
      → is_closed t.phase ≡ is_closed s.phase
      → view t ≡ view s
  view-same s t a b c = rw (a, b, c) refl

  Step-Move : {s t : Pool Job Out} → Step limit work empty s t → Move (view s) (view t)
  Step-Move {s} {t} (spawn j js p q room e) = keep (
      view-same s t
        (rw (e, q, p, undispatched-cons dispatching s.exported j js refl)
          (sound (spawn-Perm (work j) (flatten s.running) (flat_map work js))))
        (rw e refl) (rw e refl))
  Step-Move {s} (send o before os after q e) =
      deliver o
        (rw (e, q)
          (sound (send-Perm o before os after (undispatched s.phase s.exported s.pending))))
        (rw e refl) (rw e refl)
  Step-Move {s} (finish before after q e) = keep (rw (e, q, flatten-drop before after) refl)
  Step-Move {s} (release n q e) = keep (rw e refl)
  Step-Move {s} (send_empty p q x e) =
      deliver empty (rw (e, p, q, x) (sound (send_empty-Perm (flatten s.running)))) (rw e refl)
        (rw (e, p) refl)
  Step-Move {s} {t} (wait p q x e) =
      keep (view-same s t (rw (e, p, q, x) refl) (rw e refl) (rw (e, p) refl))
  Step-Move {s} (close p q e) = end (rw (q, p) refl) (rw (e, q, p) refl)

  -- What the pool of `jobs` owes at the start.
  abbrev pub promised : List Job → View Out
  promised jobs = record {
    owed = of_list (expected limit work empty jobs);
    received = [];
    is_done = false;
  }

  undispatched-start :
      (jobs : List Job) → undispatched dispatching false jobs ≡ expected limit work empty jobs
  undispatched-start jobs = refl

  -- Every interleaving of the dispatcher, the goroutines and the consumer is a run of the abstract
  -- collection, which starts owing the records of all arrays (or the empty record, when there is no
  -- array), hands over one record that it owes at a time, and ends only when it owes nothing: no
  -- step of the pool loses, repeats or makes up a record, or closes the channel too early.
  pub gather_refines :
      (jobs : List Job) {s : Pool Job Out}
      → Reach limit work empty jobs s
      → Moves (promised jobs) (view s)
  gather_refines jobs here = stay
  gather_refines jobs (next r st) = then_move (gather_refines jobs r) (Step-Move st)
