-- ===== src/Metric/Fanout.antt =====
-- The worker pool that every `gather…` function of internal/service/metric starts: a dispatcher
-- goroutine that takes a slot of the semaphore `sem` for each array, one goroutine for each array
-- that sends its records on the unbuffered channel `ch`, and the end (`wg.Wait`, `close(ch)`).
-- A step is one channel or wait-group operation; the order of steps is the scheduler's.
pub mod Invariant
pub mod Progress
pub mod Refinement
pub mod Sound
pub mod Sends
pub mod Order
pub mod Isolated
pub mod Visits
use csm_metrics_powermax.Prelude.{
  ℕ, suc, ◌+◌, ◌<◌, ◌≡◌, Bool, true, false, List, [], ◌∷◌, ◌++◌, length, flat_map,
}

-- Where the dispatcher stands: in its loop over the arrays, in `wg.Wait()`, behind `close(ch)`.
pub data Phase : Type 0 where
  dispatching waiting closed : Phase

pub record Pool (Job Out : Type 0) : Type 0 where
  pub phase : Phase
  pub exported : Bool
  -- Arrays that the loop has still to visit.
  pub pending : List Job
  -- For each goroutine that has not called `wg.Done`: the records that it has still to send.
  pub running : List (List Out)
  -- Goroutines between `wg.Done()` and `<-sem`.
  pub releasing : ℕ
  -- What the consumer has received, in order.
  pub sent : List Out

abbrev pub start : {Job Out : Type 0} → List Job → Pool Job Out
start jobs = record {
  phase = Phase.dispatching;
  exported = false;
  pending = jobs;
  running = [];
  releasing = 0;
  sent = [];
}

-- `limit` is the capacity of `sem`, `work` the records of one array, `empty` the record that is sent
-- when there is no array at all.
module _ {Job Out : Type 0} (limit : ℕ) (work : Job → List Out) (empty : Out) where
  pub data Step (s t : Pool Job Out) : Type 0 where
    spawn :
        (j : Job) (js : List Job)
        → s.phase ≡ dispatching
        → s.pending ≡ j ∷ js
        → length s.running + s.releasing < limit
        → t ≡ record s { exported = true; pending = js; running = work j ∷ s.running }
        → Step s t
    send :
        (o : Out) (before : List (List Out)) (os : List Out) (after : List (List Out))
        → s.running ≡ before ++ (o ∷ os) ∷ after
        → t ≡ record s { running = before ++ os ∷ after; sent = s.sent ++ o ∷ [] }
        → Step s t
    finish :
        (before after : List (List Out))
        → s.running ≡ before ++ [] ∷ after
        → t ≡ record s { running = before ++ after; releasing = suc s.releasing }
        → Step s t
    release : (n : ℕ) → s.releasing ≡ suc n → t ≡ record s { releasing = n } → Step s t
    send_empty :
        s.phase ≡ dispatching
        → s.pending ≡ []
        → s.exported ≡ false
        → t ≡ record s { phase = waiting; sent = s.sent ++ empty ∷ [] }
        → Step s t
    wait :
        s.phase ≡ dispatching
        → s.pending ≡ []
        → s.exported ≡ true
        → t ≡ record s { phase = waiting }
        → Step s t
    close : s.phase ≡ waiting → s.running ≡ [] → t ≡ record s { phase = closed } → Step s t

  pub data Reach (jobs : List Job) : Pool Job Out → Type 0 where
    here : Reach jobs (start jobs)
    next : {s t : Pool Job Out} → Reach jobs s → Step s t → Reach jobs t

  -- What the channel carries in the end, in some order.
  abbrev pub expected : List Job → List Out
  expected [] = empty ∷ []
  expected (j ∷ js) = flat_map work (j ∷ js)
