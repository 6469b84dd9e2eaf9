-- ===== src/Metric/Push/Batch.antt =====
-- `pushCapacityMetrics` of internal/service/metric/capacity_metrics.go behind its gatherer: it reads
-- the channel to its end, and only then starts a goroutine for each call that it makes of all records.
pub mod Closed
pub mod Progress
use csm_metrics_powermax.Prelude.{
  ℕ, ◌≡◌, Bool, true, false, List, [], ◌∷◌, ◌++◌, Option, none, some,
}
use csm_metrics_powermax.Metric.Fanout.{Pool, Step, closed}
use csm_metrics_powermax.Metric.Fanout

pub record Batch (Job Rec Call Out : Type 0) : Type 0 where
  -- The gatherer; what its consumer, here the pusher, has received stands in `sent`.
  pub pool : Pool Job Rec
  -- The calls whose goroutines the loops over the maps have still to start; none until the channel
  -- is read to its end.
  pub starting : Option (List Call)
  -- For each goroutine of the pusher that is not done: its call.
  pub pushing : List Call
  pub is_closed : Bool
  -- What `Collect` has received.
  pub names : List Out

abbrev pub start : {Job Rec Call Out : Type 0} → List Job → Batch Job Rec Call Out
start jobs = record {
  pool = Fanout.start jobs;
  starting = none;
  pushing = [];
  is_closed = false;
  names = [];
}

-- `calls` are those made of the records in their order of arrival, `push` is a call of the recorder.
module _ {Job Rec Call Out : Type 0} (limit : ℕ) (work : Job → List Rec) (empty : Rec)
    (calls : List Rec → List Call) (push : Call → Option Out) where
  pub data BatchStep (s t : Batch Job Rec Call Out) : Type 0 where
    gather :
        (p : Pool Job Rec)
        → Step limit work empty s.pool p
        → t ≡ record s { pool = p }
        → BatchStep s t
    drained :
        s.pool.phase ≡ closed
        → s.starting ≡ none
        → t ≡ record s { starting = some (calls s.pool.sent) }
        → BatchStep s t
    start_call :
        (c : Call) (cs : List Call)
        → s.starting ≡ some (c ∷ cs)
        → t ≡ record s { starting = some cs; pushing = c ∷ s.pushing }
        → BatchStep s t
    accept :
        (before : List Call) (c : Call) (after : List Call) (o : Out)
        → s.pushing ≡ before ++ c ∷ after
        → push c ≡ some o
        → t ≡ record s { pushing = before ++ after; names = s.names ++ o ∷ [] }
        → BatchStep s t
    refuse :
        (before : List Call) (c : Call) (after : List Call)
        → s.pushing ≡ before ++ c ∷ after
        → push c ≡ none
        → t ≡ record s { pushing = before ++ after }
        → BatchStep s t
    close_names :
        s.starting ≡ some []
        → s.pushing ≡ []
        → s.is_closed ≡ false
        → t ≡ record s { is_closed = true }
        → BatchStep s t

  pub data BatchReach (jobs : List Job) : Batch Job Rec Call Out → Type 0 where
    here : BatchReach jobs (start jobs)
    next : {s t : Batch Job Rec Call Out} → BatchReach jobs s → BatchStep s t → BatchReach jobs t
