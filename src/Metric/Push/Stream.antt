-- ===== src/Metric/Push/Stream.antt =====
-- `pushVolumePerformanceMetrics` and `pushStorageGroupPerformanceMetrics` of
-- internal/service/metric/performance_metrics.go behind their gatherers: a goroutine starts for each
-- record as soon as it is received, while the pool is still at work.
pub mod Closed
pub mod Progress
use csm_metrics_powermax.Prelude.{
  ℕ, ◌≡◌, Bool, true, false, List, [], ◌∷◌, ◌++◌, Option, none, some,
}
use csm_metrics_powermax.Metric.Fanout.{Pool, Step, closed}
use csm_metrics_powermax.Metric.Fanout

pub record Stream (Job Rec Out : Type 0) : Type 0 where
  -- The gatherer; what its consumer, here the pusher, has received stands in `sent`.
  pub pool : Pool Job Rec
  -- For each goroutine of the pusher that is not done: its record.
  pub pushing : List Rec
  pub is_closed : Bool
  -- What `Collect` has received.
  pub names : List Out

abbrev pub start : {Job Rec Out : Type 0} → List Job → Stream Job Rec Out
start jobs = record { pool = Fanout.start jobs; pushing = []; is_closed = false; names = [] }

-- `push` is the call of the recorder: the name that is sent on, if it succeeds.
module _ {Job Rec Out : Type 0} (limit : ℕ) (work : Job → List Rec) (empty : Rec)
    (push : Rec → Option Out) where
  pub data StreamStep (s t : Stream Job Rec Out) : Type 0 where
    gather :
        (p : Pool Job Rec)
        → Step limit work empty s.pool p
        → p.sent ≡ s.pool.sent
        → t ≡ record s { pool = p }
        → StreamStep s t
    receive :
        (p : Pool Job Rec) (r : Rec)
        → Step limit work empty s.pool p
        → p.sent ≡ s.pool.sent ++ r ∷ []
        → t ≡ record s { pool = p; pushing = r ∷ s.pushing }
        → StreamStep s t
    accept :
        (before : List Rec) (r : Rec) (after : List Rec) (o : Out)
        → s.pushing ≡ before ++ r ∷ after
        → push r ≡ some o
        → t ≡ record s { pushing = before ++ after; names = s.names ++ o ∷ [] }
        → StreamStep s t
    refuse :
        (before : List Rec) (r : Rec) (after : List Rec)
        → s.pushing ≡ before ++ r ∷ after
        → push r ≡ none
        → t ≡ record s { pushing = before ++ after }
        → StreamStep s t
    close_names :
        s.pool.phase ≡ closed
        → s.pushing ≡ []
        → s.is_closed ≡ false
        → t ≡ record s { is_closed = true }
        → StreamStep s t

  pub data StreamReach (jobs : List Job) : Stream Job Rec Out → Type 0 where
    here : StreamReach jobs (start jobs)
    next : {s t : Stream Job Rec Out} → StreamReach jobs s → StreamStep s t → StreamReach jobs t
