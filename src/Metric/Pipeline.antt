-- ===== src/Metric/Pipeline.antt =====
-- Two stages of goroutines in a row, as `Collect` of internal/service/metric/topology_metrics.go sets
-- them up: `volumeServer` fills a channel, `gatherTopologyMetrics` starts a goroutine for each item
-- it takes, `pushTopologyMetrics` one for each record it is sent, and each closes its channel behind
-- its last goroutine. A step is one channel or wait-group operation.
pub mod Closed
pub mod Progress
use csm_metrics_powermax.Prelude.{◌≡◌, Bool, true, false, List, [], ◌∷◌, ◌++◌, Option, none, some}

pub record Line (In Mid Out : Type 0) : Type 0 where
  -- Items that the gatherer has not taken from the channel.
  pub served : List In
  -- For each goroutine of the gatherer that has not sent its record: its item.
  pub gathering : List In
  pub gather_closed : Bool
  -- For each goroutine of the pusher that is not done: its record.
  pub pushing : List Mid
  pub push_closed : Bool
  -- What the consumer has received, in order.
  pub sent : List Out

abbrev pub start : {In Mid Out : Type 0} → List In → Line In Mid Out
start items = record {
  served = items;
  gathering = [];
  gather_closed = false;
  pushing = [];
  push_closed = false;
  sent = [];
}

-- `first` makes the record of an item, `second` pushes a record: `none` is a failure, which is logged.
module _ {In Mid Out : Type 0} (first : In → Mid) (second : Mid → Option Out) where
  pub data LineStep (s t : Line In Mid Out) : Type 0 where
    take :
        (v : In) (vs : List In)
        → s.served ≡ v ∷ vs
        → t ≡ record s { served = vs; gathering = v ∷ s.gathering }
        → LineStep s t
    hand :
        (before : List In) (v : In) (after : List In)
        → s.gathering ≡ before ++ v ∷ after
        → t ≡ record s { gathering = before ++ after; pushing = first v ∷ s.pushing }
        → LineStep s t
    accept :
        (before : List Mid) (r : Mid) (after : List Mid) (o : Out)
        → s.pushing ≡ before ++ r ∷ after
        → second r ≡ some o
        → t ≡ record s { pushing = before ++ after; sent = s.sent ++ o ∷ [] }
        → LineStep s t
    refuse :
        (before : List Mid) (r : Mid) (after : List Mid)
        → s.pushing ≡ before ++ r ∷ after
        → second r ≡ none
        → t ≡ record s { pushing = before ++ after }
        → LineStep s t
    close_gather :
        s.served ≡ []
        → s.gathering ≡ []
        → s.gather_closed ≡ false
        → t ≡ record s { gather_closed = true }
        → LineStep s t
    close_push :
        s.gather_closed ≡ true
        → s.pushing ≡ []
        → s.push_closed ≡ false
        → t ≡ record s { push_closed = true }
        → LineStep s t

  pub data LineReach (items : List In) : Line In Mid Out → Type 0 where
    here : LineReach items (start items)
    next : {s t : Line In Mid Out} → LineReach items s → LineStep s t → LineReach items t
