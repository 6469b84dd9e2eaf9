-- ===== src/Metric/Recorder/Updates.antt =====
-- `updateLabels` and `initTopologyMetrics` of internal/service/metric/metrics_recorder_wrapper.go as
-- the goroutines of `pushTopologyMetrics` run them at the same time on the two maps of the wrapper: a
-- move is one Load or one Store of a map.
pub mod Ways
pub mod Settled
pub mod InTurn
use csm_metrics_powermax.Prelude.{
  Text, ◌≡◌, List, [], ◌∷◌, ◌++◌, map, Option, none, some, true, false,
}
use csm_metrics_powermax.Prelude.Dict.{lookup, insert}
use csm_metrics_powermax.Metric.Types.{KeyValue}
use csm_metrics_powermax.Metric.Recorder.Labels.{have_labels_changed}
use csm_metrics_powermax.Metric.Recorder.Record.{Meter}
use csm_metrics_powermax.Metric.Recorder.Topology.{Wrapper, topology_instrument}

-- Where a goroutine stands: before its first Load, behind the Load of an instrument, in
-- `initTopologyMetrics` before and between its two Stores, and behind the call with its result.
pub data UpdateStage (Instrument : Type 0) : Type 0 where
  idle : UpdateStage Instrument
  found : Option Instrument → UpdateStage Instrument
  storing : List KeyValue → UpdateStage Instrument
  half_stored : List KeyValue → UpdateStage Instrument
  updated : Option Instrument → UpdateStage Instrument

pub record Updater (Instrument : Type 0) : Type 0 where
  pub meta_id : Text
  pub labels : List KeyValue
  pub stage : UpdateStage Instrument

module _ {Instrument : Type 0} (meter : Meter Instrument) where
  -- What the goroutine `u` does next: from the maps `w` to the maps `w'` and the stage `st`.
  pub data Move (u : Updater Instrument) (w : Wrapper Instrument) (st : UpdateStage Instrument)
      (w' : Wrapper Instrument) : Type 0 where
    miss :
        u.stage ≡ idle
        → lookup u.meta_id w.topology_metrics ≡ none
        → st ≡ storing u.labels
        → w' ≡ w
        → Move u w st w'
    hit :
        (metrics : Option Instrument)
        → u.stage ≡ idle
        → lookup u.meta_id w.topology_metrics ≡ some metrics
        → st ≡ found metrics
        → w' ≡ w
        → Move u w st w'
    no_labels :
        (metrics : Option Instrument)
        → u.stage ≡ found metrics
        → lookup u.meta_id w.labels ≡ none
        → st ≡ updated metrics
        → w' ≡ w
        → Move u w st w'
    unchanged :
        (metrics : Option Instrument) (current : List KeyValue)
        → u.stage ≡ found metrics
        → lookup u.meta_id w.labels ≡ some current
        → (have_labels_changed current u.labels).0 ≡ false
        → st ≡ updated metrics
        → w' ≡ w
        → Move u w st w'
    -- `HaveLabelsChanged` writes into the stored slice, so the map has the new values at once.
    changed :
        (metrics : Option Instrument) (current : List KeyValue)
        → u.stage ≡ found metrics
        → lookup u.meta_id w.labels ≡ some current
        → (have_labels_changed current u.labels).0 ≡ true
        → st ≡ storing (have_labels_changed current u.labels).1
        → w'
          ≡ record w { labels = insert u.meta_id (have_labels_changed current u.labels).1 w.labels }
        → Move u w st w'
    store_metrics :
        (ls : List KeyValue)
        → u.stage ≡ storing ls
        → st ≡ half_stored ls
        → w' ≡ record w {
          topology_metrics = insert u.meta_id (topology_instrument meter) w.topology_metrics;
        }
        → Move u w st w'
    store_labels :
        (ls : List KeyValue)
        → u.stage ≡ half_stored ls
        → st ≡ updated (topology_instrument meter)
        → w' ≡ record w { labels = insert u.meta_id ls w.labels }
        → Move u w st w'

  pub record SharedWrapper : Type 0 where
    pub wrapper : Wrapper Instrument
    pub updaters : List (Updater Instrument)

  -- One of the goroutines moves.
  pub data UpdateStep (s t : SharedWrapper) : Type 0 where
    move :
        (before : List (Updater Instrument)) (u : Updater Instrument)
        (after : List (Updater Instrument)) (st : UpdateStage Instrument) (w : Wrapper Instrument)
        → s.updaters ≡ before ++ u ∷ after
        → Move u s.wrapper st w
        → t ≡ record { wrapper = w; updaters = before ++ record u { stage = st } ∷ after }
        → UpdateStep s t

  pub data UpdateReach (s : SharedWrapper) : SharedWrapper → Type 0 where
    start : UpdateReach s s
    and_then : {t u : SharedWrapper} → UpdateReach s t → UpdateStep t u → UpdateReach s u
