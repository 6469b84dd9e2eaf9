-- ===== src/Service/Clients.antt =====
-- internal/service/service.go: the service's fields and the copies that its accessors hand out.
use csm_metrics_powermax.Prelude.{List, Option, some, Bool}
use csm_metrics_powermax.Prelude.Dict.{Dict}
use csm_metrics_powermax.Prelude.Int.{ℤ, pos}
use csm_metrics_powermax.Metric.Base.{BaseMetrics, Collector}
use csm_metrics_powermax.Metric.Types.{PowerMaxArray}

abbrev pub default_max_powermax_connections : ℤ
default_max_powermax_connections = pos 10

-- `none` is a nil interface, pointer or map; of the recorder, the finder and the instrumenter only
-- the presence counts. A model value never changes, so `maps.Clone` is the map itself: a nil map is
-- cloned to a nil map.
pub record PowerMaxService (F Recorder Finder : Type 0) : Type 0 where
  pub metrics_recorder : Option Recorder
  pub obs_instrumenter : Bool
  pub max_powermax_connections : ℤ
  pub powermax_clients : Option (Dict (List (PowerMaxArray F)))
  pub volume_finder : Option Finder

module _ {F Recorder Finder : Type 0} where
  unfoldable pub get_powermax_clients :
      PowerMaxService F Recorder Finder → Option (Dict (List (PowerMaxArray F)))
  get_powermax_clients s = s.powermax_clients

  unfoldable pub set_powermax_clients :
      PowerMaxService F Recorder Finder
      → Option (Dict (List (PowerMaxArray F)))
      → PowerMaxService F Recorder Finder
  set_powermax_clients s clients = record s { powermax_clients = clients }

  -- `NewBaseMetrics`, with the collector that the instance sets next.
  unfoldable pub new_base_metrics :
      {W : Type 0}
      → PowerMaxService F Recorder Finder
      → Collector W
      → BaseMetrics F W Recorder Finder
  unfolding get_powermax_clients
  new_base_metrics s c = record {
    collector = some c;
    volume_finder = s.volume_finder;
    powermax_clients = get_powermax_clients s;
    metrics_recorder = s.metrics_recorder;
    max_powermax_connections = s.max_powermax_connections;
  }
