-- ===== src/Examples/Recordings.antt =====
-- The recorder, with a meter that makes every instrument.
use csm_metrics_powermax.Prelude.{
  ℕ, Text, ok, codes, text_eq, List, [], ◌∷◌, none, some, All, Option, refl, length,
}
use csm_metrics_powermax.Metric.Capacity.Push.{attr}
use csm_metrics_powermax.Metric.Types.{KeyValue}
use csm_metrics_powermax.Metric.Recorder.Labels.{have_labels_changed, compare_label}
use csm_metrics_powermax.Metric.Recorder.Record.{Meter}
use csm_metrics_powermax.Metric.Recorder.Topology.{Wrapper}
use csm_metrics_powermax.Metric.Recorder.Updates.{
  UpdateStage, idle, found, storing, half_stored, updated, Updater, SharedWrapper, Move, miss, hit,
  changed, store_metrics, store_labels, UpdateStep, move, UpdateReach, start, and_then,
}
use csm_metrics_powermax.Metric.Recorder.Updates.Ways.{SameOf}
use csm_metrics_powermax.Metric.Recorder.Updates.InTurn.{
  HasItsOwn, updates_in_turn, updates_interleave,
}
use csm_metrics_powermax.Prelude.Dict.{lookup, insert, member}

-- An instrument is the length of its name.
abbrev meter : Meter ℕ
meter = record { up_down_counter = λ name. ok (length name); register_callback = λ is. none }

abbrev labels : List KeyValue
labels = attr (codes "Driver") (codes "new") ∷ attr (codes "Namespace") (codes "default") ∷ []

abbrev stored : List KeyValue
stored = attr (codes "Driver") (codes "old") ∷ attr (codes "Zone") (codes "a") ∷ []

abbrev wrapper : Wrapper ℕ
wrapper = record {
  labels = (codes "pv1", stored) ∷ [];
  topology_metrics = (codes "pv1", some 3) ∷ [];
}

-- One goroutine finds the first volume with old labels, the other does not find the second: each
-- runs between the Loads and Stores of the other.
abbrev pv1 : Text
pv1 = codes "pv1"

abbrev pv2 : Text
pv2 = codes "pv2"

abbrev updater : Text → UpdateStage ℕ → Updater ℕ
updater id stage = record { meta_id = id; labels = labels; stage = stage }

abbrev both : List (Updater ℕ)
both = updater pv1 idle ∷ updater pv2 idle ∷ []

abbrev fresh : List KeyValue
fresh = attr (codes "Driver") (codes "new") ∷ attr (codes "Zone") (codes "a") ∷ []

abbrev instrument : Option ℕ
instrument = some 23

abbrev renewed : Wrapper ℕ
renewed = record wrapper { labels = insert pv1 fresh wrapper.labels }

abbrev one_stored : Wrapper ℕ
one_stored = record renewed { topology_metrics = insert pv2 instrument renewed.topology_metrics }

abbrev both_stored : Wrapper ℕ
both_stored = record one_stored {
  topology_metrics = insert pv1 instrument one_stored.topology_metrics;
}

abbrev first_over : Wrapper ℕ
first_over = record both_stored { labels = insert pv1 fresh both_stored.labels }

abbrev at_end : Wrapper ℕ
at_end = record first_over { labels = insert pv2 labels first_over.labels }

abbrev finished : SharedWrapper meter
finished = record {
  wrapper = at_end;
  updaters = updater pv1 (updated instrument) ∷ updater pv2 (updated instrument) ∷ [];
}

-- A move of the first goroutine, and one of the second.
first :
    {w w' : Wrapper ℕ} {s st : UpdateStage ℕ} (t : UpdateStage ℕ)
    → Move meter (updater pv1 s) w st w'
    → UpdateStep meter
        (record { wrapper = w; updaters = updater pv1 s ∷ updater pv2 t ∷ [] })
        (record { wrapper = w'; updaters = updater pv1 st ∷ updater pv2 t ∷ [] })
first {w} {w'} {s} {st} t m = move [] (updater pv1 s) (updater pv2 t ∷ []) st w' refl m refl

second :
    {w w' : Wrapper ℕ} {s st : UpdateStage ℕ} (t : UpdateStage ℕ)
    → Move meter (updater pv2 s) w st w'
    → UpdateStep meter
        (record { wrapper = w; updaters = updater pv1 t ∷ updater pv2 s ∷ [] })
        (record { wrapper = w'; updaters = updater pv1 t ∷ updater pv2 st ∷ [] })
second {w} {w'} {s} {st} t m = move (updater pv1 t ∷ []) (updater pv2 s) [] st w' refl m refl

interleaved : UpdateReach meter (record { wrapper = wrapper; updaters = both }) finished
unfolding lookup insert text_eq have_labels_changed compare_label
interleaved =
    let s1 = and_then start (first idle (hit (some 3) refl refl refl refl)) in
    let s2 = and_then s1 (second (found (some 3)) (miss refl refl refl refl)) in
    let s3 =
      and_then s2 (first (storing labels) (changed (some 3) stored refl refl refl refl refl)) in
    let s4 = and_then s3 (second (storing fresh) (store_metrics labels refl refl refl)) in
    let s5 = and_then s4 (first (half_stored labels) (store_metrics fresh refl refl refl)) in
    let s6 = and_then s5 (first (half_stored labels) (store_labels fresh refl refl refl)) in
    and_then s6 (second (updated instrument) (store_labels labels refl refl refl))

updates_interleave_example :
    All (HasItsOwn meter wrapper) finished.updaters
    × SameOf meter pv1 finished.wrapper (updates_in_turn meter wrapper both)
unfolding member text_eq
updates_interleave_example =
    updates_interleave meter wrapper both pv1 (refl, (refl, tt)) (refl, (refl, tt)) interleaved
      ((instrument, refl), ((instrument, refl), tt))
