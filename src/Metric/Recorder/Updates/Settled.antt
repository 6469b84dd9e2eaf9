-- ===== src/Metric/Recorder/Updates/Settled.antt =====
-- The goroutines that update the labels of distinct volumes do not disturb each other.
use csm_metrics_powermax.Prelude.{
  Text, ◌≡◌, ◌≢◌, refl, sym, subst, ◌∙◌, List, [], ◌∷◌, map, Option, some, All, false,
}
use csm_metrics_powermax.Prelude.Dict.{
  IsNodup, member, lookup, insert, lookup-insert_other, lookup-insert_self,
}
use csm_metrics_powermax.Prelude.Keyed.{not_in_middle, replace_one, same_keys}
use csm_metrics_powermax.Metric.Types.{KeyValue}
use csm_metrics_powermax.Metric.Recorder.Record.{Meter}
use csm_metrics_powermax.Metric.Recorder.Topology.{
  Wrapper, topology_instrument, init_topology_metrics, update_labels,
}
use csm_metrics_powermax.Metric.Recorder.Updates.{
  UpdateStage, idle, found, storing, half_stored, updated, Updater, Move, miss, hit, no_labels,
  unchanged, changed, store_metrics, store_labels, SharedWrapper, UpdateStep, move, UpdateReach,
  start, and_then,
}
use csm_metrics_powermax.Metric.Recorder.Updates.Ways.{
  SameOf, SameOf-trans, SameOf-refl, alone_new, alone_no_labels, alone_unchanged, alone_changed,
}

abbrev pub names : {Instrument : Type 0} → List (Updater Instrument) → List Text
names us = map (λ u. u.meta_id) us

module _ {Instrument : Type 0} (meter : Meter Instrument) where
  -- What one goroutine does leaves the entries of the other volumes as they were.
  Move-SameOf :
      (u : Updater Instrument) (w : Wrapper Instrument) (st : UpdateStage Instrument)
      (w' : Wrapper Instrument) (id : Text)
      → Move meter u w st w'
      → u.meta_id ≢ id
      → SameOf meter id w' w
  Move-SameOf u w st w' id (miss _ _ _ e) n = rw e (SameOf-refl meter id w)
  Move-SameOf u w st w' id (hit _ _ _ _ e) n = rw e (SameOf-refl meter id w)
  Move-SameOf u w st w' id (no_labels _ _ _ _ e) n = rw e (SameOf-refl meter id w)
  Move-SameOf u w st w' id (unchanged _ _ _ _ _ _ e) n = rw e (SameOf-refl meter id w)
  Move-SameOf u w st w' id (changed _ current _ _ _ _ e) n =
      rw e (record { metrics = refl; labels = lookup-insert_other u.meta_id id _ w.labels n })
  Move-SameOf u w st w' id (store_metrics _ _ _ e) n =
      rw e (record {
        metrics = lookup-insert_other u.meta_id id _ w.topology_metrics n;
        labels = refl;
      })
  Move-SameOf u w st w' id (store_labels ls _ _ e) n =
      rw e (record { metrics = refl; labels = lookup-insert_other u.meta_id id _ w.labels n })

  module _ (w₀ : Wrapper Instrument) where
    -- What the goroutine of a volume does alone, on the maps of the start.
    abbrev pub alone : Text → List KeyValue → Option Instrument × Wrapper Instrument
    alone id labels = update_labels meter w₀ id labels

    -- What is known of a goroutine, by its stage.
    abbrev pub Known : Wrapper Instrument → Text → List KeyValue → UpdateStage Instrument → Type 0
    Known w id labels idle = SameOf meter id w w₀
    Known w id labels (found metrics) =
        SameOf meter id w w₀ × (lookup id w₀.topology_metrics ≡ some metrics)
    Known w id labels (storing ls) = alone id labels ≡ init_topology_metrics meter w₀ id ls
    Known w id labels (half_stored ls) =
        (alone id labels ≡ init_topology_metrics meter w₀ id ls)
        × (lookup id w.topology_metrics ≡ some (topology_instrument meter))
    Known w id labels (updated metrics) =
        (metrics ≡ (alone id labels).0) × SameOf meter id w (alone id labels).1

    abbrev pub Fits : Wrapper Instrument → Updater Instrument → Type 0
    Fits w u = Known w u.meta_id u.labels u.stage

    Known-SameOf :
        (w w' : Wrapper Instrument) (id : Text) (labels : List KeyValue)
        (st : UpdateStage Instrument)
        → SameOf meter id w' w
        → Known w id labels st
        → Known w' id labels st
    Known-SameOf w w' id labels idle e h = SameOf-trans meter e h
    Known-SameOf w w' id labels (found metrics) e (h, k) = (SameOf-trans meter e h, k)
    Known-SameOf w w' id labels (storing ls) e h = h
    Known-SameOf w w' id labels (half_stored ls) e (h, k) = (h, e.metrics ∙ k)
    Known-SameOf w w' id labels (updated metrics) e (h, k) = (h, SameOf-trans meter e k)

    -- A call that ends with the maps as they were.
    ends_unchanged :
        (w : Wrapper Instrument) (id : Text) (labels : List KeyValue) (metrics : Option Instrument)
        → alone id labels ≡ (metrics, w₀)
        → SameOf meter id w w₀
        → Known w id labels (updated metrics)
    ends_unchanged w id labels metrics e h = rw e (refl, h)

    -- A call that ends with both Stores.
    ends_stored :
        (w : Wrapper Instrument) (id : Text) (labels ls : List KeyValue)
        → Known w id labels (half_stored ls)
        → Known
            (record w { labels = insert id ls w.labels })
            id
            labels
            (updated (topology_instrument meter))
    unfolding init_topology_metrics
    ends_stored w id labels ls (e, h) = rw e (
      refl,
      record {
        metrics = h ∙ sym (lookup-insert_self id (topology_instrument meter) w₀.topology_metrics);
        labels = lookup-insert_self id ls w.labels ∙ sym (lookup-insert_self id ls w₀.labels);
      },
    )

    Move-Known :
        (u : Updater Instrument) (w : Wrapper Instrument) (st : UpdateStage Instrument)
        (w' : Wrapper Instrument)
        → Move meter u w st w'
        → Fits w u
        → Known w' u.meta_id u.labels st
    Move-Known u w st w' (miss i f j e) h =
        let known = subst (Known w u.meta_id u.labels) i h in
        rw j (alone_new meter w₀ u.meta_id u.labels (sym known.metrics ∙ f))
    Move-Known u w st w' (hit metrics i f j e) h =
        let known = subst (Known w u.meta_id u.labels) i h in
        rw (j, e) (known, sym known.metrics ∙ f)
    Move-Known u w st w' (no_labels metrics i f j e) h =
        let (same, k) = subst (Known w u.meta_id u.labels) i h in
        rw (j, e)
          (ends_unchanged w u.meta_id u.labels metrics
            (alone_no_labels meter w₀ u.meta_id u.labels metrics k (sym same.labels ∙ f)) same)
    Move-Known u w st w' (unchanged metrics current i f l j e) h =
        let (same, k) = subst (Known w u.meta_id u.labels) i h in
        rw (j, e)
          (ends_unchanged w u.meta_id u.labels metrics
            (alone_unchanged meter w₀ u.meta_id u.labels current metrics k (sym same.labels ∙ f) l)
            same)
    Move-Known u w st w' (changed metrics current i f l j e) h =
        let (same, k) = subst (Known w u.meta_id u.labels) i h in
        rw j (alone_changed meter w₀ u.meta_id u.labels current metrics k (sym same.labels ∙ f) l)
    Move-Known u w st w' (store_metrics ls i j e) h =
        let known = subst (Known w u.meta_id u.labels) i h in
        rw (j, e)
          (known, lookup-insert_self u.meta_id (topology_instrument meter) w.topology_metrics)
    Move-Known u w st w' (store_labels ls i j e) h =
        rw (j, e) (ends_stored w u.meta_id u.labels ls (subst (Known w u.meta_id u.labels) i h))

    pub record Inv (s : SharedWrapper meter) : Type 0 where
      pub distinct : IsNodup (names s.updaters)
      pub known : All (Fits s.wrapper) s.updaters
      -- The entries of a volume that no goroutine updates.
      pub frame : (id : Text) → member id (names s.updaters) ≡ false → SameOf meter id s.wrapper w₀

    at :
        (s : SharedWrapper meter) (us : List (Updater Instrument))
        → s.updaters ≡ us
        → Inv s
        → Inv (record { wrapper = s.wrapper; updaters = us })
    at s us q v = record {
      distinct = subst (λ vs. IsNodup (names vs)) q v.distinct;
      known = subst (All (Fits s.wrapper)) q v.known;
      frame = λ id h. v.frame id (subst (λ vs. member id (names vs) ≡ false) (sym q) h);
    }

    UpdateStep-Inv : {s t : SharedWrapper meter} → UpdateStep meter s t → Inv s → Inv t
    UpdateStep-Inv {s} (move before u after st w q m e) v =
        let here = at s _ q v in
        let u' : Updater Instrument = record u { stage = st } in
        let same = same_keys (λ d. d.meta_id) before u u' after refl in
        rw e (record {
          distinct = subst IsNodup (sym same) here.distinct;
          known =
              replace_one (λ d. d.meta_id) (Fits s.wrapper) (Fits w) before u u' after here.distinct
                (λ d n h.
                  Known-SameOf s.wrapper w d.meta_id d.labels d.stage
                    (Move-SameOf u s.wrapper st w d.meta_id m n) h)
                (Move-Known u s.wrapper st w m) here.known;
          frame = λ id h.
              let other = subst (λ ks. member id ks ≡ false) same h in
              SameOf-trans meter
                (Move-SameOf u s.wrapper st w id m
                  (not_in_middle (λ d. d.meta_id) id before u after other))
                (here.frame id other);
        })

    abbrev pub IsIdle : Updater Instrument → Type 0
    IsIdle u = u.stage ≡ idle

    start-known : (us : List (Updater Instrument)) → All IsIdle us → All (Fits w₀) us
    start-known [] h = tt
    start-known (u ∷ us) (i, h) = (
      subst (Known w₀ u.meta_id u.labels) (sym i) (SameOf-refl meter u.meta_id w₀),
      start-known us h,
    )

    pub UpdateReach-Inv :
        (us : List (Updater Instrument)) {s : SharedWrapper meter}
        → IsNodup (names us)
        → All IsIdle us
        → UpdateReach meter (record { wrapper = w₀; updaters = us }) s
        → Inv s
    UpdateReach-Inv us d h start = record {
      distinct = d;
      known = start-known us h;
      frame = λ id _. SameOf-refl meter id w₀;
    }
    UpdateReach-Inv us d h (and_then r st) = UpdateStep-Inv st (UpdateReach-Inv us d h r)
