-- ===== src/Metric/Recorder/Updates/Ways.antt =====
-- The ways through `updateLabels`, and what each leaves of its own volume and of the others.
use csm_metrics_powermax.Prelude.{
  Text, ◌≡◌, ◌≢◌, inl, inr, Option-cases, Bool-cases, refl, sym, ◌∙◌, List, Option, none, some,
  true, false,
}
use csm_metrics_powermax.Prelude.Dict.{lookup, lookup-insert_other, lookup-insert_self}
use csm_metrics_powermax.Metric.Types.{KeyValue}
use csm_metrics_powermax.Metric.Recorder.Labels.{have_labels_changed}
use csm_metrics_powermax.Metric.Recorder.Record.{Meter}
use csm_metrics_powermax.Metric.Recorder.Topology.{Wrapper, init_topology_metrics, update_labels}

module _ {Instrument : Type 0} (meter : Meter Instrument) where
  -- Two wrappers that hold the same of a volume.
  pub record SameOf (id : Text) (v w : Wrapper Instrument) : Type 0 where
    pub metrics : lookup id v.topology_metrics ≡ lookup id w.topology_metrics
    pub labels : lookup id v.labels ≡ lookup id w.labels

  pub SameOf-trans :
      {id : Text} {u v w : Wrapper Instrument} → SameOf id u v → SameOf id v w → SameOf id u w
  SameOf-trans p q = record { metrics = p.metrics ∙ q.metrics; labels = p.labels ∙ q.labels }

  pub SameOf-refl : (id : Text) (w : Wrapper Instrument) → SameOf id w w
  SameOf-refl id w = record { metrics = refl; labels = refl }

  pub SameOf-sym : {id : Text} {v w : Wrapper Instrument} → SameOf id v w → SameOf id w v
  SameOf-sym p = record { metrics = sym p.metrics; labels = sym p.labels }

  module _ (w₀ : Wrapper Instrument) where
    -- The call alone, for each way through it.
    pub alone_new :
        (id : Text) (labels : List KeyValue)
        → lookup id w₀.topology_metrics ≡ none
        → update_labels meter w₀ id labels ≡ init_topology_metrics meter w₀ id labels
    unfolding update_labels init_topology_metrics
    alone_new id labels e = rw (update_labels, e) refl

    pub alone_no_labels :
        (id : Text) (labels : List KeyValue) (metrics : Option Instrument)
        → lookup id w₀.topology_metrics ≡ some metrics
        → lookup id w₀.labels ≡ none
        → update_labels meter w₀ id labels ≡ (metrics, w₀)
    unfolding update_labels
    alone_no_labels id labels metrics e k = rw (update_labels, e, k) refl

    pub alone_unchanged :
        (id : Text) (labels current : List KeyValue) (metrics : Option Instrument)
        → lookup id w₀.topology_metrics ≡ some metrics
        → lookup id w₀.labels ≡ some current
        → (have_labels_changed current labels).0 ≡ false
        → update_labels meter w₀ id labels ≡ (metrics, w₀)
    unfolding update_labels
    alone_unchanged id labels current metrics e k l = rw (update_labels, e, k, l) refl

    pub alone_changed :
        (id : Text) (labels current : List KeyValue) (metrics : Option Instrument)
        → lookup id w₀.topology_metrics ≡ some metrics
        → lookup id w₀.labels ≡ some current
        → (have_labels_changed current labels).0 ≡ true
        → update_labels meter w₀ id labels
          ≡ init_topology_metrics meter w₀ id (have_labels_changed current labels).1
    unfolding update_labels init_topology_metrics
    alone_changed id labels current metrics e k l = rw (update_labels, e, k, l) refl

  init-other :
      (w : Wrapper Instrument) (k id : Text) (ls : List KeyValue)
      → k ≢ id
      → SameOf id (init_topology_metrics meter w k ls).1 w
  unfolding init_topology_metrics
  init-other w k id ls n = record {
    metrics = lookup-insert_other k id _ w.topology_metrics n;
    labels = lookup-insert_other k id _ w.labels n;
  }

  init-own :
      (v w : Wrapper Instrument) (id : Text) (ls : List KeyValue)
      → SameOf id (init_topology_metrics meter v id ls).1 (init_topology_metrics meter w id ls).1
  unfolding init_topology_metrics
  init-own v w id ls = record {
    metrics =
        lookup-insert_self id _ v.topology_metrics
        ∙ sym (lookup-insert_self id _ w.topology_metrics);
    labels = lookup-insert_self id ls v.labels ∙ sym (lookup-insert_self id ls w.labels);
  }

  -- The ways through a call: it leaves the maps as they are, or stores in both. On maps that hold
  -- the same of the volume it takes the same way.
  data Way (id : Text) (labels : List KeyValue) (w : Wrapper Instrument) : Type 0 where
    left :
        (metrics : Option Instrument)
        → ((v : Wrapper Instrument)
            → SameOf id v w
            → update_labels meter v id labels ≡ (metrics, v))
        → Way id labels w
    stored :
        (ls : List KeyValue)
        → ((v : Wrapper Instrument)
            → SameOf id v w
            → update_labels meter v id labels ≡ init_topology_metrics meter v id ls)
        → Way id labels w

  way : (id : Text) (labels : List KeyValue) (w : Wrapper Instrument) → Way id labels w
  way id labels w = elim (Option-cases (lookup id w.topology_metrics)) [
    | inl e ↦ stored labels (λ v p. alone_new v id labels (p.metrics ∙ e))
    | inr (metrics, e) ↦ elim (Option-cases (lookup id w.labels)) [
      | inl k ↦
          left metrics (λ v p. alone_no_labels v id labels metrics (p.metrics ∙ e) (p.labels ∙ k))
      | inr (current, k) ↦ elim (Bool-cases (have_labels_changed current labels).0) [
        | inl l ↦
            stored (have_labels_changed current labels).1
              (λ v p. alone_changed v id labels current metrics (p.metrics ∙ e) (p.labels ∙ k) l)
        | inr l ↦
            left metrics
              (λ v p. alone_unchanged v id labels current metrics (p.metrics ∙ e) (p.labels ∙ k) l)
      ]
    ]
  ]

  pub update_labels-other :
      (w : Wrapper Instrument) (k id : Text) (labels : List KeyValue)
      → k ≢ id
      → SameOf id (update_labels meter w k labels).1 w
  update_labels-other w k id labels n = elim (way k labels w) [
    | left metrics f ↦ rw (f w (SameOf-refl k w)) (SameOf-refl id w)
    | stored ls f ↦ rw (f w (SameOf-refl k w)) (init-other w k id ls n)
  ]

  pub update_labels-own :
      (v w : Wrapper Instrument) (id : Text) (labels : List KeyValue)
      → SameOf id v w
      → SameOf id (update_labels meter v id labels).1 (update_labels meter w id labels).1
  update_labels-own v w id labels p = elim (way id labels w) [
    | left metrics f ↦ rw (f v p, f w (SameOf-refl id w)) p
    | stored ls f ↦ rw (f v p, f w (SameOf-refl id w)) (init-own v w id ls)
  ]
