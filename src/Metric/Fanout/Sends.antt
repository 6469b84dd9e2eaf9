-- ===== src/Metric/Fanout/Sends.antt =====
-- What the consumer of the pool sees of a single step.
use csm_metrics_powermax.Prelude.{◌≡◌, refl, sym, ◌∙◌, ◌⊎◌, inl, inr, ℕ, List, [], ◌∷◌, ◌++◌}
use csm_metrics_powermax.Metric.Fanout.{
  closed, Pool, Step, spawn, send, finish, release, send_empty, wait, close, Reach,
}
use csm_metrics_powermax.Metric.Fanout.Invariant.{Reach-Inv, middle-ne-nil}

module _ {Job Out : Type 0} (limit : ℕ) (work : Job → List Out) (empty : Out) where
  -- A step hands over one record or none.
  pub Step-sent :
      {s t : Pool Job Out}
      → Step limit work empty s t
      → (t.sent ≡ s.sent) ⊎ ((o : Out) × (t.sent ≡ s.sent ++ o ∷ []))
  Step-sent (spawn j js p q room e) = rw e (inl refl)
  Step-sent (send o before os after q e) = rw e (inr (o, refl))
  Step-sent (finish before after q e) = rw e (inl refl)
  Step-sent (release n q e) = rw e (inl refl)
  Step-sent (send_empty p q x e) = rw e (inr (empty, refl))
  Step-sent (wait p q x e) = rw e (inl refl)
  Step-sent (close p q e) = rw e (inl refl)

  -- Behind `close(ch)` nothing is sent, and the channel stays closed.
  pub closed_silent :
      (jobs : List Job) {s t : Pool Job Out}
      → Reach limit work empty jobs s
      → s.phase ≡ closed
      → Step limit work empty s t
      → (t.phase ≡ closed) × (t.sent ≡ s.sent)
  closed_silent jobs r c (spawn j js p q room e) = cc
  closed_silent jobs r c (send o before os after q e) =
      absurd
        (middle-ne-nil before (o ∷ os) after (sym q ∙ (Reach-Inv limit work empty jobs r).quiet c))
  closed_silent jobs r c (finish before after q e) = rw e (c, refl)
  closed_silent jobs r c (release n q e) = rw e (c, refl)
  closed_silent jobs r c (send_empty p q x e) = cc
  closed_silent jobs r c (wait p q x e) = cc
  closed_silent jobs r c (close p q e) = cc
