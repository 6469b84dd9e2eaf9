-- ===== src/Metric/Fanout/Sound.antt =====
-- What holds of every record of every array holds of all that the pool's consumer ever receives.
use csm_metrics_powermax.Prelude.{
  ◌≡◌, sym, subst, ◌∙◌, List, [], ◌∷◌, All, All-append, All-unappend, ℕ,
}
use csm_metrics_powermax.Metric.Fanout.{
  Pool, Step, spawn, send, finish, release, send_empty, wait, close, Reach, here, next,
}
use csm_metrics_powermax.Metric.Fanout.Invariant.{Inv, Reach-Inv}

module _ {Job Out : Type 0} (limit : ℕ) (work : Job → List Out) (empty : Out)
    (P : Out → Type 0) where
  record Good (s : Pool Job Out) : Type 0 where
    received : All P s.sent
    under_way : All (All P) s.running
    to_come : All (λ j. All P (work j)) s.pending

  Step-Good :
      (jobs : List Job) {s t : Pool Job Out}
      → (jobs ≡ [] → P empty)
      → Inv limit work empty jobs s
      → Step limit work empty s t
      → Good s
      → Good t
  Step-Good jobs {s} h v (spawn j js p q room e) g =
      let (hj, hjs) : All (λ k. All P (work k)) (j ∷ js) =
        subst (All (λ k. All P (work k))) q g.to_come in
      rw e (record { received = g.received; under_way = (hj, g.under_way); to_come = hjs })
  Step-Good jobs {s} h v (send o before os after q e) g =
      let (hb, ((ho, hos), ha)) =
        All-unappend (All P) before ((o ∷ os) ∷ after) (subst (All (All P)) q g.under_way) in
      rw e (record {
        received = All-append P s.sent (o ∷ []) g.received (ho, tt);
        under_way = All-append (All P) before (os ∷ after) hb (hos, ha);
        to_come = g.to_come;
      })
  Step-Good jobs {s} h v (finish before after q e) g =
      let (hb, (_, ha)) =
        All-unappend (All P) before ([] ∷ after) (subst (All (All P)) q g.under_way) in
      rw e (record {
        received = g.received;
        under_way = All-append (All P) before after hb ha;
        to_come = g.to_come;
      })
  Step-Good jobs {s} h v (release n q e) g =
      rw e (record { received = g.received; under_way = g.under_way; to_come = g.to_come })
  Step-Good jobs {s} h v (send_empty p q x e) g = rw e (record {
    received = All-append P s.sent (empty ∷ []) g.received (h (sym (v.untouched p x) ∙ q), tt);
    under_way = g.under_way;
    to_come = g.to_come;
  })
  Step-Good jobs {s} h v (wait p q x e) g =
      rw e (record { received = g.received; under_way = g.under_way; to_come = g.to_come })
  Step-Good jobs {s} h v (close p q e) g =
      rw e (record { received = g.received; under_way = g.under_way; to_come = g.to_come })

  Reach-Good :
      (jobs : List Job) {s : Pool Job Out}
      → All (λ j. All P (work j)) jobs
      → (jobs ≡ [] → P empty)
      → Reach limit work empty jobs s
      → Good s
  Reach-Good jobs all h here = record { received = tt; under_way = tt; to_come = all }
  Reach-Good jobs all h (next r st) =
      Step-Good jobs h (Reach-Inv limit work empty jobs r) st (Reach-Good jobs all h r)

  -- Whatever holds of each record of each array, and of the empty record in case there is no array,
  -- holds of everything that has been received, at any moment of any schedule.
  pub gather_sound :
      (jobs : List Job) {s : Pool Job Out}
      → All (λ j. All P (work j)) jobs
      → (jobs ≡ [] → P empty)
      → Reach limit work empty jobs s
      → All P s.sent
  gather_sound jobs all h r = (Reach-Good jobs all h r).received
