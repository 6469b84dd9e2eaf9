-- ===== src/Metric/Recorder/Updates/InTurn.antt =====
-- The goroutines that update the labels of distinct volumes leave what they leave one after the other.
use csm_metrics_powermax.Prelude.{
  Text, text_eq_iff, ◌≡◌, inl, inr, refl, sym, ap, subst, ◌∙◌, List, [], ◌∷◌, ◌++◌, Option,
  Bool-cases, All, All-both, false, arith,
}
use csm_metrics_powermax.Prelude.Dict.{IsNodup, member}
use csm_metrics_powermax.Prelude.Keyed.{found_in, others_hold}
use csm_metrics_powermax.Metric.Recorder.Record.{Meter}
use csm_metrics_powermax.Metric.Recorder.Topology.{Wrapper, update_labels}
use csm_metrics_powermax.Metric.Recorder.Updates.{
  UpdateStage, idle, updated, Updater, SharedWrapper, move, UpdateReach, start, and_then,
}
use csm_metrics_powermax.Metric.Recorder.Updates.Settled.{names, UpdateReach-Inv, Known, Fits}
use csm_metrics_powermax.Metric.Recorder.Updates.Ways.{
  SameOf, SameOf-trans, SameOf-refl, SameOf-sym, update_labels-other, update_labels-own,
}

module _ {Instrument : Type 0} (meter : Meter Instrument) where
  -- The calls one after the other.
  unfoldable pub updates_in_turn :
      Wrapper Instrument → List (Updater Instrument) → Wrapper Instrument
  updates_in_turn w [] = w
  updates_in_turn w (u ∷ us) = updates_in_turn (update_labels meter w u.meta_id u.labels).1 us

  turn-other :
      (us : List (Updater Instrument)) (w : Wrapper Instrument) (id : Text)
      → member id (names us) ≡ false
      → SameOf meter id (updates_in_turn w us) w
  unfolding updates_in_turn member
  turn-other [] w id h = SameOf-refl meter id w
  turn-other (u ∷ us) w id h =
      SameOf-trans meter
        (turn-other us (update_labels meter w u.meta_id u.labels).1 id (ground arith))
        (update_labels-other meter w u.meta_id id u.labels
          (λ e. ground (arith, text_eq_iff u.meta_id id)))

  module _ (w₀ : Wrapper Instrument) where
    abbrev AsAlone : Wrapper Instrument → Updater Instrument → Type 0
    AsAlone w u = SameOf meter u.meta_id w (update_labels meter w₀ u.meta_id u.labels).1

    AsAt : Wrapper Instrument → Updater Instrument → Type 0
    AsAt w u = SameOf meter u.meta_id w w₀

    turn-AsAlone :
        (us : List (Updater Instrument)) (w : Wrapper Instrument)
        → IsNodup (names us)
        → All (AsAt w) us
        → All (AsAlone (updates_in_turn w us)) us
    unfolding updates_in_turn AsAt
    turn-AsAlone [] w d h = tt
    turn-AsAlone (u ∷ us) w (new, d) (h, hs) =
        let w' : Wrapper Instrument = (update_labels meter w u.meta_id u.labels).1 in
        (
          SameOf-trans meter (turn-other us w' u.meta_id new)
              (update_labels-own meter w w₀ u.meta_id u.labels h),
          turn-AsAlone us w' d (
              others_hold (λ v. v.meta_id) (AsAt w) (AsAt w') u us new
                (λ v n k.
                  SameOf-trans meter (update_labels-other meter w u.meta_id v.meta_id u.labels n) k)
                hs),
        )

    AsAt-start : (us : List (Updater Instrument)) → All (AsAt w₀) us
    unfolding AsAt
    AsAt-start [] = tt
    AsAt-start (u ∷ us) = (SameOf-refl meter u.meta_id w₀, AsAt-start us)

    -- The stages do not matter to the calls in turn.
    same_turn :
        (before : List (Updater Instrument)) (u : Updater Instrument)
        (after : List (Updater Instrument)) (st : UpdateStage Instrument) (w : Wrapper Instrument)
        → updates_in_turn w (before ++ record u { stage = st } ∷ after)
          ≡ updates_in_turn w (before ++ u ∷ after)
    unfolding updates_in_turn
    same_turn [] u after st w = refl
    same_turn (b ∷ before) u after st w =
        same_turn before u after st (update_labels meter w b.meta_id b.labels).1

    reach-turn :
        (us : List (Updater Instrument)) {s : SharedWrapper meter}
        → UpdateReach meter (record { wrapper = w₀; updaters = us }) s
        → updates_in_turn w₀ s.updaters ≡ updates_in_turn w₀ us
    reach-turn us start = refl
    reach-turn us (and_then {t} r (move before u after st w q m e)) =
        ap (λ x. updates_in_turn w₀ x.updaters) e
        ∙ same_turn before u after st w₀
        ∙ ap (updates_in_turn w₀) (sym q)
        ∙ reach-turn us r

    abbrev pub IsOver : Updater Instrument → Type 0
    IsOver u = (metrics : Option Instrument) × (u.stage ≡ updated metrics)

    -- The result of a call is that of the call alone.
    abbrev pub HasItsOwn : Updater Instrument → Type 0
    HasItsOwn u = u.stage ≡ updated (update_labels meter w₀ u.meta_id u.labels).0

    over-known :
        (w : Wrapper Instrument) (us : List (Updater Instrument))
        → All IsOver us
        → All (Fits meter w₀ w) us
        → All HasItsOwn us × All (AsAlone w) us
    over-known w [] o h = (tt, tt)
    over-known w (u ∷ us) ((metrics, i), o) (h, hs) =
        let (result, same) = subst (Known meter w₀ w u.meta_id u.labels) i h in
        let (results, all) = over-known w us o hs in
        ((i ∙ ap (λ r. updated r) result, results), (same, all))

    -- Recordings of distinct volumes do not disturb each other: however the Loads and Stores of
    -- their goroutines are interleaved, when all the updates of the labels are over, each has the
    -- instrument that it has alone on the maps of the start, and the two maps hold of every volume
    -- what they hold when the updates run one after the other.
    pub updates_interleave :
        (us : List (Updater Instrument)) {s : SharedWrapper meter} (id : Text)
        → IsNodup (names us)
        → All (λ u. u.stage ≡ idle) us
        → UpdateReach meter (record { wrapper = w₀; updaters = us }) s
        → All IsOver s.updaters
        → All HasItsOwn s.updaters × SameOf meter id s.wrapper (updates_in_turn w₀ us)
    updates_interleave us {s} id d h r o =
        let v = UpdateReach-Inv meter w₀ us d h r in
        let (results, shared) = over-known s.wrapper s.updaters o v.known in
        let in_turn = turn-AsAlone s.updaters w₀ v.distinct (AsAt-start s.updaters) in
        (
          results,
          rw (← reach-turn us r) (elim (Bool-cases (member id (names s.updaters))) [
            | inl m ↦
                let (u, e, (p, q)) =
                  found_in (λ u. u.meta_id)
                    (λ u. AsAlone s.wrapper u × AsAlone (updates_in_turn w₀ s.updaters) u) id
                    s.updaters m
                    (All-both (AsAlone s.wrapper) (AsAlone (updates_in_turn w₀ s.updaters))
                      s.updaters shared in_turn) in
                subst (λ k. SameOf meter k s.wrapper (updates_in_turn w₀ s.updaters)) e
                  (SameOf-trans meter p (SameOf-sym meter q))
            | inr m ↦
                SameOf-trans meter (v.frame id m) (SameOf-sym meter (turn-other s.updaters w₀ id m))
          ]),
        )
