-- ===== src/Metric/Fanout/Order.antt =====
-- The order in which the arrays' records arrive is the scheduler's.
use csm_metrics_powermax.Prelude.{
  ℕ, suc, ◌<◌, ◌≡◌, refl, ap, ◌∙◌, inl, inr, List, [], ◌∷◌, ◌++◌, arith, true,
}
use csm_metrics_powermax.Metric.Fanout.{closed, Pool, start, Step, spawn, send, Reach, here, next}
use csm_metrics_powermax.Metric.Fanout.Progress.{finish_within, left}
use csm_metrics_powermax.Metric.Fanout.Sends.{Step-sent}

module _ {Job Out : Type 0} (limit : ℕ) (work : Job → List Out) (empty : Out) where
  -- Reached, with a first record received.
  abbrev Led : List Job → Out → Pool Job Out → Type 0
  Led jobs a s = Reach limit work empty jobs s × ((rest : List Out) × (s.sent ≡ a ∷ rest))

  Step-Led :
      (jobs : List Job) (a : Out) (s t : Pool Job Out)
      → Led jobs a s
      → Step limit work empty s t
      → Led jobs a t
  Step-Led jobs a s t (r, (rest, e)) st = elim (Step-sent limit work empty st) [
    | inl same ↦ (next r st, (rest, same ∙ e))
    | inr (o, more) ↦ (next r st, (rest ++ o ∷ [], more ∙ ap (λ xs. xs ++ o ∷ []) e))
  ]

  -- Some schedule ends with `a` as the first record.
  abbrev pub MayBeFirst : List Job → Out → Type 0
  MayBeFirst jobs a =
      (s : Pool Job Out) × Reach limit work empty jobs s
      × (s.phase ≡ closed)
      × ((rest : List Out) × (s.sent ≡ a ∷ rest))

  finish_from :
      0 < limit → (jobs : List Job) (a : Out) (s : Pool Job Out) → Led jobs a s → MayBeFirst jobs a
  finish_from h jobs a s l =
      let (t, (r, f), c) =
        finish_within limit work empty h (Led jobs a) (Step-Led jobs a)
          (suc (left limit work empty s)) s (omega arith) l in
      (t, r, c, f)

  -- With two slots, either of the first two arrays may be the one whose record arrives first.
  pub either_first :
      1 < limit
      → (i j : Job) (js : List Job) (a b : Out) (as' bs : List Out) → work i ≡ a ∷ as'
      → work j ≡ b ∷ bs
      → MayBeFirst (i ∷ j ∷ js) a × MayBeFirst (i ∷ j ∷ js) b
  either_first h i j js a b as' bs e f = (
    finish_from (omega arith) jobs a _
        (next both (send a (work j ∷ []) as' [] (rw e) refl), ([], refl)),
    finish_from (omega arith) jobs b _
        (next both (send b [] bs (work i ∷ []) (rw f) refl), ([], refl)),
  )
    where
      jobs : List Job
      jobs = i ∷ j ∷ js

      both :
          Reach limit work empty jobs
            (record (start jobs) { exported = true; pending = js; running = work j ∷ work i ∷ [] })
      both =
          next (next here (spawn i (j ∷ js) refl refl (omega arith) refl))
            (spawn j js refl refl (omega arith) refl)
