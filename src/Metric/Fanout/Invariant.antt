-- ===== src/Metric/Fanout/Invariant.antt =====
-- What holds of the pool in every state that it reaches.
use mathlib.Core.List.{Perm, perm_middle, perm_append_comm}
use mathlib.Core.List.Perm
use csm_metrics_powermax.Prelude.{
  ℕ, ◌+◌, ◌≤◌, ◌≡◌, ◌≢◌, refl, sym, subst, ap, Bool-cases, inl, inr, ◌∙◌, true, false, List, [],
  ◌∷◌, ◌++◌, arith, length, length-append, flat_map, append_assoc, append-nil,
}
use csm_metrics_powermax.Metric.Fanout.{
  Phase, dispatching, closed, Pool, start, Step, spawn, send, finish, release, send_empty, wait,
  close, Reach, here, next, expected,
}

abbrev pub flatten : {A : Type 0} → List (List A) → List A
flatten xs = flat_map (λ x. x) xs

pub flatten-append :
    {A : Type 0} (xs ys : List (List A)) → flatten (xs ++ ys) ≡ flatten xs ++ flatten ys
flatten-append [] ys = refl
flatten-append (x ∷ xs) ys = rw (flatten-append xs ys, append_assoc)

pub middle-ne-nil : {A : Type 0} (xs : List A) (a : A) (ys : List A) → xs ++ a ∷ ys ≢ []
middle-ne-nil [] a ys e = cc
middle-ne-nil (x ∷ xs) a ys e = cc

module _ {Job Out : Type 0} (limit : ℕ) (work : Job → List Out) (empty : Out) where
  -- Records received, and those still to come.
  abbrev account : Pool Job Out → List Out
  account s = s.sent ++ (flatten s.running ++ flat_map work s.pending)

  abbrev target : Phase → List Job → List Out
  target dispatching jobs = flat_map work jobs
  target _ jobs = expected limit work empty jobs

  pub record Inv (jobs : List Job) (s : Pool Job Out) : Type 0 where
    -- Never more queries under way than the semaphore has slots.
    pub in_flight : length s.running + s.releasing ≤ limit
    pub balanced : Perm (account s) (target s.phase jobs)
    pub untouched : s.phase ≡ dispatching → s.exported ≡ false → s.pending ≡ jobs
    pub some_job : s.exported ≡ true → jobs ≢ []
    pub drained : s.phase ≢ dispatching → s.pending ≡ []
    pub quiet : s.phase ≡ closed → s.running ≡ []

  start-Inv : (jobs : List Job) → Inv jobs (start jobs)
  start-Inv jobs = record {
    in_flight = omega arith;
    balanced = Perm.refl _;
    untouched = λ _ _. refl;
    some_job = λ e. cc;
    drained = λ n. absurd (n refl);
    quiet = λ e. refl;
  }

  -- Taking a record out of one goroutine's list puts it at the end of what was received.
  send-perm :
      (sent : List Out) (o : Out) (before : List (List Out)) (os : List Out)
      (after : List (List Out)) (rest : List Out)
      → Perm
          ((sent ++ o ∷ []) ++ (flatten (before ++ os ∷ after) ++ rest))
          (sent ++ (flatten (before ++ (o ∷ os) ∷ after) ++ rest))
  send-perm sent o before os after rest =
      rw (flatten-append before (os ∷ after), flatten-append before ((o ∷ os) ∷ after))
        (simp append_assoc (
          Perm.append_left sent
            (Perm.symm (perm_middle (flatten before) (os ++ (flatten after ++ rest))))))

  spawn-perm :
      (sent one running rest : List Out)
      → Perm (sent ++ ((one ++ running) ++ rest)) (sent ++ (running ++ (one ++ rest)))
  spawn-perm sent one running rest = simp append_assoc (
      Perm.append_left sent (
        rw (← append_assoc, ← append_assoc)
          (Perm.append_right rest (perm_append_comm one running))))

  insert-perm :
      (o : Out) (sent rest : List Out) → Perm ((sent ++ o ∷ []) ++ rest) (o ∷ (sent ++ rest))
  insert-perm o sent rest = simp append_assoc (perm_middle sent rest)

  pub expected-eq :
      (jobs : List Job) → jobs ≢ [] → flat_map work jobs ≡ expected limit work empty jobs
  expected-eq [] h = absurd (h refl)
  expected-eq (j ∷ js) h = refl

  Step-balanced :
      (jobs : List Job) {s t : Pool Job Out}
      → Step limit work empty s t
      → Inv jobs s
      → Perm (account t) (target t.phase jobs)
  Step-balanced jobs {s} (spawn j js p q room e) v = rw e (
      Perm.trans (spawn-perm s.sent (work j) (flatten s.running) (flat_map work js))
        (rw q at v.balanced))
  Step-balanced jobs {s} (send o before os after q e) v = rw e (
      Perm.trans (send-perm s.sent o before os after (flat_map work s.pending))
        (rw q at v.balanced))
  Step-balanced jobs {s} (finish before after q e) v =
      rw (e, flatten-append before after)
        (rw (← flatten-append before ([] ∷ after), ← q) v.balanced)
  Step-balanced jobs {s} (release n q e) v = rw e v.balanced
  Step-balanced jobs {s} (send_empty p q x e) v =
      let none_left : [] ≡ jobs = sym q ∙ v.untouched p x in
      rw (e, ← none_left)
        (Perm.trans (insert-perm empty s.sent (flatten s.running ++ flat_map work s.pending)) (
          Perm.cons empty (
            subst (λ js. Perm (account s) (flat_map work js)) (sym none_left)
              (rw p at v.balanced))))
  Step-balanced jobs {s} (wait p q x e) v =
      rw (e, ← expected-eq jobs (v.some_job x)) (rw p at v.balanced)
  Step-balanced jobs {s} (close p q e) v = rw e (rw p at v.balanced)

  Step-in_flight :
      {s t : Pool Job Out}
      → Step limit work empty s t
      → length s.running + s.releasing ≤ limit
      → length t.running + t.releasing ≤ limit
  Step-in_flight {s} (spawn j js p q room e) h = rw e (omega arith)
  Step-in_flight {s} (send o before os after q e) h = rw e (
      omega (
        arith,
        ap length q,
        length-append before (os ∷ after),
        length-append before ((o ∷ os) ∷ after),
      ))
  Step-in_flight {s} (finish before after q e) h =
      rw e
        (omega (arith, ap length q, length-append before after, length-append before ([] ∷ after)))
  Step-in_flight {s} (release n q e) h = rw e (omega arith)
  Step-in_flight {s} (send_empty p q x e) h = rw e h
  Step-in_flight {s} (wait p q x e) h = rw e h
  Step-in_flight {s} (close p q e) h = rw e h

  pub Step-Inv :
      (jobs : List Job) {s t : Pool Job Out} → Step limit work empty s t → Inv jobs s → Inv jobs t
  Step-Inv jobs {s} {t} st v = record {
    in_flight = Step-in_flight st v.in_flight;
    balanced = Step-balanced jobs st v;
    untouched = Step-untouched st;
    some_job = Step-some_job st;
    drained = Step-drained st;
    quiet = Step-quiet st;
  }
    where
      Step-untouched :
          Step limit work empty s t → t.phase ≡ dispatching → t.exported ≡ false → t.pending ≡ jobs
      Step-untouched (spawn j js p q room e) = rw e (λ _ x. cc)
      Step-untouched (send o before os after q e) = rw e v.untouched
      Step-untouched (finish before after q e) = rw e v.untouched
      Step-untouched (release n q e) = rw e v.untouched
      Step-untouched (send_empty p q x e) = rw e (λ x. cc)
      Step-untouched (wait p q x e) = rw e (λ x. cc)
      Step-untouched (close p q e) = rw e (λ x. cc)

      Step-some_job : Step limit work empty s t → t.exported ≡ true → jobs ≢ []
      Step-some_job (spawn j js p q room e) = rw e (λ _ h. elim (Bool-cases s.exported) [
        | inl x ↦ v.some_job x h
        | inr x ↦ cc (v.untouched p x)
      ])
      Step-some_job (send o before os after q e) = rw e v.some_job
      Step-some_job (finish before after q e) = rw e v.some_job
      Step-some_job (release n q e) = rw e v.some_job
      Step-some_job (send_empty p q x e) = rw e v.some_job
      Step-some_job (wait p q x e) = rw e v.some_job
      Step-some_job (close p q e) = rw e v.some_job

      Step-drained : Step limit work empty s t → t.phase ≢ dispatching → t.pending ≡ []
      Step-drained (spawn j js p q room e) = rw e (λ n. absurd (n p))
      Step-drained (send o before os after q e) = rw e v.drained
      Step-drained (finish before after q e) = rw e v.drained
      Step-drained (release n q e) = rw e v.drained
      Step-drained (send_empty p q x e) = rw e (λ _. q)
      Step-drained (wait p q x e) = rw e (λ _. q)
      Step-drained (close p q e) = rw e (λ _. v.drained (λ d. cc))

      Step-quiet : Step limit work empty s t → t.phase ≡ closed → t.running ≡ []
      Step-quiet (spawn j js p q room e) = rw e (λ c. cc)
      Step-quiet (send o before os after q e) =
          rw e (λ c. absurd (middle-ne-nil before (o ∷ os) after (sym q ∙ v.quiet c)))
      Step-quiet (finish before after q e) =
          rw e (λ c. absurd (middle-ne-nil before [] after (sym q ∙ v.quiet c)))
      Step-quiet (release n q e) = rw e v.quiet
      Step-quiet (send_empty p q x e) = rw e (λ c. cc)
      Step-quiet (wait p q x e) = rw e (λ c. cc)
      Step-quiet (close p q e) = rw e (λ _. q)

  pub Reach-Inv : (jobs : List Job) {s : Pool Job Out} → Reach limit work empty jobs s → Inv jobs s
  Reach-Inv jobs here = start-Inv jobs
  Reach-Inv jobs (next r st) = Step-Inv jobs st (Reach-Inv jobs r)

  -- In every interleaving, at most `limit` arrays are being queried at a time.
  pub gather_in_flight :
      (jobs : List Job) {s : Pool Job Out}
      → Reach limit work empty jobs s
      → length s.running ≤ limit
  gather_in_flight jobs r = let v = Reach-Inv jobs r in omega (arith, v.in_flight)

  -- In every interleaving, once the channel is closed the consumer has received the records of
  -- every array, each exactly once up to order, or the one empty record if there is no array.
  pub gather_closed :
      (jobs : List Job) {s : Pool Job Out}
      → Reach limit work empty jobs s
      → s.phase ≡ closed
      → Perm s.sent (expected limit work empty jobs)
  gather_closed jobs {s} r c =
      let v = Reach-Inv jobs r in
      rw append-nil at (rw (v.quiet c, v.drained (λ d. cc), c) at v.balanced)
