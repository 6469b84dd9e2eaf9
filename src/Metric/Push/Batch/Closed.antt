-- ===== src/Metric/Push/Batch/Closed.antt =====
-- What is recorded when the result channel of a batch pusher is closed.
use mathlib.Core.List.{Perm}
use mathlib.Core.List.Perm
use csm_metrics_powermax.Prelude.{
  ℕ, ◌≡◌, refl, sym, subst, ◌∙◌, true, List, [], ◌∷◌, ◌++◌, Option, none, some, filter_map,
  flat_map, filter_map-flat_map, list_of, append_assoc, append-nil,
}
use csm_metrics_powermax.Prelude.Perms.{front_perm, settle_perm}
use csm_metrics_powermax.Metric.Fanout.{closed, Reach}
use csm_metrics_powermax.Metric.Fanout.Invariant.{middle-ne-nil}
use csm_metrics_powermax.Metric.Fanout.Sends.{closed_silent}
use csm_metrics_powermax.Metric.Push.Batch.{
  Batch, BatchStep, gather, drained, start_call, accept, refuse, close_names, BatchReach, here,
  next,
}

module _ {Job Rec Call Out : Type 0} (limit : ℕ) (work : Job → List Rec) (empty : Rec)
    (calls : List Rec → List Call) (push : Call → Option Out) where
  abbrev pushed : List Call → List Out
  pushed cs = flat_map (λ c. list_of (push c)) cs

  pub record Inv (jobs : List Job) (s : Batch Job Rec Call Out) : Type 0 where
    pub reached : Reach limit work empty jobs s.pool
    pub idle : s.starting ≡ none → (s.pushing ≡ []) × (s.names ≡ [])
    pub owes :
        (cs : List Call)
        → s.starting ≡ some cs
        → (s.pool.phase ≡ closed)
          × Perm ((s.names ++ pushed s.pushing) ++ pushed cs) (pushed (calls s.pool.sent))
    pub done : s.is_closed ≡ true → (s.starting ≡ some []) × (s.pushing ≡ [])

  -- A goroutine that starts takes its call from those to be started.
  start-perm :
      (names one pushing rest : List Out)
      → Perm ((names ++ (one ++ pushing)) ++ rest) ((names ++ pushing) ++ (one ++ rest))
  start-perm names one pushing rest =
      simp append_assoc (Perm.append_left names (front_perm one pushing rest))

  settled :
      (names : List Out) (before : List Call) (c : Call) (after : List Call) (rest all : List Out)
      {l : Option Out}
      → push c ≡ l
      → Perm ((names ++ pushed (before ++ c ∷ after)) ++ rest) all
      → Perm (((names ++ list_of l) ++ pushed (before ++ after)) ++ rest) all
  settled names before c after rest all k h =
      Perm.trans
        (subst
          (λ l.
            Perm (((names ++ list_of l) ++ pushed (before ++ after)) ++ rest)
              ((names ++ pushed (before ++ c ∷ after)) ++ rest))
          k (Perm.append_right rest (settle_perm (λ x. list_of (push x)) names before c after)))
        h

  BatchStep-Inv :
      (jobs : List Job) {s t : Batch Job Rec Call Out}
      → BatchStep limit work empty calls push s t
      → Inv jobs s
      → Inv jobs t
  BatchStep-Inv jobs {s} (gather p m e) v = rw e (record {
    reached = Reach.next v.reached m;
    idle = v.idle;
    owes = λ cs x.
        let (c, b) = v.owes cs x in
        let (still, same) = closed_silent limit work empty jobs v.reached c m in (still, rw same b);
    done = v.done;
  })
  BatchStep-Inv jobs {s} (drained c x e) v = rw e (record {
    reached = v.reached;
    idle = λ y. cc;
    owes = λ cs y. (
      c,
      let all : calls s.pool.sent ≡ cs = cc in rw ((v.idle x).0, (v.idle x).1, all) (Perm.refl _),
    );
    done = λ y. let z = (v.done y).0 in cc;
  })
  BatchStep-Inv jobs {s} (start_call c cs x e) v = rw e (record {
    reached = v.reached;
    idle = λ y. cc;
    owes = λ ds y.
        let rest : cs ≡ ds = cc in
        let (k, b) = v.owes (c ∷ cs) x in
        (
          k,
          rw (← rest)
              (Perm.trans (start-perm s.names (list_of (push c)) (pushed s.pushing) (pushed cs)) b),
        );
    done = λ y. let z = (v.done y).0 in cc;
  })
  BatchStep-Inv jobs {s} (accept before c after o q k e) v = rw e (record {
    reached = v.reached;
    idle = λ y. absurd (middle-ne-nil before c after (sym q ∙ (v.idle y).0));
    owes = λ ds y.
        let (f, b) = v.owes ds y in
        (f, settled s.names before c after (pushed ds) (pushed (calls s.pool.sent)) k (rw q at b));
    done = λ y. absurd (middle-ne-nil before c after (sym q ∙ (v.done y).1));
  })
  BatchStep-Inv jobs {s} (refuse before c after q k e) v = rw e (record {
    reached = v.reached;
    idle = λ y. absurd (middle-ne-nil before c after (sym q ∙ (v.idle y).0));
    owes = λ ds y.
        let (f, b) = v.owes ds y in
        (
          f,
          rw (append-nil s.names) at (
              settled s.names before c after (pushed ds) (pushed (calls s.pool.sent)) k
                (rw q at b)),
        );
    done = λ y. absurd (middle-ne-nil before c after (sym q ∙ (v.done y).1));
  })
  BatchStep-Inv jobs {s} (close_names x q n e) v =
      rw e (record { reached = v.reached; idle = v.idle; owes = v.owes; done = λ _. (x, q) })

  pub BatchReach-Inv :
      (jobs : List Job) {s : Batch Job Rec Call Out}
      → BatchReach limit work empty calls push jobs s
      → Inv jobs s
  BatchReach-Inv jobs here = record {
    reached = Reach.here;
    idle = λ _. (refl, refl);
    owes = λ cs y. cc;
    done = λ e. cc;
  }
  BatchReach-Inv jobs (next r st) = BatchStep-Inv jobs st (BatchReach-Inv jobs r)

  -- In every interleaving of the pool and the pusher, once the result channel is closed the pool has
  -- been closed before, and `Collect` has received the names of those calls that succeed, out of the
  -- calls made of all records in the order of their arrival, each exactly once, up to order.
  pub batch_closed :
      (jobs : List Job) {s : Batch Job Rec Call Out}
      → BatchReach limit work empty calls push jobs s
      → s.is_closed ≡ true
      → Reach limit work empty jobs s.pool
        × (s.pool.phase ≡ closed)
        × Perm s.names (filter_map push (calls s.pool.sent))
  batch_closed jobs {s} r c =
      let v = BatchReach-Inv jobs r in
      let (started, quiet) = v.done c in
      let (f, b) = v.owes [] started in
      (
        v.reached,
        f,
        rw (filter_map-flat_map push (calls s.pool.sent))
            (rw (append-nil s.names) at (rw append-nil at (rw quiet at b))),
      )
