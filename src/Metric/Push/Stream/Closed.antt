-- ===== src/Metric/Push/Stream/Closed.antt =====
-- What is recorded when the result channel of a streaming pusher is closed.
use mathlib.Core.List.{Perm, perm_append_comm}
use mathlib.Core.List.Perm
use csm_metrics_powermax.Prelude.{
  ℕ, ◌≡◌, ◌≢◌, sym, subst, ◌∙◌, true, List, [], ◌∷◌, ◌++◌, Option, filter_map, flat_map,
  filter_map-flat_map, list_of, append-nil, flat_map-append, arith, length, length-append, ap,
}
use csm_metrics_powermax.Prelude.Perms.{front_perm, settle_perm, filter_map-perm}
use csm_metrics_powermax.Metric.Fanout.{closed, Reach, expected}
use csm_metrics_powermax.Metric.Fanout.Invariant.{gather_closed, middle-ne-nil}
use csm_metrics_powermax.Metric.Fanout.Sends.{closed_silent}
use csm_metrics_powermax.Metric.Push.Stream.{
  Stream, StreamStep, gather, receive, accept, refuse, close_names, StreamReach, here, next,
}

longer : {A : Type 0} (xs : List A) (a : A) → xs ++ a ∷ [] ≢ xs
longer xs a e = omega (arith, length-append xs (a ∷ []), ap length e)

module _ {Job Rec Out : Type 0} (limit : ℕ) (work : Job → List Rec) (empty : Rec)
    (push : Rec → Option Out) where
  abbrev pushed : List Rec → List Out
  pushed rs = flat_map (λ r. list_of (push r)) rs

  pub record Inv (jobs : List Job) (s : Stream Job Rec Out) : Type 0 where
    pub reached : Reach limit work empty jobs s.pool
    pub balanced : Perm (s.names ++ pushed s.pushing) (pushed s.pool.sent)
    pub done : s.is_closed ≡ true → (s.pool.phase ≡ closed) × (s.pushing ≡ [])

  -- A goroutine that starts owes what it will send.
  begin-perm :
      (names one pushing sent : List Out)
      → Perm (names ++ pushing) sent
      → Perm (names ++ (one ++ pushing)) (sent ++ one)
  begin-perm names one pushing sent h =
      Perm.trans (front_perm names one pushing)
        (Perm.trans (Perm.append_left one h) (perm_append_comm one sent))

  StreamStep-balanced :
      {s t : Stream Job Rec Out}
      → StreamStep limit work empty push s t
      → Perm (s.names ++ pushed s.pushing) (pushed s.pool.sent)
      → Perm (t.names ++ pushed t.pushing) (pushed t.pool.sent)
  StreamStep-balanced {s} (gather p st same e) h = rw (e, same) h
  StreamStep-balanced {s} (receive p r st more e) h =
      rw (e, more, flat_map-append (λ q. list_of (push q)) s.pool.sent (r ∷ []))
        (rw (append-nil (list_of (push r)))
          (begin-perm s.names (list_of (push r)) (pushed s.pushing) (pushed s.pool.sent) h))
  StreamStep-balanced {s} (accept before r after o q k e) h = rw e (
      Perm.trans
        (subst
          (λ l.
            Perm ((s.names ++ list_of l) ++ pushed (before ++ after))
              (s.names ++ pushed (before ++ r ∷ after)))
          k (settle_perm (λ x. list_of (push x)) s.names before r after))
        (rw q at h))
  StreamStep-balanced {s} (refuse before r after q k e) h = rw e (
      Perm.trans
        (rw append-nil at (
          subst
            (λ l.
              Perm ((s.names ++ list_of l) ++ pushed (before ++ after))
                (s.names ++ pushed (before ++ r ∷ after)))
            k (settle_perm (λ x. list_of (push x)) s.names before r after)))
        (rw q at h))
  StreamStep-balanced {s} (close_names c q x e) h = rw e h

  StreamStep-Inv :
      (jobs : List Job) {s t : Stream Job Rec Out}
      → StreamStep limit work empty push s t
      → Inv jobs s
      → Inv jobs t
  StreamStep-Inv jobs {s} {t} st v = record {
    reached = keeps_reached st;
    balanced = StreamStep-balanced st v.balanced;
    done = keeps_done st;
  }
    where
      keeps_reached : StreamStep limit work empty push s t → Reach limit work empty jobs t.pool
      keeps_reached (gather p m same e) = rw e (Reach.next v.reached m)
      keeps_reached (receive p r m more e) = rw e (Reach.next v.reached m)
      keeps_reached (accept before r after o q k e) = rw e v.reached
      keeps_reached (refuse before r after q k e) = rw e v.reached
      keeps_reached (close_names c q x e) = rw e v.reached

      keeps_done :
          StreamStep limit work empty push s t
          → t.is_closed ≡ true
          → (t.pool.phase ≡ closed) × (t.pushing ≡ [])
      keeps_done (gather p m same e) =
          rw e
            (λ c. ((closed_silent limit work empty jobs v.reached (v.done c).0 m).0, (v.done c).1))
      keeps_done (receive p r m more e) = rw e (λ c. absurd (
          longer s.pool.sent r
            (sym more ∙ (closed_silent limit work empty jobs v.reached (v.done c).0 m).1)))
      keeps_done (accept before r after o q k e) =
          rw e (λ c. absurd (middle-ne-nil before r after (sym q ∙ (v.done c).1)))
      keeps_done (refuse before r after q k e) =
          rw e (λ c. absurd (middle-ne-nil before r after (sym q ∙ (v.done c).1)))
      keeps_done (close_names c q x e) = rw e (λ _. (c, q))

  pub StreamReach-Inv :
      (jobs : List Job) {s : Stream Job Rec Out}
      → StreamReach limit work empty push jobs s
      → Inv jobs s
  StreamReach-Inv jobs here = record {
    reached = Reach.here;
    balanced = Perm.refl _;
    done = λ e. cc;
  }
  StreamReach-Inv jobs (next r st) = StreamStep-Inv jobs st (StreamReach-Inv jobs r)

  -- In every interleaving of the pool and the pusher, once the result channel is closed `Collect` has
  -- received the names of those records of the arrays whose call succeeds, each exactly once, up to
  -- order.
  pub stream_closed :
      (jobs : List Job) {s : Stream Job Rec Out}
      → StreamReach limit work empty push jobs s
      → s.is_closed ≡ true
      → Perm s.names (filter_map push (expected limit work empty jobs))
  stream_closed jobs {s} r c =
      let v = StreamReach-Inv jobs r in
      let (finished, idle) = v.done c in
      Perm.trans
        (rw (filter_map-flat_map push s.pool.sent) (rw append-nil at (rw idle at v.balanced)))
        (filter_map-perm push (gather_closed limit work empty jobs v.reached finished))
