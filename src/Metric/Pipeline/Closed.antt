-- ===== src/Metric/Pipeline/Closed.antt =====
-- What the two stages have sent when both channels are closed.
use mathlib.Core.List.{Perm}
use mathlib.Core.List.Perm
use csm_metrics_powermax.Prelude.{
  ◌≡◌, refl, sym, subst, ◌∙◌, true, List, [], ◌∷◌, ◌++◌, Option, filter_map, flat_map,
  filter_map-flat_map, list_of, append_assoc, append-nil,
}
use csm_metrics_powermax.Prelude.Perms.{front_perm, drop_perm, settle_perm}
use csm_metrics_powermax.Metric.Fanout.Invariant.{middle-ne-nil}
use csm_metrics_powermax.Metric.Pipeline.{
  Line, LineStep, take, hand, accept, refuse, close_gather, close_push, LineReach, here, next,
}

module _ {In Mid Out : Type 0} (first : In → Mid) (second : Mid → Option Out) where
  abbrev pushed : List Mid → List Out
  pushed rs = flat_map (λ r. list_of (second r)) rs

  abbrev gathered : List In → List Out
  gathered vs = flat_map (λ v. list_of (second (first v))) vs

  abbrev owed : Line In Mid Out → List Out
  owed s = pushed s.pushing ++ (gathered s.gathering ++ gathered s.served)

  record Inv (items : List In) (s : Line In Mid Out) : Type 0 where
    balanced : Perm (s.sent ++ owed s) (gathered items)
    gather_done : s.gather_closed ≡ true → (s.served ≡ []) × (s.gathering ≡ [])
    push_done : s.push_closed ≡ true → (s.gather_closed ≡ true) × (s.pushing ≡ [])

  take-Perm : (a b c one : List Out) → Perm (a ++ ((one ++ b) ++ c)) (a ++ (b ++ (one ++ c)))
  take-Perm a b c one = Perm.append_left a (rw (append_assoc one b c) (front_perm one b c))

  hand-Perm :
      (before : List In) (v : In) (after : List In) (a c : List Out)
      → Perm
          ((list_of (second (first v)) ++ a) ++ (gathered (before ++ after) ++ c))
          (a ++ (gathered (before ++ v ∷ after) ++ c))
  hand-Perm before v after a c =
      let one = list_of (second (first v)) in
      let rest = gathered (before ++ after) in
      let back : Perm (one ++ (rest ++ c)) (gathered (before ++ v ∷ after) ++ c) =
        rw (← append_assoc one rest c) (
          Perm.append_right c
            (Perm.symm (drop_perm (λ w. list_of (second (first w))) before v after))) in
      Perm.trans (rw (append_assoc one a (rest ++ c)) (front_perm one a (rest ++ c)))
        (Perm.append_left a back)

  done-Perm :
      (sent : List Out) (before : List Mid) (r : Mid) (after : List Mid) (c : List Out)
      → Perm
          ((sent ++ list_of (second r)) ++ (pushed (before ++ after) ++ c))
          (sent ++ (pushed (before ++ r ∷ after) ++ c))
  done-Perm sent before r after c =
      rw
        (
          ← append_assoc (sent ++ list_of (second r)) (pushed (before ++ after)) c,
          ← append_assoc sent (pushed (before ++ r ∷ after)) c,
        )
        (Perm.append_right c (settle_perm (λ q. list_of (second q)) sent before r after))

  LineStep-balanced :
      {s t : Line In Mid Out}
      → LineStep first second s t
      → Perm (t.sent ++ owed t) (s.sent ++ owed s)
  LineStep-balanced {s} (take v vs p e) =
      rw (e, p)
        (Perm.append_left s.sent (
          take-Perm (pushed s.pushing) (gathered s.gathering) (gathered vs)
            (list_of (second (first v)))))
  LineStep-balanced {s} (hand before v after p e) =
      rw (e, p)
        (Perm.append_left s.sent (hand-Perm before v after (pushed s.pushing) (gathered s.served)))
  LineStep-balanced {s} (accept before r after o p q e) =
      let c = gathered s.gathering ++ gathered s.served in
      rw (e, p)
        (subst
          (λ l.
            Perm ((s.sent ++ list_of l) ++ (pushed (before ++ after) ++ c))
              (s.sent ++ (pushed (before ++ r ∷ after) ++ c)))
          q (done-Perm s.sent before r after c))
  LineStep-balanced {s} (refuse before r after p q e) =
      let c = gathered s.gathering ++ gathered s.served in
      rw (e, p)
        (rw append-nil at (
          subst
            (λ l.
              Perm ((s.sent ++ list_of l) ++ (pushed (before ++ after) ++ c))
                (s.sent ++ (pushed (before ++ r ∷ after) ++ c)))
            q (done-Perm s.sent before r after c)))
  LineStep-balanced {s} (close_gather p q x e) = rw e (Perm.refl _)
  LineStep-balanced {s} (close_push p q x e) = rw e (Perm.refl _)

  LineStep-Inv :
      (items : List In) {s t : Line In Mid Out}
      → LineStep first second s t
      → Inv items s
      → Inv items t
  LineStep-Inv items {s} {t} st v = record {
    balanced = Perm.trans (LineStep-balanced st) v.balanced;
    gather_done = keeps_gather st;
    push_done = keeps_push st;
  }
    where
      keeps_gather :
          LineStep first second s t → t.gather_closed ≡ true → (t.served ≡ []) × (t.gathering ≡ [])
      keeps_gather (take w ws p e) =
          rw e (λ c. absurd (middle-ne-nil [] w ws (sym p ∙ (v.gather_done c).0)))
      keeps_gather (hand before w after p e) =
          rw e (λ c. absurd (middle-ne-nil before w after (sym p ∙ (v.gather_done c).1)))
      keeps_gather (accept before r after o p q e) = rw e v.gather_done
      keeps_gather (refuse before r after p q e) = rw e v.gather_done
      keeps_gather (close_gather p q x e) = rw e (λ c. (p, q))
      keeps_gather (close_push p q x e) = rw e v.gather_done

      keeps_push :
          LineStep first second s t
          → t.push_closed ≡ true
          → (t.gather_closed ≡ true) × (t.pushing ≡ [])
      keeps_push (take w ws p e) = rw e v.push_done
      keeps_push (hand before w after p e) =
          rw e (λ c.
            absurd (middle-ne-nil before w after (sym p ∙ (v.gather_done (v.push_done c).0).1)))
      keeps_push (accept before r after o p q e) =
          rw e (λ c. absurd (middle-ne-nil before r after (sym p ∙ (v.push_done c).1)))
      keeps_push (refuse before r after p q e) =
          rw e (λ c. absurd (middle-ne-nil before r after (sym p ∙ (v.push_done c).1)))
      keeps_push (close_gather p q x e) = rw e (λ c. (refl, (v.push_done c).1))
      keeps_push (close_push p q x e) = rw e (λ c. (p, q))

  LineReach-Inv :
      (items : List In) {s : Line In Mid Out} → LineReach first second items s → Inv items s
  LineReach-Inv items here = record {
    balanced = Perm.refl _;
    gather_done = λ e. cc;
    push_done = λ e. cc;
  }
  LineReach-Inv items (next r st) = LineStep-Inv items st (LineReach-Inv items r)

  -- In every interleaving of both stages, once the second channel is closed the consumer has received
  -- what the pusher accepts of the record of each item, each exactly once, up to order.
  pub line_closed :
      (items : List In) {s : Line In Mid Out}
      → LineReach first second items s
      → s.push_closed ≡ true
      → Perm s.sent (filter_map (λ v. second (first v)) items)
  line_closed items {s} r c =
      let v = LineReach-Inv items r in
      let (closed, pushing) = v.push_done c in
      let (served, gathering) = v.gather_done closed in
      rw (filter_map-flat_map (λ w. second (first w)) items)
        (rw append-nil at (rw (pushing, gathering, served) at v.balanced))
