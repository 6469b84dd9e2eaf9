-- ===== src/Entrypoint/Startup/Channel.antt =====
-- The error channel of `Run` (internal/entrypoint/run.go), which has room for one value: two goroutines
-- send on it, the loop takes from it until it takes an error. The other cases of its `select` leave the
-- channel as it is; that none of them ends the loop is assumed here.
use csm_metrics_powermax.Prelude.{
  ℕ, ◌+◌, ◌*◌, ◌<◌, ◌≡◌, refl, Bool, true, false, ◌||◌, any, List, [], ◌∷◌, ◌++◌, Option, none,
  some, Error, arith, length,
}
use csm_metrics_powermax.Entrypoint.Startup.Failure.{is_error}

pub record Startup : Type 0 where
  -- What each goroutine has still to send.
  pub election : List (Option Error)
  pub exporter : List (Option Error)
  pub slot : Option (Option Error)
  -- What the loop has taken, in order, and whether it has ended by it.
  pub taken : List (Option Error)
  pub has_returned : Bool

abbrev pub starting : List (Option Error) → List (Option Error) → Startup
starting election exporter = record {
  election = election;
  exporter = exporter;
  slot = none;
  taken = [];
  has_returned = false;
}

pub data StartupStep (s t : Startup) : Type 0 where
  election_sends :
      (o : Option Error) (rest : List (Option Error))
      → s.election ≡ o ∷ rest
      → s.slot ≡ none
      → t ≡ record s { election = rest; slot = some o }
      → StartupStep s t
  exporter_sends :
      (o : Option Error) (rest : List (Option Error))
      → s.exporter ≡ o ∷ rest
      → s.slot ≡ none
      → t ≡ record s { exporter = rest; slot = some o }
      → StartupStep s t
  loop_takes :
      (o : Option Error)
      → s.slot ≡ some o
      → s.has_returned ≡ false
      → t ≡ record s { slot = none; taken = s.taken ++ o ∷ []; has_returned = is_error o }
      → StartupStep s t

pub data StartupReach (s : Startup) : Startup → Type 0 where
  at_start : StartupReach s s
  then_step : {t u : Startup} → StartupReach s t → StartupStep t u → StartupReach s u

any-append :
    {A : Type 0} (p : A → Bool) (xs ys : List A) → any p (xs ++ ys) ≡ (any p xs || any p ys)
any-append p [] ys = refl
any-append p (x ∷ xs) ys = ground (arith, any-append p xs ys)

abbrev slot_error : Option (Option Error) → Bool
slot_error none = false
slot_error (some o) = is_error o

-- Is there an error that the loop has taken, that waits in the channel, or that is still to be sent?
abbrev some_error : Startup → Bool
some_error s =
    any is_error s.taken
    || (slot_error s.slot || (any is_error s.election || any is_error s.exporter))

record Inv (election exporter : List (Option Error)) (s : Startup) : Type 0 where
  same_errors : some_error s ≡ (any is_error election || any is_error exporter)
  by_error : s.has_returned ≡ any is_error s.taken

StartupStep-Inv :
    (election exporter : List (Option Error)) {s t : Startup}
    → StartupStep s t
    → Inv election exporter s
    → Inv election exporter t
StartupStep-Inv election exporter {s} (election_sends o rest p q e) v = record {
  same_errors = rw e (ground (arith, v.same_errors, p, q));
  by_error = rw e v.by_error;
}
StartupStep-Inv election exporter {s} (exporter_sends o rest p q e) v = record {
  same_errors = rw e (ground (arith, v.same_errors, p, q));
  by_error = rw e v.by_error;
}
StartupStep-Inv election exporter {s} (loop_takes o p q e) v = record {
  same_errors = rw e (ground (arith, v.same_errors, p, any-append is_error s.taken (o ∷ [])));
  by_error = rw e (ground (arith, v.by_error, q, any-append is_error s.taken (o ∷ [])));
}

StartupReach-Inv :
    (election exporter : List (Option Error)) {s : Startup}
    → StartupReach (starting election exporter) s
    → Inv election exporter s
StartupReach-Inv election exporter at_start = record { same_errors = refl; by_error = refl }
StartupReach-Inv election exporter (then_step r st) =
    StartupStep-Inv election exporter st (StartupReach-Inv election exporter r)

-- Sends and receipts that are left, at most.
pub to_pass : Startup → ℕ
to_pass s = 2 * length s.election + 2 * length s.exporter + (elim s.slot [ none ↦ 0 | some _ ↦ 1 ])

-- Every step uses one of them up, so no schedule is endless.
StartupStep-to_pass : {s t : Startup} → StartupStep s t → to_pass t < to_pass s
unfolding to_pass
StartupStep-to_pass {s} (election_sends o rest p q e) = rw (e, p, q) (omega arith)
StartupStep-to_pass {s} (exporter_sends o rest p q e) = rw (e, p, q) (omega arith)
StartupStep-to_pass {s} (loop_takes o p q e) = rw (e, p) (omega arith)

-- Whatever the schedule, if one of the goroutines has an error to send, then a startup that can go no
-- further has made the loop return: no send is blocked and no error waits in the channel while the
-- loop still runs.
pub startup_error_returns :
    (election exporter : List (Option Error)) {s : Startup}
    → (any is_error election || any is_error exporter) ≡ true
    → StartupReach (starting election exporter) s
    → ((t : Startup) → ¬ StartupStep s t)
    → s.has_returned ≡ true
startup_error_returns election exporter {s} some_ r stuck =
    go s.has_returned refl s.slot refl s.election refl s.exporter refl
  where
    v : Inv election exporter s
    v = StartupReach-Inv election exporter r

    go :
        (b : Bool)
        → s.has_returned ≡ b
        → (o : Option (Option Error)) → s.slot ≡ o
        → (es : List (Option Error)) → s.election ≡ es
        → (xs : List (Option Error)) → s.exporter ≡ xs
        → s.has_returned ≡ true
    go true h o p es q xs l = h
    go false h (some o) p es q xs l = absurd (stuck _ (loop_takes o p h refl))
    go false h none p (e ∷ es) q xs l = absurd (stuck _ (election_sends e es q p refl))
    go false h none p [] q (x ∷ xs) l = absurd (stuck _ (exporter_sends x xs l p refl))
    go false h none p [] q [] l = ground (arith, v.same_errors, v.by_error)
