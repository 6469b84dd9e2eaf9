-- ===== src/Entrypoint/Startup/Failure.antt =====
-- A start of the exporter that fails, and how `Run` (internal/entrypoint/run.go) ends then.
use csm_metrics_powermax.Prelude.{
  Text, Error, Result, text_eq, List, [], ◌∷◌, ◌++◌, Option, none, some, true, false, ◌≡◌, refl,
  arith, All, if◌then◌else◌, Bool, inl, inr, Bool-cases, Result-cases, ap, append_assoc, append-nil,
  sym, ◌∙◌,
}
use csm_metrics_powermax.Entrypoint.Config.{Config}
use csm_metrics_powermax.Entrypoint.Tickers.{IsValid}
use csm_metrics_powermax.Entrypoint.Loop.{
  Action, Callees, called_all, Event, Loop, Outcome, continues, returns, panics, from_err_ch,
  rounds, run, start, step, stop_exporter,
}
use csm_metrics_powermax.Entrypoint.Startup.{start_exporter}
use csm_metrics_powermax.Exporter
use csm_metrics_powermax.Exporter.{
  panicked, OtlCollectorExporter, Options, Sdk, Security, set_export_failure_recorder, insecure,
  tls, init_exporter, init_otlp_exporter,
}

rounds-append :
    (before rest : List (Config × Event)) (s : Loop) {acts : List Action} {t : Loop}
    → rounds before s ≡ (acts, continues t)
    → rounds (before ++ rest) s ≡ (acts ++ (rounds rest t).0, (rounds rest t).1)
unfolding rounds
rounds-append [] rest s {acts} {t} h =
    let none_done : [] ≡ acts = ap (λ r. r.0) h in
    let same : s ≡ t = ground (arith, ap (λ r. r.1) h) in rw (← none_done, ← same) refl
rounds-append ((c, e) ∷ before) rest s {acts} {t} h =
    go (step c e s).1 refl (λ u q. rounds-append before rest u (λ i. ((rounds before u).0, q i)))
  where
    go :
        (o : Outcome)
        → (step c e s).1 ≡ o
        → ((u : Loop)
            → (rounds before u).1 ≡ continues t
            → rounds (before ++ rest) u
              ≡ ((rounds before u).0 ++ (rounds rest t).0, (rounds rest t).1))
        → rounds (((c, e) ∷ before) ++ rest) s ≡ (acts ++ (rounds rest t).0, (rounds rest t).1)
    go (continues u) p ih =
        let whole : ◌≡◌ {A = List Action × Outcome}
            ((step c e s).0 ++ (rounds before u).0, (rounds before u).1) (acts, continues t) =
          rw (p, rounds) at h in
        let done_so_far : (step c e s).0 ++ (rounds before u).0 ≡ acts = ap (λ r. r.0) whole in
        rw (p, rounds)
          (rw (ih u (ap (λ r. r.1) whole), ← done_so_far)
            (ap (λ more. (more, (rounds rest t).1))
              (sym (append_assoc (step c e s).0 (rounds before u).0 (rounds rest t).0))))
    go (returns x) p ih = absurd (ground arith)
    go panics p ih = absurd (ground arith)

abbrev pub is_error : Option Error → Bool
is_error none = false
is_error (some e) = true

module _ {Credentials Client Provider : Type 0} (sdk : Sdk Credentials Client Provider) where
  init_exporter_failed :
      (opts : Options Credentials) (x : OtlCollectorExporter Client Provider)
      → x.exporter ≡ none
      → is_error (init_exporter sdk opts x).0 ≡ true
      → (init_exporter sdk opts x).1.exporter ≡ none
  unfolding init_exporter init_otlp_exporter
  init_exporter_failed opts x h k = elim (Result-cases (sdk.new opts)) [
    | inl (e, q) ↦ rw (init_exporter, q) h
    | inr (client, q) ↦ absurd (ground arith)
  ]

  start_exporter_failed :
      (load : Text → Result Credentials) (c : Config) (is_otlp : Bool)
      (x : OtlCollectorExporter Client Provider)
      → x.exporter ≡ none
      → All (λ o. is_error o ≡ true) (start_exporter sdk load c is_otlp x).0
      → (start_exporter sdk load c is_otlp x).1.exporter ≡ none
  unfolding start_exporter set_export_failure_recorder
  start_exporter_failed load c is_otlp x h k = go (text_eq c.collector_cert_path []) refl
    where
      recorder_set : OtlCollectorExporter Client Provider
      recorder_set = if is_otlp then set_export_failure_recorder true x else x

      still_none : recorder_set.exporter ≡ none
      still_none = elim (Bool-cases is_otlp) [ inl b ↦ rw b h | inr b ↦ rw b h ]

      options : Security Credentials → Options Credentials
      options s = record { endpoint = c.collector_address; security = s }

      go :
          (b : Bool)
          → text_eq c.collector_cert_path [] ≡ b
          → (start_exporter sdk load c is_otlp x).1.exporter ≡ none
      go true p =
          rw (p, start_exporter)
            (init_exporter_failed (options insecure) recorder_set still_none
              (rw (p, start_exporter) at k).0)
      go false p = elim (Result-cases (load c.collector_cert_path)) [
        | inl (e, q) ↦
            rw (p, start_exporter)
              (rw q (
                init_exporter_failed (options (tls none)) recorder_set still_none
                  (rw q at (rw (p, start_exporter) at k)).1.0))
        | inr (creds, q) ↦
            rw (p, start_exporter)
              (rw q (
                init_exporter_failed (options (tls (some creds))) recorder_set still_none
                  (rw q at (rw (p, start_exporter) at k)).0))
      ]

  stop_panics :
      (x : OtlCollectorExporter Client Provider)
      → sdk.shutdown_client none ≡ panicked
      → x.exporter ≡ none
      → Exporter.stop_exporter sdk x ≡ panicked
  unfolding Exporter.stop_exporter
  stop_panics x n h = rw (Exporter.stop_exporter, h, n) refl

  -- If the start of the exporter sends errors alone, the loop takes the first of them after any
  -- rounds that it has gone on from, none of whose calls panics, and `Shutdown` panics on a nil
  -- client, then `Run` does not return that error: it makes no call after it but the deferred one of
  -- `StopExporter`, and ends by the panic of that, since the exporter is still without a client.
  pub failed_start_ends_run :
      (load : Text → Result Credentials) (callees : Callees) (c c' : Config) (is_otlp : Bool)
      (x : OtlCollectorExporter Client Provider) (before after : List (Config × Event)) (e : Error)
      (later : List (Option Error)) {s t : Loop} {acts : List Action}
      → sdk.shutdown_client none ≡ panicked
      → ((earlier : List Action) (a : Action) → callees.call_panics earlier a ≡ false)
      → callees.stop ≡ Exporter.stop_exporter sdk (start_exporter sdk load c is_otlp x).1
      → x.exporter ≡ none
      → IsValid c
      → start c ≡ some s
      → rounds before s ≡ (acts, continues t)
      → (start_exporter sdk load c is_otlp x).0 ≡ some e ∷ later
      → All (λ o. is_error o ≡ true) later
      → run callees (some c) (before ++ (c', from_err_ch (some e)) ∷ after)
        ≡ (acts ++ stop_exporter ∷ [], panics)
  unfolding run rounds step
  failed_start_ends_run load callees c c' is_otlp x before after e later {s} {t} {acts} n q p h v g
        b sends l =
      let no_client = start_exporter_failed load c is_otlp x h (rw sends (refl, l)) in
      let stop : callees.stop ≡ panicked =
        p ∙ stop_panics (start_exporter sdk load c is_otlp x).1 n no_client in
      rw (run, v)
        (rw
          (
            g,
            rounds-append before ((c', from_err_ch (some e)) ∷ after) s b,
            append-nil acts,
            called_all callees.call_panics [] acts (returns (some e)) q,
            stop,
          )
          refl)
