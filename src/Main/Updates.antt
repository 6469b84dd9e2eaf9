-- ===== src/Main/Updates.antt =====
-- What the updates of the configuration keep, from the start of the program on.
use csm_metrics_powermax.Prelude.{
  Text, Error, Result, Bool, if◌then◌else◌, List, [], ◌∷◌, Option, none, some, ◌≡◌, refl, arith,
  codes, All, inl, inr, Bool-cases, true, false,
}
use csm_metrics_powermax.Prelude.Int.{pos, ◌<ℤ◌}
use csm_metrics_powermax.Entrypoint.Config.{Config}
use csm_metrics_powermax.Entrypoint.Loop.{Event, Action, Callees, Outcome}
use csm_metrics_powermax.Entrypoint.Tickers.{IsValid}
use csm_metrics_powermax.Entrypoint.Intervals.{AllReturn, is_panic, run_no_panic}
use csm_metrics_powermax.Main.Arrays.{update_powermax_arrays_limit}
use csm_metrics_powermax.Main.Intervals.{
  IsAcceptable, update_tick_intervals, update_tick_intervals-IsValid,
}
use csm_metrics_powermax.Main.Server.{Files, Startup, started, fatal, get_string}
use csm_metrics_powermax.Main.Settings.{
  update_max_connections-IsPositive, update_metrics_enabled, update_collector_address, is_empty,
}
use csm_metrics_powermax.Main.Program.{
  Program, Moment, on_change_update, update_powermax_connection,
  update_powermax_arrays_on_secret_changed, fresh, configure, Change, settings_changed,
  config_changed, secret_changed, apply, apply_all, seen, main,
}

-- The two fields with the address agree, and the semaphores of the collectors have a slot.
pub record IsReady {F Level : Type 0} (p : Program F Level) : Type 0 where
  pub same_address : p.config.collector_address ≡ p.exporter_address
  pub some_slot : pos 0 <ℤ p.service.max_powermax_connections

abbrev pub AreAcceptable : {F : Type 0} → Moment F → Type 0
AreAcceptable m =
    IsAcceptable (get_string m.settings (codes "POWERMAX_CAPACITY_POLL_FREQUENCY"))
    × IsAcceptable (get_string m.settings (codes "POWERMAX_PERFORMANCE_POLL_FREQUENCY"))
    × IsAcceptable (get_string m.settings (codes "POWERMAX_TOPOLOGY_METRICS_POLL_FREQUENCY"))

update_collector_address_lem :
    (value : Text) (config : Config) (address : Text)
    → config.collector_address ≡ address
    → (update_collector_address value (config, address)).0.collector_address
      ≡ (update_collector_address value (config, address)).1
unfolding update_collector_address
update_collector_address_lem value config address h = elim (Bool-cases (is_empty value)) [
  | inl e ↦ rw (update_collector_address, e) h
  | inr e ↦ rw (update_collector_address, e) refl
]

-- The polling frequencies that a change brings, if it brings any.
abbrev pub IsGood : {F : Type 0} → Change F → Type 0
IsGood (settings_changed m) = Unit
IsGood (config_changed m) = AreAcceptable m
IsGood (secret_changed m) = Unit

update_collector_address_liveness :
    (value : Text) (config : Config) (address : Text)
    → (update_collector_address value (config, address)).0.liveness_probe_tick_interval
      ≡ config.liveness_probe_tick_interval
unfolding update_collector_address
update_collector_address_liveness value config address = elim (Bool-cases (is_empty value)) [
  | inl e ↦ rw (update_collector_address, e) refl
  | inr e ↦ rw (update_collector_address, e) refl
]

module _ {F Level : Type 0} where
  on_change_update_liveness :
      (m : Moment F) (p : Program F Level)
      → (on_change_update m p).config.liveness_probe_tick_interval
        ≡ p.config.liveness_probe_tick_interval
  unfolding on_change_update update_powermax_connection update_tick_intervals update_metrics_enabled
  on_change_update_liveness m p = update_collector_address_liveness _ _ _

  on_change_update-IsReady :
      (m : Moment F) (p : Program F Level)
      → p.config.collector_address ≡ p.exporter_address
      → IsReady (on_change_update m p)
  unfolding on_change_update update_powermax_connection update_tick_intervals update_metrics_enabled
  on_change_update-IsReady m p h = record {
    same_address = update_collector_address_lem _ _ _ h;
    some_slot = update_max_connections-IsPositive _ _;
  }

  on_change_update-IsValid :
      (m : Moment F) (p : Program F Level) → AreAcceptable m → IsValid (on_change_update m p).config
  unfolding on_change_update
  on_change_update-IsValid m p (c, t, l) = update_tick_intervals-IsValid _ _ _ _ c t l

server_ran :
    {S : Type 0} (enabled : Bool) (server : Startup S) (r : List Action × Outcome)
    {ran : List Action × Outcome}
    → (if enabled
        then (elim server [ fatal what e ↦ fatal what e | started _ ↦ started r ])
        else started r)
      ≡ started ran
    → r ≡ ran
server_ran true (fatal what e) r h = absurd (ground arith)
server_ran true (started s) r h = ground arith
server_ran false server r h = ground arith

module _ {F Level : Type 0} (parse_level : Text → Result Level) (info_level : Level)
    (trim_space env : Text → Text) where
  apply-IsReady :
      (c : Change F) (p : Program F Level)
      → IsReady p
      → IsReady (apply parse_level info_level trim_space env c p)
  unfolding apply update_powermax_arrays_on_secret_changed
  apply-IsReady (settings_changed m) p h = record {
    same_address = h.same_address;
    some_slot = h.some_slot;
  }
  apply-IsReady (config_changed m) p h = on_change_update-IsReady m p h.same_address
  apply-IsReady (secret_changed m) p h = record {
    same_address = h.same_address;
    some_slot =
        rw (update_powermax_arrays_limit m.environment m.k8s_utils_is_nil p.c_path p.service)
          h.some_slot;
  }

  apply_all-IsReady :
      (cs : List (Change F)) (p : Program F Level)
      → IsReady p
      → IsReady (apply_all parse_level info_level trim_space env cs p)
  unfolding apply_all
  apply_all-IsReady [] p h = h
  apply_all-IsReady (c ∷ cs) p h = apply_all-IsReady cs _ (apply-IsReady c p h)

  -- From the end of `configure` on, whatever the settings are and whichever callbacks run, in whatever
  -- order, the number of connections is at least one, so that the semaphore of a collector always
  -- has a slot, and the field `CollectorAddr` of the exporter is the address of the configuration.
  -- (Nothing reads that field: the exporter keeps the endpoint that `Run` has read at its start.)
  pub configure-IsReady :
      (init : Option Error) (m : Moment F) (cs : List (Change F)) {p : Program F Level}
      → configure parse_level info_level trim_space env init m ≡ started p
      → IsReady (apply_all parse_level info_level trim_space env cs p)
  unfolding configure
  configure-IsReady (some e) m cs h = absurd (ground arith)
  configure-IsReady none m cs {p} h =
      let first = fresh parse_level info_level trim_space env m in
      let same : on_change_update m first ≡ p = ground arith in
      apply_all-IsReady cs p (rw (← same) (on_change_update-IsReady m first refl))

  apply-IsValid :
      (c : Change F) (p : Program F Level)
      → IsGood c
      → IsValid p.config
      → IsValid (apply parse_level info_level trim_space env c p).config
  unfolding apply update_powermax_arrays_on_secret_changed
  apply-IsValid (settings_changed m) p g h = h
  apply-IsValid (config_changed m) p g h = on_change_update-IsValid m p g
  apply-IsValid (secret_changed m) p g h = h

  apply_all-IsValid :
      (cs : List (Change F)) (p : Program F Level)
      → All IsGood cs
      → IsValid p.config
      → IsValid (apply_all parse_level info_level trim_space env cs p).config
  unfolding apply_all
  apply_all-IsValid [] p g h = h
  apply_all-IsValid (c ∷ cs) p (g, gs) h = apply_all-IsValid cs _ gs (apply-IsValid c p g h)

  seen-IsValid :
      (p : Program F Level) (rest : List (List (Change F) × Event))
      → All (λ r. All IsGood r.0) rest
      → IsValid p.config
      → All (λ x. IsValid x.0) (seen parse_level info_level trim_space env p rest)
  unfolding seen
  seen-IsValid p [] g h = tt
  seen-IsValid p ((cs, event) ∷ rest) (g, gs) h =
      let valid = apply_all-IsValid cs p g h in
      (valid, seen-IsValid (apply_all parse_level info_level trim_space env cs p) rest gs valid)

  -- If the polling frequencies are acceptable, those at the start and those that any callback
  -- brings, then no ticker of the program is ever made of an interval that is not positive: whatever
  -- the events of its loop are, it is ended by `Fatal` before the loop, or `Run` itself ends or goes
  -- on without a panic. The exports, the liveness probe and the deferred `StopExporter` are taken to
  -- return without a panic.
  pub main_no_panic :
      (callees : Callees) (init : Option Error) (files : Files) (m : Moment F)
      (rest : List (List (Change F) × Event)) {ran : List Action × Outcome}
      → AllReturn callees
      → AreAcceptable m
      → All (λ r. All IsGood r.0) rest
      → main parse_level info_level trim_space env callees init files m rest ≡ started ran
      → is_panic ran.1 ≡ false
  unfolding main configure
  main_no_panic callees (some e) files m rest b a g h = absurd (ground arith)
  main_no_panic callees none files m rest {ran} b a g h =
      let p = on_change_update m (fresh parse_level info_level trim_space env m) in
      let valid = on_change_update-IsValid m (fresh parse_level info_level trim_space env m) a in
      rw (← server_ran _ _ _ h) (
        run_no_panic callees p.config (seen parse_level info_level trim_space env p rest) b
          (rw (on_change_update_liveness m (fresh parse_level info_level trim_space env m))
            (omega arith))
          (seen-IsValid p rest g valid))
