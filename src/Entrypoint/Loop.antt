-- ===== src/Entrypoint/Loop.antt =====
-- internal/entrypoint/run.go: `Run` after its configuration is read. What the outside decides is in the
-- events: which case `select` takes, the answers of `IsLeader` and `ctx.Done`, and what a goroutine
-- sends on the error channel. The interval fields may change between two events.
use csm_metrics_powermax.Prelude.{
  Error, ◌≡◌, refl, List, [], ◌∷◌, ◌++◌, Bool, true, false, not, ◌&&◌, Option, none, some,
  if◌then◌else◌,
}
use csm_metrics_powermax.Prelude.Int.{ℤ, pos, eqb_ℤ, ltb_ℤ}
use csm_metrics_powermax.Exporter.{Ended, ended, panicked}
use csm_metrics_powermax.Entrypoint.Config.{Config, validate_config, liveness_probe_interval}

-- The calls that the loop makes.
pub data Action : Type 0 where
  export_capacity_metrics : Action
  export_performance_metrics : Action
  export_topology_metrics : Action
  validate_powermax_arrays : Action
  stop_exporter : Action

-- A ticker: its period, and whether a tick waits in its channel.
pub record Ticker : Type 0 where
  pub period : ℤ
  pub pending : Bool

-- The answers of one leader check: `IsLeader` in the loop and in each collection, and whether the
-- context is done after the first and after the second.
pub record Readings : Type 0 where
  pub is_leader : Bool
  pub at_capacity : Bool
  pub at_performance : Bool
  pub at_topology : Bool
  pub done_after_capacity : Bool
  pub done_after_performance : Bool

-- The case that `select` takes. A tick carries the answer of `IsLeader` where it is asked.
pub data Event : Type 0 where
  leader_check : Readings → Event
  capacity_tick : Bool → Event
  performance_tick : Event
  topology_metrics_tick : Bool → Event
  liveness_probe_tick : Event
  from_err_ch : Option Error → Event
  done : Event

pub record Loop : Type 0 where
  pub capacity_tick_interval : ℤ
  pub performance_tick_interval : ℤ
  pub topology_metrics_tick_interval : ℤ
  pub capacity_ticker : Ticker
  pub performance_ticker : Ticker
  pub topology_metrics_ticker : Ticker
  pub collected_on_leader_acquired : Bool
  pub was_leader : Bool

pub data Outcome : Type 0 where
  continues : Loop → Outcome
  returns : Option Error → Outcome
  -- `time.NewTicker` of an interval that is not positive, a call that panics, or the deferred call
  panics : Outcome

unfoldable pub collect_capacity_metrics : Bool → Config → List Action
collect_capacity_metrics is_leader config =
    if not is_leader
    then []
    else (if not config.capacity_metrics_enabled then [] else export_capacity_metrics ∷ [])

unfoldable pub collect_performance_metrics : Bool → Config → List Action
collect_performance_metrics is_leader config =
    if not is_leader
    then []
    else (if not config.performance_metrics_enabled then [] else export_performance_metrics ∷ [])

unfoldable pub collect_topology_metrics : Bool → Config → List Action
collect_topology_metrics is_leader config =
    if not is_leader
    then []
    else (if not config.topology_metrics_enabled then [] else export_topology_metrics ∷ [])

abbrev pub new_ticker : ℤ → Option Ticker
new_ticker interval =
    if ltb_ℤ (pos 0) interval then some (record { period = interval; pending = false }) else none

-- Losing the lease makes the next acquisition collect again.
abbrev pub after_loss : Readings → Loop → Loop
after_loss r s =
    if s.was_leader && not r.is_leader
    then record s { collected_on_leader_acquired = false; was_leader = false }
    else s

-- After the collections: no tick that waited counts, and each ticker starts anew.
abbrev pub collected : Loop → Loop
collected s = record s {
  collected_on_leader_acquired = true;
  capacity_ticker = record { period = s.capacity_tick_interval; pending = false };
  performance_ticker = record { period = s.performance_tick_interval; pending = false };
  topology_metrics_ticker = record { period = s.topology_metrics_tick_interval; pending = false };
}

-- The collection on acquisition.
unfoldable pub acquire : Config → Readings → Loop → List Action × Outcome
acquire config r s =
    let s : Loop = record s { was_leader = true } in
    let capacity = collect_capacity_metrics r.at_capacity config in
    if r.done_after_capacity
    then (capacity, returns none)
    else (let performance = collect_performance_metrics r.at_performance config in
        if r.done_after_performance then (capacity ++ performance, returns none) else (
          capacity ++ performance ++ collect_topology_metrics r.at_topology config,
          continues (collected s),
        ))

unfoldable pub check_leader : Config → Readings → Loop → List Action × Outcome
check_leader config r s =
    let s = after_loss r s in
    if not s.collected_on_leader_acquired && r.is_leader
    then acquire config r s
    else ([], continues s)

-- The tests that end each round: an interval that has changed gets a new ticker.
unfoldable pub update_capacity : Config → Loop → Outcome
update_capacity config s =
    if eqb_ℤ s.capacity_tick_interval config.capacity_tick_interval
    then continues s
    else elim (new_ticker config.capacity_tick_interval) [
      | none ↦ panics
      | some t ↦
          continues (record s {
            capacity_tick_interval = config.capacity_tick_interval;
            capacity_ticker = t;
          })
    ]

unfoldable pub update_performance : Config → Loop → Outcome
update_performance config s =
    if eqb_ℤ s.performance_tick_interval config.performance_tick_interval
    then continues s
    else elim (new_ticker config.performance_tick_interval) [
      | none ↦ panics
      | some t ↦ continues (record s {
        performance_tick_interval = config.performance_tick_interval;
        performance_ticker = t;
      })
    ]

unfoldable pub update_topology : Config → Loop → Outcome
update_topology config s =
    if eqb_ℤ s.topology_metrics_tick_interval config.topology_metrics_tick_interval
    then continues s
    else elim (new_ticker config.topology_metrics_tick_interval) [
      | none ↦ panics
      | some t ↦ continues (record s {
        topology_metrics_tick_interval = config.topology_metrics_tick_interval;
        topology_metrics_ticker = t;
      })
    ]

-- What runs next if nothing has ended the loop.
infixl 5 ◌then_continue◌
abbrev pub ◌then_continue◌ : Outcome → (Loop → Outcome) → Outcome
continues s then_continue f = f s
returns e then_continue f = returns e
panics then_continue f = panics

unfoldable pub update_tickers : Config → Loop → Outcome
update_tickers config s =
    update_capacity config s
    then_continue update_performance config
    then_continue update_topology config

-- One round of the loop. The tick of the performance ticker has no body, and no error from the channel
-- goes back to the head of the loop at once.
unfoldable pub step : Config → Event → Loop → List Action × Outcome
step config (leader_check r) s =
    let (actions, outcome) = check_leader config r s in
    (actions, outcome then_continue update_tickers config)
step config (capacity_tick is_leader) s = (
  collect_capacity_metrics is_leader config,
  update_tickers config
      (record s { capacity_ticker = record s.capacity_ticker { pending = false } }),
)
step config performance_tick s = (
  [],
  update_tickers config
      (record s { performance_ticker = record s.performance_ticker { pending = false } }),
)
step config (topology_metrics_tick is_leader) s = (
  collect_topology_metrics is_leader config,
  update_tickers config
      (record s { topology_metrics_ticker = record s.topology_metrics_ticker { pending = false } }),
)
step config liveness_probe_tick s = (validate_powermax_arrays ∷ [], update_tickers config s)
step config (from_err_ch none) s = ([], continues s)
step config (from_err_ch (some e)) s = ([], returns (some e))
step config done s = ([], returns none)

-- The rounds, each with the configuration that it sees.
unfoldable pub rounds : List (Config × Event) → Loop → List Action × Outcome
rounds [] s = ([], continues s)
rounds ((config, event) ∷ rest) s =
    let (actions, outcome) = step config event s in
    elim outcome [
      | returns e ↦ (actions, returns e)
      | panics ↦ (actions, panics)
      | continues s' ↦ let (more, end) = rounds rest s' in (actions ++ more, end)
    ]

abbrev pub liveness_interval : Config → ℤ
liveness_interval config =
    if eqb_ℤ config.liveness_probe_tick_interval (pos 0)
    then liveness_probe_interval
    else config.liveness_probe_tick_interval

-- The first tickers. That of the liveness probe counts only in that it must be positive.
unfoldable pub start : Config → Option Loop
start config = elim (new_ticker config.capacity_tick_interval) [
  | none ↦ none
  | some c ↦ elim (new_ticker config.performance_tick_interval) [
    | none ↦ none
    | some p ↦ elim (new_ticker config.topology_metrics_tick_interval) [
      | none ↦ none
      | some t ↦ elim (new_ticker (liveness_interval config)) [
        | none ↦ none
        | some _ ↦ some (record {
          capacity_tick_interval = config.capacity_tick_interval;
          performance_tick_interval = config.performance_tick_interval;
          topology_metrics_tick_interval = config.topology_metrics_tick_interval;
          capacity_ticker = c;
          performance_ticker = p;
          topology_metrics_ticker = t;
          collected_on_leader_acquired = false;
          was_leader = false;
        })
      ]
    ]
  ]
]

-- How the calls end that the loop makes: does a call panic, behind those before it, and how does the
-- deferred `StopExporter` end.
pub record Callees : Type 0 where
  pub call_panics : List Action → Action → Bool
  pub stop : Ended

-- The calls as they are made: a call that panics is the last.
unfoldable pub called :
    (List Action → Action → Bool) → List Action → List Action → Outcome → List Action × Outcome
called call_panics before [] end = ([], end)
called call_panics before (a ∷ actions) end =
    let (more, end') = called call_panics (before ++ a ∷ []) actions end in
    if call_panics before a then (a ∷ [], panics) else (a ∷ more, end')

-- Calls that all return are made as they stand.
pub called_all :
    (call_panics : List Action → Action → Bool) (earlier actions : List Action) (end : Outcome)
    → ((before : List Action) (a : Action) → call_panics before a ≡ false)
    → called call_panics earlier actions end ≡ (actions, end)
unfolding called
called_all call_panics earlier [] end h = refl
called_all call_panics earlier (a ∷ actions) end h =
    rw (called, h earlier a, called_all call_panics (earlier ++ a ∷ []) actions end h) refl

-- The deferred call of `StopExporter`, which a panic makes too, and which may panic itself.
abbrev pub deferred : Ended → List Action × Outcome → List Action × Outcome
deferred stop (actions, continues s) = (actions, continues s)
deferred stop (actions, returns e) =
    (actions ++ stop_exporter ∷ [], elim stop [ panicked ↦ panics | ended _ ↦ returns e ])
deferred stop (actions, panics) = (actions ++ stop_exporter ∷ [], panics)

unfoldable pub run : Callees → Option Config → List (Config × Event) → List Action × Outcome
run callees none events = ([], returns (validate_config none))
run callees (some config) events = elim (validate_config (some config)) [
  | some e ↦ ([], returns (some e))
  | none ↦ elim (start config) [
    | none ↦ deferred callees.stop ([], panics)
    | some s ↦
        let (actions, end) = rounds events s in
        deferred callees.stop (called callees.call_panics [] actions end)
  ]
]
