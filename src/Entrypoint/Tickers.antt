-- ===== src/Entrypoint/Tickers.antt =====
-- The update of the tickers in `Run` (internal/entrypoint/run.go) at the end of a round.
use csm_metrics_powermax.Prelude.{
  Bool, true, false, none, some, ◌≡◌, refl, arith, subst, Bool-cases, Option-cases, inl, inr,
}
use csm_metrics_powermax.Prelude.Int.{ℤ, eqb_ℤ}
use csm_metrics_powermax.Entrypoint.Config.{Config, validate_config, InRange, validate_config_lem}
use csm_metrics_powermax.Entrypoint.Loop.{
  Loop, Outcome, continues, returns, panics, update_tickers, update_capacity, update_performance,
  update_topology, new_ticker, ◌then_continue◌,
}

-- An accepted configuration.
abbrev pub IsValid : Config → Type 0
IsValid c = validate_config (some c) ≡ none

-- What an outcome keeps of a round's flags: it goes on with them.
abbrev pub Keeps : Outcome → Bool → Bool → Type 0
Keeps (continues s) collected leader =
    (s.collected_on_leader_acquired ≡ collected) × (s.was_leader ≡ leader)
Keeps (returns _) _ _ = Unit {0}
Keeps panics _ _ = Unit {0}

-- Does the loop go on?
abbrev pub goes_on : Outcome → Bool
goes_on (continues _) = true
goes_on _ = false

pub IsValid-intervals :
    (c : Config)
    → IsValid c
    → InRange c.capacity_tick_interval
      × InRange c.performance_tick_interval
      × InRange c.topology_metrics_tick_interval
IsValid-intervals c = (validate_config_lem c).0

pub new_ticker-InRange :
    (i : ℤ) → InRange i → new_ticker i ≡ some (record { period = i; pending = false })
new_ticker-InRange i h = ground arith

goes_on-then :
    (o : Outcome) (f : Loop → Outcome)
    → goes_on o ≡ true
    → ((s : Loop) → goes_on (f s) ≡ true)
    → goes_on (o then_continue f) ≡ true
goes_on-then (continues s) f h k = k s
goes_on-then (returns e) f h k = h
goes_on-then panics f h k = h

Keeps-then :
    (o : Outcome) (f : Loop → Outcome) (a b : Bool)
    → Keeps o a b
    → ((s : Loop) → Keeps (f s) s.collected_on_leader_acquired s.was_leader)
    → Keeps (o then_continue f) a b
Keeps-then (continues s) f a b (h, k) g =
    subst (λ x. Keeps (f s) x b) h
      (subst (λ x. Keeps (f s) s.collected_on_leader_acquired x) k (g s))
Keeps-then (returns e) f a b h g = h
Keeps-then panics f a b h g = h

goes_on-update_capacity : (c : Config) (s : Loop) → IsValid c → goes_on (update_capacity c s) ≡ true
unfolding update_capacity
goes_on-update_capacity c s h =
    elim (Bool-cases (eqb_ℤ s.capacity_tick_interval c.capacity_tick_interval)) [
      | inl e ↦ rw (e) refl
      | inr e ↦ rw (e, new_ticker-InRange c.capacity_tick_interval (IsValid-intervals c h).0) refl
    ]

update_capacity_flags :
    (c : Config) (s : Loop)
    → Keeps (update_capacity c s) s.collected_on_leader_acquired s.was_leader
unfolding update_capacity
update_capacity_flags c s =
    elim (Bool-cases (eqb_ℤ s.capacity_tick_interval c.capacity_tick_interval)) [
      | inl e ↦ rw (e) (refl, refl)
      | inr e ↦ elim (Option-cases (new_ticker c.capacity_tick_interval)) [
        | inl k ↦ rw (e, k) tt
        | inr (t, k) ↦ rw (e, k) (refl, refl)
      ]
    ]

goes_on-update_performance :
    (c : Config) (s : Loop) → IsValid c → goes_on (update_performance c s) ≡ true
unfolding update_performance
goes_on-update_performance c s h =
    elim (Bool-cases (eqb_ℤ s.performance_tick_interval c.performance_tick_interval)) [
      | inl e ↦ rw (e) refl
      | inr e ↦
          rw (e, new_ticker-InRange c.performance_tick_interval (IsValid-intervals c h).1) refl
    ]

update_performance_flags :
    (c : Config) (s : Loop)
    → Keeps (update_performance c s) s.collected_on_leader_acquired s.was_leader
unfolding update_performance
update_performance_flags c s =
    elim (Bool-cases (eqb_ℤ s.performance_tick_interval c.performance_tick_interval)) [
      | inl e ↦ rw (e) (refl, refl)
      | inr e ↦ elim (Option-cases (new_ticker c.performance_tick_interval)) [
        | inl k ↦ rw (e, k) tt
        | inr (t, k) ↦ rw (e, k) (refl, refl)
      ]
    ]

goes_on-update_topology : (c : Config) (s : Loop) → IsValid c → goes_on (update_topology c s) ≡ true
unfolding update_topology
goes_on-update_topology c s h =
    elim (Bool-cases (eqb_ℤ s.topology_metrics_tick_interval c.topology_metrics_tick_interval)) [
      | inl e ↦ rw (e) refl
      | inr e ↦
          rw (e, new_ticker-InRange c.topology_metrics_tick_interval (IsValid-intervals c h).2) refl
    ]

update_topology_flags :
    (c : Config) (s : Loop)
    → Keeps (update_topology c s) s.collected_on_leader_acquired s.was_leader
unfolding update_topology
update_topology_flags c s =
    elim (Bool-cases (eqb_ℤ s.topology_metrics_tick_interval c.topology_metrics_tick_interval)) [
      | inl e ↦ rw (e) (refl, refl)
      | inr e ↦ elim (Option-cases (new_ticker c.topology_metrics_tick_interval)) [
        | inl k ↦ rw (e, k) tt
        | inr (t, k) ↦ rw (e, k) (refl, refl)
      ]
    ]

pub goes_on-update_tickers :
    (c : Config) (s : Loop) → IsValid c → goes_on (update_tickers c s) ≡ true
unfolding update_tickers
goes_on-update_tickers c s h =
    goes_on-then (update_capacity c s then_continue update_performance c) (update_topology c)
      (goes_on-then (update_capacity c s) (update_performance c) (goes_on-update_capacity c s h)
        (λ v. goes_on-update_performance c v h))
      (λ v. goes_on-update_topology c v h)

pub update_tickers_flags :
    (c : Config) (s : Loop) → Keeps (update_tickers c s) s.collected_on_leader_acquired s.was_leader
unfolding update_tickers
update_tickers_flags c s =
    Keeps-then (update_capacity c s then_continue update_performance c) (update_topology c)
      s.collected_on_leader_acquired s.was_leader
      (Keeps-then (update_capacity c s) (update_performance c) s.collected_on_leader_acquired
        s.was_leader (update_capacity_flags c s) (update_performance_flags c))
      (update_topology_flags c)
