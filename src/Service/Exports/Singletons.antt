-- ===== src/Service/Exports/Singletons.antt =====
-- The collectors live as long as the process: `Create…MetricsInstance` makes each of them once.
use csm_metrics_powermax.Prelude.{
  List, [], ◌∷◌, Option, none, some, ◌≡◌, refl, ap, sym, ◌∙◌, arith, Option-cases, Bool-cases, Bool,
  true, false, inl, inr, get_or_default, if◌then◌else◌,
}
use csm_metrics_powermax.Prelude.Float.{Float64}
use csm_metrics_powermax.Entrypoint.Loop.{
  Action, export_capacity_metrics, export_performance_metrics, export_topology_metrics,
  validate_powermax_arrays, stop_exporter,
}
use csm_metrics_powermax.Entrypoint.Probe
use csm_metrics_powermax.Metric.Base.{BaseMetrics, Collector}
use csm_metrics_powermax.Service.Clients.{PowerMaxService, get_powermax_clients, new_base_metrics}
use csm_metrics_powermax.Service.Exports.{
  Call, Collectors, Exports, export_capacity, export_performance, export_topology, perform,
  perform_all,
}
use csm_metrics_powermax.Service.Instances.{export, create_instance}

-- The calls that export each kind of metrics.
abbrev pub is_capacity : Action → Bool
is_capacity export_capacity_metrics = true
is_capacity _ = false

abbrev pub is_performance : Action → Bool
is_performance export_performance_metrics = true
is_performance _ = false

abbrev pub is_topology : Action → Bool
is_topology export_topology_metrics = true
is_topology _ = false

abbrev pub first_call :
    {F Recorder Finder : Type 0}
    → (Action → Bool)
    → List (Call F Recorder Finder)
    → Option (Call F Recorder Finder)
first_call is [] = none
first_call is (c ∷ rest) = if is c.action then some c else first_call is rest

abbrev call_of :
    {F Recorder Finder : Type 0}
    → F
    → PowerMaxService F Recorder Finder
    → Action
    → Call F Recorder Finder
call_of elapsed s a = record { action = a; service = s; elapsed = elapsed }

module _ {F W Recorder Finder : Type 0} where
  -- The collector with what the service then has.
  abbrev pub made_from :
      (PowerMaxService F Recorder Finder → Collector W)
      → PowerMaxService F Recorder Finder
      → BaseMetrics F W Recorder Finder
  made_from collector s = record {
    collector = some (collector s);
    volume_finder = s.volume_finder;
    powermax_clients = s.powermax_clients;
    metrics_recorder = s.metrics_recorder;
    max_powermax_connections = s.max_powermax_connections;
  }

  -- The collector of a kind after the calls: the one that was there, or else the one made from the
  -- service as it is at the first export of the kind.
  abbrev pub instance_after :
      (Action → Bool)
      → (PowerMaxService F Recorder Finder → Collector W)
      → Option (BaseMetrics F W Recorder Finder)
      → List (Call F Recorder Finder)
      → Option (BaseMetrics F W Recorder Finder)
  instance_after is collector i calls = elim i [
    | some base ↦ some base
    | none ↦ elim (first_call is calls) [
      | none ↦ none
      | some c ↦ some (made_from collector c.service)
    ]
  ]

  instance_after-cons :
      (is : Action → Bool) (collector : PowerMaxService F Recorder Finder → Collector W)
      (i : Option (BaseMetrics F W Recorder Finder)) (c : Call F Recorder Finder)
      (rest : List (Call F Recorder Finder))
      → instance_after is collector i (c ∷ rest)
        ≡ instance_after is collector (instance_after is collector i (c ∷ [])) rest
  instance_after-cons is collector (some base) c rest = refl
  instance_after-cons is collector none c rest = elim (Bool-cases (is c.action)) [
    | inl e ↦ rw (instance_after, e) refl
    | inr e ↦ rw (instance_after, e) refl
  ]

  export_lem :
      (collector : PowerMaxService F Recorder Finder → Collector W)
      (s : PowerMaxService F Recorder Finder) (i : Option (BaseMetrics F W Recorder Finder)) (w : W)
      → (export collector s i w).2
        ≡ (elim i [ some base ↦ some base | none ↦ some (made_from collector s) ])
  unfolding export create_instance new_base_metrics get_powermax_clients
  export_lem collector s none w = refl
  export_lem collector s (some base) w = refl

module _ {F W Recorder Finder : Type 0} (fl : Float64 F)
    (make : Collectors F W Recorder Finder) where
  -- Each collector is the one that `instance_after` says.
  pub record AreSingletons (calls : List (Call F Recorder Finder))
      (x y : Exports F W Recorder Finder) : Type 0 where
    pub capacity :
        y.capacity_instance ≡ instance_after is_capacity make.capacity x.capacity_instance calls
    pub performance :
        y.performance_instance
        ≡ instance_after is_performance make.performance x.performance_instance calls
    pub topology :
        y.topology_instance ≡ instance_after is_topology make.topology x.topology_instance calls

  same_instance :
      (is : Action → Bool) (collector : PowerMaxService F Recorder Finder → Collector W)
      (i : Option (BaseMetrics F W Recorder Finder)) (c : Call F Recorder Finder)
      → is c.action ≡ false
      → i ≡ instance_after is collector i (c ∷ [])
  same_instance is collector (some base) c h = refl
  same_instance is collector none c h = rw (instance_after, h) refl

  quiet-AreSingletons :
      (c : Call F Recorder Finder) (x : Exports F W Recorder Finder)
      {y : Exports F W Recorder Finder}
      → is_capacity c.action ≡ false
      → is_performance c.action ≡ false
      → is_topology c.action ≡ false
      → x ≡ y
      → AreSingletons (c ∷ []) x y
  quiet-AreSingletons c x p q r same = rw (← same) (record {
    capacity = same_instance is_capacity make.capacity x.capacity_instance c p;
    performance = same_instance is_performance make.performance x.performance_instance c q;
    topology = same_instance is_topology make.topology x.topology_instance c r;
  })

  perform-AreSingletons :
      (elapsed : F) (s : PowerMaxService F Recorder Finder) (a : Action)
      (x : Exports F W Recorder Finder) {y : Exports F W Recorder Finder}
      → perform fl make elapsed s a x ≡ some y
      → AreSingletons (call_of elapsed s a ∷ []) x y
  unfolding perform export_capacity export_performance export_topology
  perform-AreSingletons elapsed s export_capacity_metrics x {y} h =
      let same : export_capacity fl make elapsed s x ≡ y = ground arith in
      rw (← same) (record {
        capacity = export_lem make.capacity s x.capacity_instance x.world;
        performance =
            same_instance is_performance make.performance x.performance_instance
              (call_of elapsed s export_capacity_metrics) refl;
        topology =
            same_instance is_topology make.topology x.topology_instance
              (call_of elapsed s export_capacity_metrics) refl;
      })
  perform-AreSingletons elapsed s export_performance_metrics x {y} h =
      let same : export_performance fl make elapsed s x ≡ y = ground arith in
      rw (← same) (record {
        capacity =
            same_instance is_capacity make.capacity x.capacity_instance
              (call_of elapsed s export_performance_metrics) refl;
        performance = export_lem make.performance s x.performance_instance x.world;
        topology =
            same_instance is_topology make.topology x.topology_instance
              (call_of elapsed s export_performance_metrics) refl;
      })
  perform-AreSingletons elapsed s export_topology_metrics x {y} h =
      let same : export_topology fl make elapsed s x ≡ y = ground arith in
      rw (← same) (record {
        capacity =
            same_instance is_capacity make.capacity x.capacity_instance
              (call_of elapsed s export_topology_metrics) refl;
        performance =
            same_instance is_performance make.performance x.performance_instance
              (call_of elapsed s export_topology_metrics) refl;
        topology = export_lem make.topology s x.topology_instance x.world;
      })
  perform-AreSingletons elapsed s validate_powermax_arrays x {y} h =
      elim (Option-cases
        (Probe.validate_powermax_arrays (get_or_default [] (get_powermax_clients s)))) [
          | inl e ↦ absurd (ground arith)
          | inr (m, e) ↦
              quiet-AreSingletons (call_of elapsed s validate_powermax_arrays) x refl refl refl
                (ground arith)
        ]
  perform-AreSingletons elapsed s stop_exporter x {y} h =
      quiet-AreSingletons (call_of elapsed s stop_exporter) x refl refl refl (ground arith)

  -- Whatever the loop does and however the service changes between its calls, unless the liveness
  -- probe panics: a collector that has been made is never made again or exchanged, and one that has
  -- not is made at the first export of its kind, with the clients, the limit, the recorder and the
  -- finder that the service then has, and stays that one.
  pub collectors_stay :
      (calls : List (Call F Recorder Finder)) (x : Exports F W Recorder Finder)
      {y : Exports F W Recorder Finder}
      → perform_all fl make calls x ≡ some y
      → AreSingletons calls x y
  unfolding perform_all
  collectors_stay [] x {y} h =
      let same : x ≡ y = ground arith in
      rw (← same) (record {
        capacity = unmade is_capacity make.capacity x.capacity_instance;
        performance = unmade is_performance make.performance x.performance_instance;
        topology = unmade is_topology make.topology x.topology_instance;
      })
    where
      unmade :
          (is : Action → Bool) (collector : PowerMaxService F Recorder Finder → Collector W)
          (i : Option (BaseMetrics F W Recorder Finder))
          → i ≡ instance_after is collector i []
      unmade is collector none = refl
      unmade is collector (some base) = refl
  collectors_stay (c ∷ rest) x {y} h =
      elim (Option-cases (perform fl make c.elapsed c.service c.action x)) [
        | inl e ↦ absurd (ground arith)
        | inr (z, e) ↦
            let first = perform-AreSingletons c.elapsed c.service c.action x e in
            let others : AreSingletons rest z y = collectors_stay rest z (ground arith) in
            record {
              capacity =
                  others.capacity
                  ∙ ap (λ i. instance_after is_capacity make.capacity i rest) first.capacity
                  ∙ sym (instance_after-cons is_capacity make.capacity x.capacity_instance c rest);
              performance =
                  others.performance
                  ∙ ap (λ i. instance_after is_performance make.performance i rest)
                      first.performance
                  ∙ sym (
                      instance_after-cons is_performance make.performance x.performance_instance c
                        rest);
              topology =
                  others.topology
                  ∙ ap (λ i. instance_after is_topology make.topology i rest) first.topology
                  ∙ sym (instance_after-cons is_topology make.topology x.topology_instance c rest);
            }
      ]
