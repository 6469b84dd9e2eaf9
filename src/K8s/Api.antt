-- ===== src/K8s/Api.antt =====
-- internal/k8s/k8sapi.go and internal/k8s/leader_elector.go: the cached client of the cluster, and the
-- elector. The calls of client-go are parameters.
use csm_metrics_powermax.Prelude.{
  Text, Error, Result, ok, err, Option, none, some, Bool, false, ◌≡◌, List, [], ◌∷◌, map, ap, refl,
  arith,
}

-- The field `Client` of interface type: nil, a nil `*Clientset` that an error left, or a clientset.
pub data Client (C : Type 0) : Type 0 where
  absent : Client C
  nil_clientset : Client C
  connected : C → Client C

-- The answer of a call that may panic.
pub data Answer (A : Type 0) : Type 0 where
  answers : Result A → Answer A
  panics : Answer A

-- The list call on the stored client.
abbrev pub call : {A C : Type 0} → (C → Result A) → Client C → Answer A
call list (connected c) = answers (list c)
call list _ = panics

-- `InClusterConfigFn` and `NewConfigFn` as they answer at one moment.
pub record Cluster (C Configuration : Type 0) : Type 0 where
  pub in_cluster_config : Result Configuration
  pub new_config : Configuration → Result C

module _ {C Configuration : Type 0} where
  -- `ConnectFn`: the error, and the field afterwards. The result of `NewConfigFn` is stored whether it
  -- failed or not, and a nil pointer in an interface is not a nil interface.
  unfoldable pub connect : Cluster C Configuration → Client C → Option Error × Client C
  connect cluster client = elim cluster.in_cluster_config [
    | err e ↦ (some e, client)
    | ok config ↦ elim (cluster.new_config config) [
      | err e ↦ (some e, nil_clientset)
      | ok c ↦ (none, connected c)
    ]
  ]

  -- `GetPersistentVolumes` and `GetStorageClasses`, by their list call.
  unfoldable pub get :
      {A : Type 0} → (C → Result A) → Cluster C Configuration → Client C → Answer A × Client C
  get list cluster absent =
      let (e, client) = connect cluster absent in
      elim e [ none ↦ (call list client, client) | some e ↦ (answers (err e), client) ]
  get list cluster client = (call list client, client)

  -- Calls one after the other on the same object, each with the cluster as it answers then.
  unfoldable pub get_all :
      {A : Type 0} → (C → Result A) → List (Cluster C Configuration) → Client C → List (Answer A)
  get_all list [] client = []
  get_all list (cluster ∷ rest) client =
      let (answer, client') = get list cluster client in answer ∷ get_all list rest client'

  get_all-nil_clientset :
      {A : Type 0} (list : C → Result A) (rest : List (Cluster C Configuration))
      → get_all list rest nil_clientset ≡ map (λ _. panics) rest
  unfolding get_all get
  get_all-nil_clientset list [] = refl
  get_all-nil_clientset list (cluster ∷ rest) =
      ap (λ x. panics ∷ x) (get_all-nil_clientset list rest)

  get_failed :
      {A : Type 0} (list : C → Result A) (cluster : Cluster C Configuration)
      (config : Configuration) (e : Error)
      → cluster.in_cluster_config ≡ ok config
      → cluster.new_config config ≡ err e
      → get list cluster absent ≡ (answers (err e), nil_clientset)
  unfolding get connect
  get_failed list cluster config e h k = ground arith

  -- When the configuration is read but the clientset cannot be made, that call gives the error, and
  -- every later call on the same object panics, however many there are and whatever the cluster then
  -- answers.
  pub get_after_failure :
      {A : Type 0} (list : C → Result A) (first : Cluster C Configuration)
      (rest : List (Cluster C Configuration)) (config : Configuration) (e : Error)
      → first.in_cluster_config ≡ ok config
      → first.new_config config ≡ err e
      → get_all list (first ∷ rest) absent ≡ answers (err e) ∷ map (λ _. panics) rest
  unfolding get_all
  get_after_failure list first rest config e h k =
      rw (get_failed list first config e h k)
        (ap (λ x. answers (err e) ∷ x) (get_all-nil_clientset list rest))

-- `LeaderElector.IsLeader`, by what the elector says once there is one.
unfoldable pub is_leader : {Elector : Type 0} → (Elector → Bool) → Option Elector → Bool
is_leader leads none = false
is_leader leads (some elector) = leads elector

-- `InitLeaderElection`: the error and the elector that the other goroutine then asks. `Run` of the
-- elector returns when the lease is lost, and with it this function, without an error.
unfoldable pub init_leader_election :
    {C Configuration Elector : Type 0}
    → Cluster C Configuration
    → (C → Text → Text → Result Elector)
    → Text
    → Text
    → Option Elector
    → Option Error × Option Elector
init_leader_election cluster new_leader_elector endpoint namespace elector =
    elim cluster.in_cluster_config [
      | err e ↦ (some e, elector)
      | ok config ↦ elim (cluster.new_config config) [
        | err e ↦ (some e, elector)
        | ok client ↦ elim (new_leader_elector client endpoint namespace) [
          | err e ↦ (some e, none)
          | ok elector' ↦ (none, some elector')
        ]
      ]
    ]
