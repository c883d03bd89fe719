-- ===== src/Registration.antt =====
-- The agent from its configuration to its registered cluster: NewAgent, initComponents and
-- registerCluster of pkg/agent/agent.go, and what main of cmd/agent/main.go makes the agent of.
pub mod Registered
use mcn.Cidr.{V6}
use mcn.Prelude.{ℕ, String, Bool, true, false, Option, none, some, [], ◌||◌, str_eq, if◌then◌else◌}
use mcn.Prelude.Int.{ℤ, pos, eqb_ℤ}
use mcn.Kube.{
  Result, ok, err, message, wrap, is_not_found, Exec, pure, raise, lift, attempt, wrapping,
  wrap_err, and_then, ◌>>=◌, ◌>>◌, Converter, DynamicClient, Resource, Machinery,
}
use mcn.Crd.{Cluster, ClusterPhase, cluster_gvr}
use mcn.Pools.{Pools, validate_asn}
use mcn.VtepPool.{validate_vtep_cidr}
use mcn.Endpoint.{NodeClient}
use mcn.Bootstrap.{FromEnvironment, start_pools, RestConfig, get_broker_config}
use mcn.Syncer.{Admiral, BrokerSyncer, new_broker_syncer}

-- What the agent is given by the libraries: `sleep` is time.Sleep for some seconds, `now` the clock,
-- `parse_v6` net.ParseCIDR on IPv6, and `v6_with_last` an IPv6 network's address with another last
-- byte.
pub record Platform (W S : Type 0) : Type 0 where
  pub converter : Converter Cluster
  pub admiral : Admiral W S
  pub sleep : ℕ → W → W
  pub now : W → ℕ
  pub parse_v6 : String → String → Option V6
  pub v6_with_last : String → ℕ → String
  pub machinery : Machinery

-- Config; a client or pools that are nil are none.
pub record AgentConfig (W : Type 0) : Type 0 where
  pub cluster_id : String
  pub operator_vtep_cidr : String
  pub operator_asn : ℤ
  pub broker_pools : Option Pools
  pub local_client : Option (DynamicClient W)
  pub local_k8s_client : Option (NodeClient W)
  pub broker_client : Option (DynamicClient W)
  pub broker_ns : String

-- The agent as NewAgent returns it.
pub record NewAgent (W S : Type 0) : Type 0 where
  pub platform : Platform W S
  pub open platform use *
  pub cluster_id : String
  pub operator_vtep_cidr : String
  pub operator_asn : ℤ
  pub broker_pools : Pools
  pub local_client : DynamicClient W
  pub local_k8s_client : Option (NodeClient W)
  pub broker_client : DynamicClient W
  pub broker_ns : String
  pub broker_syncer : BrokerSyncer W S

-- The tests of NewAgent on clients, from the broker's on, and initComponents.
abbrev with_clients :
    {W S : Type 0}
    → Platform W S
    → AgentConfig W
    → DynamicClient W
    → DynamicClient W
    → Result (NewAgent W S)
with_clients platform c local broker =
    if str_eq c.broker_ns "" then err (message "brokerNS is required") else elim c.broker_pools [
      | none ↦ err (message "brokerPools is required (SKYNET_POOL_* env from operator)")
      | some pools ↦
          elim (new_broker_syncer platform.converter platform.admiral (record {
            cluster_id = c.cluster_id;
            local_client = some local;
            broker_client = some broker;
            broker_ns = c.broker_ns;
          })) [
            | err e ↦ err (
                wrap "failed to initialize agent components"
                  (wrap "failed to create broker syncer" e))
            | ok syncer ↦ ok (record {
              platform = platform;
              cluster_id = c.cluster_id;
              operator_vtep_cidr = c.operator_vtep_cidr;
              operator_asn = c.operator_asn;
              broker_pools = pools;
              local_client = local;
              local_k8s_client = c.local_k8s_client;
              broker_client = broker;
              broker_ns = c.broker_ns;
              broker_syncer = syncer;
            })
          ]
    ]

unfoldable pub new_agent : {W S : Type 0} → Platform W S → AgentConfig W → Result (NewAgent W S)
new_agent platform c =
    if str_eq c.cluster_id "" then err (message "clusterID is required") else elim c.local_client [
      | none ↦ err (message "localClient is required")
      | some local ↦ elim c.broker_client [
        | none ↦ err (message "brokerClient is required")
        | some broker ↦ with_clients platform c local broker
      ]
    ]

abbrev pub registered : ClusterPhase → ClusterPhase
registered ClusterPhase.unset = ClusterPhase.pending
registered p = p

module _ {W S : Type 0} (a : NewAgent W S) where
  -- localClient.Resource(ClusterGVR).Namespace("skynet-operator")
  abbrev pub clusters : Resource W
  clusters = a.local_client.at cluster_gvr "skynet-operator"

  -- The object that registerCluster starts from if there is none.
  abbrev new_cluster : Cluster
  new_cluster = record {
    meta = record {
      name = a.cluster_id;
      namespace = "skynet-operator";
      resource_version = "";
      generation = pos 0;
      labels = [];
      finalizers = [];
      deleting = false;
    };
    spec = record { cluster_id = a.cluster_id; vtep_cidr = ""; asn = pos 0 };
    status = record { phase = ClusterPhase.unset; endpoints = []; last_heartbeat = 0 };
  }

  -- Whether an object is there, and which one.
  unfoldable pub find_local_cluster : Exec W (Bool × Cluster)
  find_local_cluster = do
    found ← attempt (clusters.get a.cluster_id)
    elim found [
      | ok u ↦ do
        c ←
            lift (
              wrap_err "failed to convert existing local Cluster" (a.converter.from_unstructured u))
        pure (true, c)
      | err e ↦
          if is_not_found e
          then pure (false, new_cluster)
          else raise (wrap "get local Cluster CR" e)
    ]

  -- The tests on what the operator gave.
  unfoldable pub check_allocation : Result (Unit {0})
  check_allocation =
      if str_eq a.operator_vtep_cidr "" || eqb_ℤ a.operator_asn (pos 0)
      then err (
          message
            "VTEP CIDR and ASN must be set by the operator: set env SKYNET_ALLOCATED_VTEP_CIDR and SKYNET_ALLOCATED_ASN (from Skynet status)")
      else elim (validate_vtep_cidr a.parse_v6 a.operator_vtep_cidr (some a.broker_pools)) [
        | err e ↦ err (wrap "invalid VTEP CIDR from operator env" e)
        | ok _ ↦
            wrap_err "invalid ASN from operator env"
              (validate_asn a.operator_asn (some a.broker_pools))
      ]

  abbrev pub with_allocation : ℕ → Cluster → Cluster
  with_allocation t c = record c {
    spec = record c.spec { vtep_cidr = a.operator_vtep_cidr; asn = a.operator_asn };
    status = record c.status { phase = registered c.status.phase; last_heartbeat = t };
  }

  -- Returns the object that the agent keeps.
  unfoldable pub register_cluster : Exec W Cluster
  unfolding find_local_cluster check_allocation
  register_cluster = do
    (exists, old) ← find_local_cluster
    lift check_allocation
    t ← λ w. (ok (a.now w), w)
    let c = with_allocation t old
    v ← lift (wrap_err "failed to convert Cluster to unstructured" (a.converter.to_unstructured c))
    if exists
        then wrapping "failed to update local Cluster CR" (clusters.update v)
        else wrapping "failed to create local Cluster CR" (clusters.create v)
    pure c

-- What main makes of the environment to reach the broker. `connect` is dynamic.NewForConfig.
unfoldable pub broker_of_environment :
    {W : Type 0}
    → (String → Result RestConfig)
    → (RestConfig → Result (DynamicClient W))
    → FromEnvironment
    → Result (DynamicClient W)
broker_of_environment kubeconfig connect e =
    and_then (wrap_err "Failed to get broker config" (get_broker_config kubeconfig e))
      (λ config. wrap_err "Failed to create broker client" (connect config))

-- The agent that main makes of the environment and the clients.
unfoldable pub agent_of_environment :
    {W S : Type 0}
    → Platform W S
    → DynamicClient W
    → NodeClient W
    → DynamicClient W
    → FromEnvironment
    → Result (NewAgent W S)
agent_of_environment platform local k8s broker e = and_then (start_pools e) (λ pools.
    wrap_err "Failed to create agent" (
      new_agent platform (record {
        cluster_id = e.cluster_id;
        operator_vtep_cidr = e.allocated_vtep_cidr;
        operator_asn = e.allocated_asn;
        broker_pools = some pools;
        local_client = some local;
        local_k8s_client = some k8s;
        broker_client = some broker;
        broker_ns = e.broker_namespace;
      })))
