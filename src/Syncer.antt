-- ===== src/Syncer.antt =====
-- The broker syncer: pkg/agent/syncer/broker_syncer.go. The resource syncers themselves are those of
-- github.com/submariner-io/admiral.
pub mod Running
use mcn.Prelude.{String, Bool, false, not, Option, none, some, List, [], ◌∷◌, str_eq, if◌then◌else◌}
use mcn.Kube.{
  Result, ok, err, message, Exec, pure, lift, wrapping, wrap_err, ◌>>=◌, ◌>>◌, Value, Converter,
  Gvr, DynamicClient,
}
use mcn.Names.{operator_namespace}
use mcn.Crd.{Cluster, cluster_gvr, multi_cluster_network_gvr}

-- broker.SyncerConfig, for one resource in both directions.
pub record SyncerConfig (W : Type 0) : Type 0 where
  pub local_client : DynamicClient W
  pub local_namespace : String
  pub local_cluster_id : String
  pub broker_client : DynamicClient W
  pub broker_namespace : String
  pub source_namespace : String
  pub resource : Gvr

-- admiral's broker.NewSyncer and Syncer.Start; `S` is the type of its syncers.
pub record Admiral (W S : Type 0) : Type 0 where
  pub new_syncer : SyncerConfig W → Result S
  pub start : S → Exec W (Unit {0})

pub record BrokerSyncer (W S : Type 0) : Type 0 where
  pub cluster_id : String
  pub local_client : DynamicClient W
  pub broker_client : DynamicClient W
  pub broker_ns : String
  pub converter : Converter Cluster
  pub admiral : Admiral W S

pub record BrokerSyncerConfig (W : Type 0) : Type 0 where
  pub cluster_id : String
  pub local_client : Option (DynamicClient W)
  pub broker_client : Option (DynamicClient W)
  pub broker_ns : String

unfoldable pub new_broker_syncer :
    {W S : Type 0}
    → Converter Cluster
    → Admiral W S
    → BrokerSyncerConfig W
    → Result (BrokerSyncer W S)
new_broker_syncer conv admiral c =
    if str_eq c.cluster_id "" then err (message "clusterID is required") else elim c.local_client [
      | none ↦ err (message "localClient is required")
      | some local ↦ elim c.broker_client [
        | none ↦ err (message "brokerClient is required")
        | some broker ↦
            if str_eq c.broker_ns ""
            then err (message "brokerNS is required")
            else ok (record {
              cluster_id = c.cluster_id;
              local_client = local;
              broker_client = broker;
              broker_ns = c.broker_ns;
              converter = conv;
              admiral = admiral;
            })
      ]
    ]

-- What transformCluster is given: a Cluster or another object.
pub data Transformed : Type 0 where
  a_cluster : Cluster → Transformed
  another : Transformed

-- The loop of GetRemoteClusters.
unfoldable pub remote_of_broker : Converter Cluster → String → List Value → List Cluster
remote_of_broker conv cluster_id [] = []
remote_of_broker conv cluster_id (u ∷ us) =
    let rest = remote_of_broker conv cluster_id us in
    elim (conv.from_unstructured u) [
      | err e ↦ rest
      | ok c ↦ if str_eq c.spec.cluster_id cluster_id then rest else c ∷ rest
    ]

module _ {W S : Type 0} (s : BrokerSyncer W S) where
  abbrev syncer_config : Gvr → SyncerConfig W
  syncer_config gvr = record {
    local_client = s.local_client;
    local_namespace = operator_namespace;
    local_cluster_id = s.cluster_id;
    broker_client = s.broker_client;
    broker_namespace = s.broker_ns;
    source_namespace = operator_namespace;
    resource = gvr;
  }

  unfoldable pub init_cluster_syncer : Result S
  init_cluster_syncer =
      wrap_err "failed to create Cluster syncer" (s.admiral.new_syncer (syncer_config cluster_gvr))

  unfoldable pub init_multi_cluster_network_syncer : Result S
  init_multi_cluster_network_syncer =
      wrap_err "failed to create MultiClusterNetwork syncer"
        (s.admiral.new_syncer (syncer_config multi_cluster_network_gvr))

  unfoldable pub start_syncers : Exec W (Unit {0})
  unfolding init_cluster_syncer init_multi_cluster_network_syncer
  start_syncers = do
    clusters ← lift (wrap_err "failed to initialize Cluster syncer" init_cluster_syncer)
    networks ← lift (
        wrap_err "failed to initialize MultiClusterNetwork syncer"
          init_multi_cluster_network_syncer)
    wrapping "failed to start Cluster syncer" (s.admiral.start clusters)
    wrapping "failed to start MultiClusterNetwork syncer" (s.admiral.start networks)

  -- The object to sync, if any, and whether to try again.
  unfoldable pub transform_cluster : Transformed → Option Cluster × Bool
  transform_cluster another = (none, false)
  transform_cluster (a_cluster c) =
      if not (str_eq c.spec.cluster_id s.cluster_id) then (none, false) else (some c, false)

  unfoldable pub get_remote_clusters : Exec W (List Cluster)
  unfolding remote_of_broker
  get_remote_clusters = do
    items ←
        wrapping "failed to list Clusters from broker"
          ((s.broker_client.at cluster_gvr s.broker_ns).list "")
    pure (remote_of_broker s.converter s.cluster_id items)
