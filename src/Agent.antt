-- ===== src/Agent.antt =====
-- The agent's handling of its cluster's object: pkg/agent/agent.go.
pub mod Status
pub mod Started
pub mod Remote
pub mod Writes
pub mod Interleaved
use mcn.Prelude.{
  ℕ, zero, suc, ◌*◌, String, Bool, true, false, not, Option, none, some, List, [], ◌∷◌, ◌||◌,
  str_append, str_eq, ◌==◌, if◌then◌else◌,
}
use mcn.Prelude.Int.{ℤ, pos, eqb_ℤ}
use mcn.Kube.{
  Result, ok, err, Error, message, wrap, error_text, contains_text, is_not_found, Exec, pure, raise,
  lift, attempt, wrapping, wrap_err, ◌>>=◌, ◌>>◌, Value, Converter, DynamicClient, Resource,
  ObjectMeta, and_then,
}
use mcn.Crd.{Cluster, ClusterPhase, NodeEndpoint, cluster_gvr}
use mcn.Pools.{Pools}
use mcn.Registration
use mcn.Registration.{NewAgent, register_cluster}
use mcn.Vtep.{VtepManager, VtepConfig, new_vtep_manager, ensure_local_vtep}
use mcn.Syncer.{start_syncers}
use mcn.Endpoint.{new_endpoint_reporter, EndpointReporter, collect_endpoints}
use mcn.Bgp.{BgpConfigurator, new_bgp_configurator, full_mesh}
use mcn.Bgp.Reconcile.{reconcile_bgp_config}

-- The agent once initRuntimeComponents has run.
pub record Agent (W S : Type 0) : Type 0 where
  pub base : NewAgent W S
  pub open base use *
  pub vtep_manager : VtepManager W
  pub bgp_configurator : BgpConfigurator W
  pub endpoint_reporter : EndpointReporter W

abbrev pub with_endpoints : List NodeEndpoint → Cluster → Cluster
with_endpoints es c = record c { status = record c.status { endpoints = es } }

-- A cluster that has beaten: pending becomes ready.
abbrev pub beating : ClusterPhase → ClusterPhase
beating ClusterPhase.pending = ClusterPhase.ready
beating p = p

abbrev pub with_heartbeat : ℕ → Cluster → Cluster
with_heartbeat t c = record c {
  status = record c.status { last_heartbeat = t; phase = beating c.status.phase };
}

-- The loop of getRemoteClustersFromLocal.
unfoldable pub remote_clusters : Converter Cluster → String → List Value → List Cluster
remote_clusters conv cluster_id [] = []
remote_clusters conv cluster_id (u ∷ us) =
    let rest = remote_clusters conv cluster_id us in
    elim (conv.from_unstructured u) [
      | err e ↦ rest
      | ok c ↦ if str_eq c.spec.cluster_id cluster_id then rest else c ∷ rest
    ]

-- The components that need the registered cluster.
unfoldable pub init_runtime_components :
    {W S : Type 0} → NewAgent W S → Cluster → Result (Agent W S)
init_runtime_components a cluster =
    and_then
      (wrap_err "failed to create VTEP manager" (
        new_vtep_manager a.machinery a.parse_v6 a.v6_with_last (record {
          local_client = some a.local_client;
          cluster_id = a.cluster_id;
          vtep_cidr = cluster.spec.vtep_cidr;
        })))
      (λ vteps.
        and_then
          (wrap_err "failed to create BGP configurator" (
            new_bgp_configurator a.machinery (record {
              local_client = some a.local_client;
              cluster_id = a.cluster_id;
              local_asn = cluster.spec.asn;
              vtep_cidr = cluster.spec.vtep_cidr;
              topology = full_mesh;
            })))
          (λ bgp.
            and_then
              (wrap_err "failed to create endpoint reporter" (
                new_endpoint_reporter (record {
                  k8s_client = a.local_k8s_client;
                  cluster_id = a.cluster_id;
                  route_reflector_selector = "skynet.io/route-reflector=true";
                })))
              (λ reporter. ok (record {
                base = a;
                vtep_manager = vteps;
                bgp_configurator = bgp;
                endpoint_reporter = reporter;
              }))))

-- Start up to its two loops, which call `agent_reconcile` and `update_heartbeat` below on a ticker:
-- the agent with its components and the cluster that it keeps.
unfoldable pub start_agent : {W S : Type 0} → NewAgent W S → Exec W (Agent W S × Cluster)
unfolding init_runtime_components
start_agent a = do
  cluster ← wrapping "failed to register cluster" (register_cluster a)
  started ←
      lift (wrap_err "failed to initialize runtime components" (init_runtime_components a cluster))
  wrapping "failed to ensure local VTEP" (ensure_local_vtep started.vtep_manager)
  wrapping "failed to start broker syncer" (start_syncers a.broker_syncer)
  pure (started, cluster)

module _ {W S : Type 0} (a : Agent W S) where
  abbrev pub clusters : Resource W
  clusters = Registration.clusters a.base

  unfoldable pub refresh_local_cluster : Exec W Cluster
  refresh_local_cluster = do
    u ← wrapping "failed to get local Cluster CR" (clusters.get a.cluster_id)
    lift (wrap_err "failed to convert Cluster" (a.converter.from_unstructured u))

  -- The loop of updateClusterStatus, by the attempts that are left and the seconds to wait.
  unfoldable pub update_attempts : ℕ → ℕ → List NodeEndpoint → Exec W (Unit {0})
  update_attempts zero backoff endpoints =
      raise (message "failed to update Cluster status after retries")
  update_attempts (suc n) backoff endpoints = do
    u ← wrapping "failed to get local Cluster CR" (clusters.get a.cluster_id)
    c ← lift (wrap_err "failed to convert Cluster" (a.converter.from_unstructured u))
    v ← lift (
        wrap_err "failed to convert Cluster to unstructured"
          (a.converter.to_unstructured (with_endpoints endpoints c)))
    updated ← attempt (clusters.update v)
    elim updated [
      | ok _ ↦ pure tt
      | err e ↦
          let again = λ (w : W).
            update_attempts n (backoff * 2) endpoints (if n == 0 then w else a.sleep backoff w) in
          if not (contains_text (error_text e) "object has been modified")
          then raise (wrap "failed to update Cluster status" e)
          else again
    ]

  unfoldable pub update_cluster_status : List NodeEndpoint → Exec W (Unit {0})
  update_cluster_status endpoints = update_attempts 3 1 endpoints

  unfoldable pub update_heartbeat : Option Cluster → Exec W (Unit {0})
  update_heartbeat none = raise (message "cluster CR not initialized")
  update_heartbeat (some _) = do
    u ← wrapping "failed to get local Cluster CR" (clusters.get a.cluster_id)
    c ← lift (wrap_err "failed to convert Cluster" (a.converter.from_unstructured u))
    t ← λ w. (ok (a.now w), w)
    v ← lift (
        wrap_err "failed to convert Cluster to unstructured"
          (a.converter.to_unstructured (with_heartbeat t c)))
    wrapping "failed to update local heartbeat" (clusters.update v)
    pure tt

  unfoldable pub get_remote_clusters_from_local : Exec W (List Cluster)
  unfolding remote_clusters
  get_remote_clusters_from_local = do
    items ← wrapping "failed to list local Cluster CRs" (clusters.list "")
    pure (remote_clusters a.converter a.cluster_id items)

  -- One pass: a failed status update is left for the next one.
  unfoldable pub agent_reconcile : Exec W (Unit {0})
  unfolding update_cluster_status refresh_local_cluster get_remote_clusters_from_local
  agent_reconcile = do
    endpoints ← wrapping "failed to collect node endpoints" (collect_endpoints a.endpoint_reporter)
    attempt (update_cluster_status endpoints)
    local ← wrapping "failed to refresh local cluster state" refresh_local_cluster
    remotes ← wrapping "failed to get remote clusters from local" get_remote_clusters_from_local
    wrapping "failed to reconcile BGP config"
        (reconcile_bgp_config a.bgp_configurator local remotes)
