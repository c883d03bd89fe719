-- ===== src/Agent/Started.antt =====
-- What a successful start of the agent has done.
use mcn.Prelude.{some, ◌≡◌}
use mcn.Kube.{ok}
use mcn.Crd.{Cluster}
use mcn.Bgp.{BgpConfig, full_mesh}
use mcn.Endpoint.{ReporterConfig}
use mcn.Vtep.{VtepConfig, ensure_local_vtep}
use mcn.Syncer.Running.{AreRunning}
use mcn.Vtep.Ensured.{IsEnsured}
use mcn.Registration.{NewAgent, register_cluster}
use mcn.Registration.Registered.{IsRegistered}
use mcn.Agent.{Agent, init_runtime_components, start_agent}

module _ {W S : Type 0} (a : NewAgent W S) where
  -- The components work for the cluster's own id and with the allocation of `c`.
  pub record IsFitted (c : Cluster) (started : Agent W S) : Type 0 where
    pub base : started.base ≡ a
    pub vtep_cidr : started.vtep_manager.vtep_cidr ≡ c.spec.vtep_cidr
    pub vtep_cluster : started.vtep_manager.cluster_id ≡ a.cluster_id
    pub bgp_asn : started.bgp_configurator.local_asn ≡ c.spec.asn
    pub bgp_cidr : started.bgp_configurator.vtep_cidr ≡ c.spec.vtep_cidr
    pub bgp_cluster : started.bgp_configurator.cluster_id ≡ a.cluster_id
    pub reporter_cluster : started.endpoint_reporter.cluster_id ≡ a.cluster_id

  abbrev vtep_config : Cluster → VtepConfig W
  vtep_config c = record {
    local_client = some a.local_client;
    cluster_id = a.cluster_id;
    vtep_cidr = c.spec.vtep_cidr;
  }

  abbrev bgp_config : Cluster → BgpConfig W
  bgp_config c = record {
    local_client = some a.local_client;
    cluster_id = a.cluster_id;
    local_asn = c.spec.asn;
    vtep_cidr = c.spec.vtep_cidr;
    topology = full_mesh;
  }

  abbrev reporter_config : ReporterConfig W
  reporter_config = record {
    k8s_client = a.local_k8s_client;
    cluster_id = a.cluster_id;
    route_reflector_selector = "skynet.io/route-reflector=true";
  }

  -- How Start's calls after the registration ended.
  pub record IsStarted (c : Cluster) (started : Agent W S) (later : W) : Type 0 where
    pub registered : W
    pub ensured : W
    pub registers : IsRegistered a c registered
    pub fits : IsFitted c started
    pub ensures : IsEnsured started.vtep_manager registered ensured
    pub syncs : AreRunning a.broker_syncer ensured later

  module _ (w w' : W) (started : Agent W S) (c : Cluster)
      (r : start_agent a w ≡ (ok (started, c), w')) where
    module _ (d : Cluster) (m : Agent W S) (h : (register_cluster a w).0 ≡ ok d)
        (k : init_runtime_components a d ≡ ok m) where
      abbrev at_vtep : W
      at_vtep = (register_cluster a w).1

      abbrev at_syncer : W
      at_syncer = (ensure_local_vtep m.vtep_manager at_vtep).1
