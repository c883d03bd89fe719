-- ===== src/Crd.antt =====
-- The custom resources of skynet.io/v1 (pkg/apis/skynet.io/v1/types.go): the objects that the
-- agents, the broker and the operator exchange. Kubernetes' own metadata is `Kube.ObjectMeta`.
use mcn.Prelude.{ℕ, String, Bool, Option, List}
use mcn.Prelude.Int.{ℤ}
use mcn.Kube.{ObjectMeta, Gvr}

-- SkynetPhase is a string type; "" is the phase that is not set yet.
pub data SkynetPhase : Type 0 where
  unset pending active error : SkynetPhase

-- `replicas` is a pointer, and an empty image is none.
pub record SkynetAgentSpec : Type 0 where
  pub image : String
  pub replicas : Option ℤ

pub record SecretReference : Type 0 where
  pub name : String
  pub namespace : String

pub record BrokerConfig : Type 0 where
  pub server : String
  pub broker_namespace : String
  pub token_secret_ref : SecretReference

pub record SkynetSpec : Type 0 where
  pub cluster_id : String
  pub broker_config : BrokerConfig
  pub vtep_cidr : String
  pub asn : ℤ
  pub route_reflector_count : ℤ
  pub agent : Option SkynetAgentSpec

-- The conditions, which no code reads or writes, are left out.
pub record SkynetStatus : Type 0 where
  pub phase : SkynetPhase
  pub vtep_cidr : String
  pub asn : ℤ
  pub agent_ready : Bool
  pub observed_generation : ℤ

pub record Skynet : Type 0 where
  pub meta : ObjectMeta
  pub spec : SkynetSpec
  pub status : SkynetStatus

-- ClusterPhase is a string type; "" is the phase that is not set yet.
pub data ClusterPhase : Type 0 where
  unset pending ready degraded : ClusterPhase

pub record NodeEndpoint : Type 0 where
  pub node : String
  pub bgp_peer_ip : String
  pub vtep_ips : List String
  pub route_reflector : Bool

pub record ClusterSpec : Type 0 where
  pub cluster_id : String
  pub vtep_cidr : String
  pub asn : ℤ

-- `last_heartbeat` is a metav1.Time; the model counts it in some unit.
pub record ClusterStatus : Type 0 where
  pub phase : ClusterPhase
  pub endpoints : List NodeEndpoint
  pub last_heartbeat : ℕ

pub record Cluster : Type 0 where
  pub meta : ObjectMeta
  pub spec : ClusterSpec
  pub status : ClusterStatus

-- NetworkTopology is a string type, and the code puts "" in it.
abbrev pub NetworkTopology : Type 0
NetworkTopology = String

abbrev pub layer2 : NetworkTopology
layer2 = "Layer2"

abbrev pub layer3 : NetworkTopology
layer3 = "Layer3"

pub record MultiClusterNetworkSpec : Type 0 where
  pub vni : ℕ
  pub route_target : String
  pub topology : NetworkTopology

pub record MultiClusterNetwork : Type 0 where
  pub meta : ObjectMeta
  pub spec : MultiClusterNetworkSpec

pub record CudnSubnet : Type 0 where
  pub cidr : String
  pub host_subnet : ℤ

pub record CudnSpec : Type 0 where
  pub name : String
  pub namespace_selector : List (String × String)
  pub topology : NetworkTopology
  pub subnets : List CudnSubnet
  pub role : String

pub record CreateMultiClusterNetworkParams : Type 0 where
  pub name : String
  pub topology : NetworkTopology

pub record MultiClusterNetworkConnectSpec : Type 0 where
  pub local_cudn : String
  pub cudn_spec : Option CudnSpec
  pub multi_cluster_network_name : String
  pub create_multi_cluster_network : Option CreateMultiClusterNetworkParams

-- MultiClusterNetworkConnectPhase
pub data ConnectPhase : Type 0 where
  unset pending connected error : ConnectPhase

pub record MultiClusterNetworkConnect : Type 0 where
  pub meta : ObjectMeta
  pub spec : MultiClusterNetworkConnectSpec
  pub phase : ConnectPhase

-- The resources' names, from gvr.go; GroupName and Version are "skynet.io" and "v1".
abbrev pub cluster_gvr : Gvr
cluster_gvr = record { group = "skynet.io"; version = "v1"; resource = "clusters" }

abbrev pub multi_cluster_network_gvr : Gvr
multi_cluster_network_gvr = record {
  group = "skynet.io";
  version = "v1";
  resource = "multiclusternetworks";
}
