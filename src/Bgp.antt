-- ===== src/Bgp.antt =====
-- The BGP configuration of the nodes: pkg/agent/bgp/bgp_configurator.go.
pub mod Mesh
pub mod Mutual
pub mod Written
pub mod Config
pub mod Reconcile
use mcn.Prelude.{
  ℕ, String, Bool, true, false, not, Option, none, some, List, [], ◌∷◌, ◌++◌, ◌&&◌, str_append,
  str_eq, if◌then◌else◌,
}
use mcn.Prelude.Int.{ℤ, pos, eqb_ℤ}
use mcn.Prelude.Numerals.{print_int}
use mcn.Kube.{
  Result, ok, err, Error, message, Exec, pure, attempt, wrapping, ◌>>=◌, ◌>>◌, Value, str, int,
  bool, object, slice, Gvr, Resource, DynamicClient, Machinery,
}
use mcn.Crd.{Cluster, NodeEndpoint}

abbrev pub frr_configuration_gvr : Gvr
frr_configuration_gvr = record {
  group = "frrk8s.metallb.io";
  version = "v1beta1";
  resource = "frrconfigurations";
}

-- BGPTopology is a string type.
abbrev pub full_mesh : String
full_mesh = "FullMesh"

abbrev pub route_reflector : String
route_reflector = "RouteReflector"

pub record BgpConfigurator (W : Type 0) : Type 0 where
  pub local_client : DynamicClient W
  pub cluster_id : String
  pub local_asn : ℤ
  pub vtep_cidr : String
  pub topology : String
  pub machinery : Machinery

pub record BgpConfig (W : Type 0) : Type 0 where
  pub local_client : Option (DynamicClient W)
  pub cluster_id : String
  pub local_asn : ℤ
  pub vtep_cidr : String
  pub topology : String

unfoldable pub new_bgp_configurator :
    {W : Type 0} → Machinery → BgpConfig W → Result (BgpConfigurator W)
new_bgp_configurator lib c =
    if str_eq c.cluster_id "" then err (message "clusterID is required") else elim c.local_client [
      | none ↦ err (message "localClient is required")
      | some client ↦
          if eqb_ℤ c.local_asn (pos 0)
          then err (message "localASN is required")
          else ok (record {
            local_client = client;
            cluster_id = c.cluster_id;
            local_asn = c.local_asn;
            vtep_cidr = c.vtep_cidr;
            topology = c.topology;
            machinery = lib;
          })
    ]

-- One entry of a neighbor list; `ebgp_multi_hop` is written only where it is set.
pub record Neighbor : Type 0 where
  pub address : String
  pub asn : ℤ
  pub ebgp_multi_hop : Bool

unfoldable pub neighbor_value : Neighbor → Value
neighbor_value n = object (
    ("address", str n.address)
    ∷ ("asn", int n.asn)
    ∷ (if n.ebgp_multi_hop then ("ebgpMultiHop", bool true) ∷ [] else []))

abbrev pub intra : Cluster → NodeEndpoint → Neighbor
intra cluster e = record { address = e.bgp_peer_ip; asn = cluster.spec.asn; ebgp_multi_hop = false }

abbrev pub inter : Cluster → NodeEndpoint → Neighbor
inter cluster e = record { address = e.bgp_peer_ip; asn = cluster.spec.asn; ebgp_multi_hop = true }

-- The loop over the endpoints of the own cluster, which leaves the node itself out.
unfoldable pub intra_neighbors : String → Cluster → List NodeEndpoint → List Neighbor
intra_neighbors node_ip cluster [] = []
intra_neighbors node_ip cluster (e ∷ es) =
    let rest = intra_neighbors node_ip cluster es in
    if str_eq e.bgp_peer_ip node_ip then rest else intra cluster e ∷ rest

-- The inner loop over the endpoints of a remote cluster.
unfoldable pub inter_neighbors : String → Cluster → List NodeEndpoint → List Neighbor
inter_neighbors topology cluster [] = []
inter_neighbors topology cluster (e ∷ es) =
    let rest = inter_neighbors topology cluster es in
    if str_eq topology route_reflector && not e.route_reflector
    then rest
    else inter cluster e ∷ rest

unfoldable pub remote_neighbors : String → List Cluster → List Neighbor
unfolding inter_neighbors
remote_neighbors topology [] = []
remote_neighbors topology (c ∷ cs) =
    inter_neighbors topology c c.status.endpoints ++ remote_neighbors topology cs

module _ {W : Type 0} (c : BgpConfigurator W) where
  abbrev pub configurations : String → Resource W
  configurations ns = c.local_client.at frr_configuration_gvr ns

  unfoldable pub build_neighbors_for_node : String → Cluster → List Cluster → List Neighbor
  unfolding intra_neighbors remote_neighbors
  build_neighbors_for_node node_ip local remotes =
      intra_neighbors node_ip local local.status.endpoints ++ remote_neighbors c.topology remotes
