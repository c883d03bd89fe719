-- ===== src/Bgp/Mutual.antt =====
-- Peering in a full mesh.
use mcn.Prelude.{false, true, List, ◌≡◌, refl, inr, str_eq, arith}
use mcn.Prelude.Among.{Among}
use mcn.Crd.{Cluster, NodeEndpoint}
use mcn.Bgp.{BgpConfigurator, Neighbor, inter, route_reflector, build_neighbors_for_node}
use mcn.Bgp.Mesh.{build_neighbors_for_node_iff}

-- In a full mesh peering is mutual: of two clusters that each list the other as remote, any node of
-- the one has any node of the other for a neighbor, and conversely, each at its peer address, with
-- the AS number of the cluster it belongs to and over several hops.
pub build_neighbors_for_node_mutual :
    {W : Type 0} (c d : BgpConfigurator W) (here there : Cluster)
    (remotes_here remotes_there : List Cluster) (e f : NodeEndpoint)
    → str_eq c.topology route_reflector ≡ false
    → str_eq d.topology route_reflector ≡ false
    → Among there remotes_here
    → Among here remotes_there
    → Among e here.status.endpoints
    → Among f there.status.endpoints
    → ((n : Neighbor) × Among n (build_neighbors_for_node c e.bgp_peer_ip here remotes_here)
        × (n.address ≡ f.bgp_peer_ip)
        × (n.asn ≡ there.spec.asn)
        × (n.ebgp_multi_hop ≡ true))
      × ((n : Neighbor) × Among n (build_neighbors_for_node d f.bgp_peer_ip there remotes_there)
          × (n.address ≡ e.bgp_peer_ip)
          × (n.asn ≡ here.spec.asn)
          × (n.ebgp_multi_hop ≡ true))
build_neighbors_for_node_mutual c d here there remotes_here remotes_there e f tc td h k a b = (
  (
    inter there f,
    (build_neighbors_for_node_iff c e.bgp_peer_ip here remotes_here (inter there f)).1
        (inr (there, h, (f, b, ground arith, refl))),
    refl,
    refl,
    refl,
  ),
  (
    inter here e,
    (build_neighbors_for_node_iff d f.bgp_peer_ip there remotes_there (inter here e)).1
        (inr (here, k, (e, a, ground arith, refl))),
    refl,
    refl,
    refl,
  ),
)
