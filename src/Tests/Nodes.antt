-- ===== src/Tests/Nodes.antt =====
-- Runs of the endpoint reporter and of the BGP configurator.
use mcn.Prelude.{ℕ, String, true, false, List, [], ◌∷◌, ◌≡◌, ◌↔◌, ◌⊎◌, inl, inr, refl, str_eq}
use mcn.Prelude.Among.{Among}
use mcn.Prelude.Int.{pos}
use mcn.Kube.{ok, err, api, other_reason}
use mcn.Crd.{Cluster, ClusterPhase, NodeEndpoint}
use mcn.Endpoint.{
  Node, EndpointReporter, collect_endpoints, is_route_reflector, matches_some, split, first_of,
}
use mcn.Endpoint.Ready.{IsEndpoint, collect_endpoints-Among}
use mcn.Bgp.{Neighbor, BgpConfigurator, intra, inter, build_neighbors_for_node}
use mcn.Bgp.Mesh.{IsRemote, build_neighbors_for_node_iff}
use mcn.Bgp.Mutual.{build_neighbors_for_node_mutual}
use mcn.Bgp.Config.{route_map_lines}
use mcn.Tests.Cluster.{World, machinery, integrator}

abbrev node : String → String → String → Node
node name ready ip = record {
  name = name;
  labels = ("role", "rr") ∷ [];
  conditions = ("Ready", ready) ∷ [];
  addresses = ("Hostname", name) ∷ ("InternalIP", ip) ∷ [];
}

abbrev nodes : List Node
nodes = node "a" "True" "10.0.0.1" ∷ node "b" "False" "10.0.0.2" ∷ node "c" "True" "10.0.0.3" ∷ []

abbrev reporter : EndpointReporter (List Node)
reporter = record {
  k8s_client = record {
    list = λ w. (ok w, w);
    get = λ name w. (err (api other_reason "not served"), w);
    update = λ n w. (err (api other_reason "not served"), w);
  };
  cluster_id = "east";
  route_reflector_sel = "zone=x, role = rr";
}

reflects : is_route_reflector reporter (node "a" "True" "10.0.0.1") ≡ true
unfolding is_route_reflector matches_some split first_of
reflects = refl

collect_endpoints-Among_example :
    (es : List NodeEndpoint) × ((collect_endpoints reporter nodes).0 ≡ ok es)
    × ((e : NodeEndpoint) → Among e es ↔ ((n : Node) × Among n nodes × IsEndpoint reporter n e))
collect_endpoints-Among_example = collect_endpoints-Among reporter nodes nodes refl

abbrev endpoint : String → String → NodeEndpoint
endpoint name ip = record { node = name; bgp_peer_ip = ip; vtep_ips = []; route_reflector = false }

abbrev cluster : String → ℕ → List NodeEndpoint → Cluster
cluster name asn es = record {
  meta = record {
    name = name;
    namespace = "skynet-broker";
    resource_version = "1";
    generation = pos 1;
    labels = [];
    finalizers = [];
    deleting = false;
  };
  spec = record { cluster_id = name; vtep_cidr = "100.0.0.0/16"; asn = pos asn };
  status = record { phase = ClusterPhase.ready; endpoints = es; last_heartbeat = 0 };
}

abbrev configurator : String → ℕ → BgpConfigurator World
configurator id asn = record {
  local_client = integrator.dynamic_client;
  cluster_id = id;
  local_asn = pos asn;
  vtep_cidr = "100.0.0.0/16";
  topology = "FullMesh";
  machinery = machinery;
}

abbrev pub east : Cluster
east = cluster "east" 64512 (endpoint "a" "10.0.0.1" ∷ endpoint "b" "10.0.0.2" ∷ [])

abbrev pub west : Cluster
west = cluster "west" 64513 (endpoint "x" "10.1.0.1" ∷ [])

map_lines :
    route_map_lines (inter west (endpoint "x" "10.1.0.1") ∷ [])
    ≡ "  no neighbor 10.1.0.1 route-map 10.1.0.1-out out\n  no neighbor 10.1.0.1 route-map 10.1.0.1-in in\n"
unfolding route_map_lines
map_lines = refl

build_neighbors_for_node_iff_example :
    Among
      (inter west (endpoint "x" "10.1.0.1"))
      (build_neighbors_for_node (configurator "east" 64512) "10.0.0.1" east (west ∷ []))
    ↔ (((e : NodeEndpoint) × Among e east.status.endpoints
          × (str_eq e.bgp_peer_ip "10.0.0.1" ≡ false)
          × (intra east e ≡ inter west (endpoint "x" "10.1.0.1")))
        ⊎ IsRemote "FullMesh" (inter west (endpoint "x" "10.1.0.1")) (west ∷ []))
build_neighbors_for_node_iff_example =
    build_neighbors_for_node_iff (configurator "east" 64512) "10.0.0.1" east (west ∷ [])
      (inter west (endpoint "x" "10.1.0.1"))

build_neighbors_for_node_mutual_example :
    ((n : Neighbor) × Among n
        (build_neighbors_for_node (configurator "east" 64512) "10.0.0.2" east (west ∷ []))
      × (n.address ≡ "10.1.0.1")
      × (n.asn ≡ pos 64513)
      × (n.ebgp_multi_hop ≡ true))
    × ((n : Neighbor) × Among n
          (build_neighbors_for_node (configurator "west" 64513) "10.1.0.1" west (east ∷ []))
        × (n.address ≡ "10.0.0.2")
        × (n.asn ≡ pos 64512)
        × (n.ebgp_multi_hop ≡ true))
build_neighbors_for_node_mutual_example =
    build_neighbors_for_node_mutual (configurator "east" 64512) (configurator "west" 64513) east
      west (west ∷ []) (east ∷ []) (endpoint "b" "10.0.0.2") (endpoint "x" "10.1.0.1") refl refl
      (inl refl) (inl refl) (inr (inl refl)) (inl refl)
