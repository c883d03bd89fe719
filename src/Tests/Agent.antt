-- ===== src/Tests/Agent.antt =====
-- A run of the agent's status update on a server that reports two conflicts first; the state of the
-- server is the number of conflicts that it still reports.
use mcn.Prelude.{ℕ, zero, suc, ◌%◌, true, false, none, some, List, [], ◌∷◌, ◌≡◌, ◌↔◌, refl, arith}
use mcn.Prelude.Int.{pos}
use mcn.Kube.{Result, ok, err, api, conflict, other_reason, Value, str, DynamicClient, Converter}
use mcn.Crd.{Cluster, ClusterPhase, NodeEndpoint}
use mcn.Pools.{default_pools}
use mcn.Endpoint.{NodeClient}
use mcn.Cidr.{Quad, v4, parse_cidr, cut, parse_v4, read_octet, is_v6_text, contains, print_quad}
use mcn.Prelude.Decimal.{read_digits}
use mcn.Prelude.Numerals.{read_unsigned}
use mcn.Syncer.{Admiral, BrokerSyncer, get_remote_clusters}
use mcn.Registration.{NewAgent}
use mcn.Vtep.{VtepManager}
use mcn.Vtep.Addresses.{nth, allocate_vtep_ip_addresses}
use mcn.Agent.{Agent, update_attempts, update_cluster_status, get_remote_clusters_from_local}
use mcn.Prelude.Among.{Among}
use mcn.Agent.Remote.{IsRemote, get_remote_clusters-agrees}
use mcn.Agent.Status.{IsReported, update_cluster_status-IsReported}
use mcn.Tests.Cluster.{machinery}

abbrev east : Cluster
east = record {
  meta = record {
    name = "east";
    namespace = "skynet-operator";
    resource_version = "1";
    generation = pos 1;
    labels = [];
    finalizers = [];
    deleting = false;
  };
  spec = record { cluster_id = "east"; vtep_cidr = "100.0.0.0/16"; asn = pos 64512 };
  status = record { phase = ClusterPhase.pending; endpoints = []; last_heartbeat = 0 };
}

abbrev update_on : Value → ℕ → Result Value × ℕ
update_on u zero = (ok u, zero)
update_on u (suc n) = (err (api conflict "the object has been modified"), n)

abbrev refused : {A : Type 0} → Result A
refused = err (api other_reason "not served")

abbrev pub client : DynamicClient ℕ
client = record {
  at = λ gvr ns. record {
    get = λ name w. (ok (str name), w);
    list = λ selector w. (ok (str "east" ∷ []), w);
    create = λ u w. (refused, w);
    update = update_on;
    patch = λ name u w. (refused, w);
    delete = λ name w. (refused, w);
  };
}

abbrev admiral : Admiral ℕ (Unit {0})
admiral = record { new_syncer = λ c. ok tt; start = λ s w. (ok tt, w) }

abbrev clusters_of : Converter Cluster
clusters_of = record { from_unstructured = λ u. ok east; to_unstructured = λ c. ok (str "east") }

abbrev syncer : BrokerSyncer ℕ (Unit {0})
syncer = record {
  cluster_id = "east";
  local_client = client;
  broker_client = client;
  broker_ns = "skynet-broker";
  converter = clusters_of;
  admiral = admiral;
}

abbrev pub nodes : NodeClient ℕ
nodes = record {
  list = λ w. (ok [], w);
  get = λ name w. (refused, w);
  update = λ n w. (refused, w);
}

abbrev pub base : NewAgent ℕ (Unit {0})
base = record {
  platform = record {
    converter = clusters_of;
    admiral = admiral;
    sleep = λ seconds w. w;
    now = λ w. 7;
    parse_v6 = λ address mask. none;
    v6_with_last = λ s b. s;
    machinery = machinery;
  };
  cluster_id = "east";
  operator_vtep_cidr = "100.0.0.0/16";
  operator_asn = pos 64512;
  broker_pools = default_pools;
  local_client = client;
  local_k8s_client = some nodes;
  broker_client = client;
  broker_ns = "skynet-broker";
  broker_syncer = syncer;
}

abbrev vteps : VtepManager ℕ
vteps = record {
  local_client = client;
  cluster_id = "east";
  vtep_cidr = "100.0.0.0/16";
  vtep_ip_index = 1;
  machinery = machinery;
  parse_v6 = λ address mask. none;
  v6_with_last = λ s b. s;
}

abbrev agent : Agent ℕ (Unit {0})
agent = record {
  base = base;
  vtep_manager = vteps;
  bgp_configurator = record {
    local_client = client;
    cluster_id = "east";
    local_asn = pos 64512;
    vtep_cidr = "100.0.0.0/16";
    topology = "FullMesh";
    machinery = machinery;
  };
  endpoint_reporter = record {
    k8s_client = nodes;
    cluster_id = "east";
    route_reflector_sel = "skynet.io/route-reflector=true";
  };
}

abbrev endpoints : List NodeEndpoint
endpoints =
    record { node = "a"; bgp_peer_ip = "10.0.0.1"; vtep_ips = []; route_reflector = false } ∷ []

third_try : update_cluster_status agent endpoints 2 ≡ (ok tt, 0)
unfolding update_cluster_status update_attempts
third_try = refl

update_cluster_status-IsReported_example : IsReported agent endpoints 0
update_cluster_status-IsReported_example =
    update_cluster_status-IsReported agent endpoints 2 0 third_try

network_parses :
    parse_cidr (λ address mask. none) "100.0.0.0/16"
    ≡ some (v4 (record { a = 100; b = 0; c = 0; d = 0 }) 16)
unfolding parse_cidr cut parse_v4 read_octet is_v6_text read_unsigned read_digits
network_parses = refl

abbrev network : Quad
network = record { a = 100; b = 0; c = 0; d = 0 }

allocate_vtep_ip_addresses_example :
    ((k : ℕ)
      → (ip : Quad) × (nth vteps network 16 network_parses k ≡ ok (print_quad ip))
        × (contains network 16 ip ≡ true))
    × ((j k : ℕ)
        → (nth vteps network 16 network_parses j ≡ nth vteps network 16 network_parses k)
          ↔ (j % 256 ≡ k % 256))
allocate_vtep_ip_addresses_example =
    allocate_vtep_ip_addresses vteps network 16 network_parses (omega arith)

-- An agent of another cluster, for which the listed one is remote.
abbrev viewer : Agent ℕ (Unit {0})
viewer = record agent { base = record base { cluster_id = "west" } }

abbrev viewer_syncer : BrokerSyncer ℕ (Unit {0})
viewer_syncer = record syncer { cluster_id = "west" }

get_remote_clusters-agrees_example :
    (cs : List Cluster) × ((get_remote_clusters_from_local viewer 0).0 ≡ ok cs)
    × ((get_remote_clusters viewer_syncer 0).0 ≡ ok cs)
    × ((c : Cluster) → Among c cs ↔ IsRemote clusters_of "west" c (str "east" ∷ []))
get_remote_clusters-agrees_example =
    get_remote_clusters-agrees viewer viewer_syncer (str "east" ∷ []) 0 0 refl refl refl refl
