-- ===== src/Tests/Loops.antt =====
-- The agent's two loops on a server whose state is the cluster's object.
use mcn.Prelude.{
  ℕ, zero, suc, ◌+◌, String, true, false, none, some, List, [], ◌∷◌, ◌≡◌, refl, ap, sym, ◌∙◌,
  str_eq, str_append, eq_iff, Bool-cases, inl, inr, if◌then◌else◌, arith,
}
use mcn.Prelude.Int.{ℤ, pos}
use mcn.Kube.{Result, ok_inj, ok, err, api, other_reason, conflict, Value, Converter, DynamicClient}
use mcn.Crd.{Cluster, ClusterPhase, NodeEndpoint}
use mathlib.Core.Logic.{◌≢◌}
use text.Mathlib.TextLemmas.{nil-append, cons-append}
use mcn.Pools.{default_pools}
use mcn.Endpoint.{NodeClient}
use mcn.Syncer.{Admiral}
use mcn.Agent.{
  Agent, with_heartbeat, with_endpoints, update_heartbeat, update_cluster_status, update_attempts,
}
use mcn.Agent.Writes.{with_version, IsBeaten, IsReportedOn}
use mcn.Agent.Interleaved.{IsVersioned, update_heartbeat-Write, update_cluster_status-Write}
use mcn.Tests.Cluster.{machinery}
use mcn.Tests.ClusterCodec.{encoded, decoded, decoded-encoded}

-- The server: the object but for its version, the version, and how often another client beats right
-- after a read.
record Server : Type 0 where
  object : Cluster
  version : String
  beats : ℕ

abbrev bump : String → String
bump s = str_append "x" s

abbrev seen : Server → Cluster
seen w = with_version (str_append "v" w.version) w.object.meta.generation w.object

abbrev interfere : Server → ℕ → Server
interfere w zero = w
interfere w (suc n) = record w {
  object = with_heartbeat 9 w.object;
  version = bump w.version;
  beats = n;
}

abbrev next_generation : ℤ → ℤ
next_generation (pos n) = pos (n + 1)
next_generation z = z

-- A write moves the generation on.
abbrev grown : Cluster → Cluster
grown c = with_version c.meta.resource_version (next_generation c.meta.generation) c

abbrev update_on : Value → Server → Result Value × Server
update_on v w =
    if str_eq (decoded v).meta.resource_version (str_append "v" w.version)
    then (ok v, record w { object = grown (decoded v); version = bump w.version })
    else (err (api conflict "the object has been modified"), w)

abbrev refused : {A : Type 0} → Result A
refused = err (api other_reason "not served")

abbrev client : DynamicClient Server
client = record {
  at = λ gvr ns. record {
    get = λ name w. (ok (encoded (seen w)), interfere w w.beats);
    list = λ selector w. (ok [], w);
    create = λ u w. (refused, w);
    update = update_on;
    patch = λ name u w. (refused, w);
    delete = λ name w. (refused, w);
  };
}

abbrev admiral : Admiral Server (Unit {0})
admiral = record { new_syncer = λ c. ok tt; start = λ s w. (ok tt, w) }

abbrev clusters_of : Converter Cluster
clusters_of = record {
  from_unstructured = λ u. ok (decoded u);
  to_unstructured = λ c. ok (encoded c);
}

abbrev nodes : NodeClient Server
nodes = record {
  list = λ w. (ok [], w);
  get = λ name w. (refused, w);
  update = λ n w. (refused, w);
}

abbrev agent : Agent Server (Unit {0})
agent = record {
  base = record {
    platform = record {
      converter = clusters_of;
      admiral = admiral;
      sleep = λ seconds w. w;
      now = λ w. 7;
      parse_v6 = λ address mask. none;
      v6_with_last = λ s b. s;
      machinery = machinery;
    };
    cluster_id = "east";
    operator_vtep_cidr = "100.0.0.0/16";
    operator_asn = pos 64512;
    broker_pools = default_pools;
    local_client = client;
    local_k8s_client = some nodes;
    broker_client = client;
    broker_ns = "skynet-broker";
    broker_syncer = record {
      cluster_id = "east";
      local_client = client;
      broker_client = client;
      broker_ns = "skynet-broker";
      converter = clusters_of;
      admiral = admiral;
    };
  };
  vtep_manager = record {
    local_client = client;
    cluster_id = "east";
    vtep_cidr = "100.0.0.0/16";
    vtep_ip_index = 1;
    machinery = machinery;
    parse_v6 = λ address mask. none;
    v6_with_last = λ s b. s;
  };
  bgp_configurator = record {
    local_client = client;
    cluster_id = "east";
    local_asn = pos 64512;
    vtep_cidr = "100.0.0.0/16";
    topology = "FullMesh";
    machinery = machinery;
  };
  endpoint_reporter = record { k8s_client = nodes; cluster_id = "east"; route_reflector_sel = "" };
}

abbrev text_length : String → ℕ
text_length String.[] = 0
text_length (String.◌∷◌ c s) = suc (text_length s)

length-prefixed : (s : String) → text_length (str_append "v" s) ≡ suc (text_length s)
length-prefixed s = rw (cons-append "v" String.[] s, nil-append s) refl

length-bump : (s : String) → text_length (bump s) ≡ suc (text_length s)
length-bump s = rw (cons-append "x" String.[] s, nil-append s) refl

bump-ne : (s : String) → str_append "v" s ≢ str_append "v" (bump s)
bump-ne s h =
    absurd
      (omega (arith, ap text_length h, length-prefixed s, length-prefixed (bump s), length-bump s))

prefixed-set : (s : String) → str_eq (str_append "v" s) "" ≡ false
prefixed-set s = elim (Bool-cases (str_eq (str_append "v" s) "")) [
  | inr set ↦ set
  | inl empty ↦
      absurd
        (omega (arith, ap text_length ((eq_iff (str_append "v" s) "").0 empty), length-prefixed s))
]

unchanged :
    (w : Server) (n : ℕ)
    → (seen w).meta.resource_version ≡ (seen (interfere w n)).meta.resource_version
    → seen w ≡ seen (interfere w n)
unchanged w zero h = refl
unchanged w (suc n) h = absurd (bump-ne w.version h)

stores :
    (v : Value) (w : Server)
    → str_eq (decoded v).meta.resource_version (str_append "v" w.version) ≡ true
    → (update_on v w).1 ≡ record w { object = grown (decoded v); version = bump w.version }
stores v w h = rw h refl

accepted :
    (c : Cluster) (v x : Value) (w : Server)
    → clusters_of.to_unstructured c ≡ ok v
    → (update_on v w).0 ≡ ok x
    → (c.meta.resource_version ≡ (seen w).meta.resource_version)
      × ((n : String) × (g : ℤ) × (seen (update_on v w).1 ≡ with_version n g c))
accepted c v x w e u =
    let same : decoded v ≡ c = sym (ap decoded (ok_inj e)) ∙ decoded-encoded c in
    elim (Bool-cases (str_eq (decoded v).meta.resource_version (str_append "v" w.version))) [
      | inr stale ↦ absurd (ground arith)
      | inl current ↦
          let version =
            (eq_iff (decoded v).meta.resource_version (str_append "v" w.version)).0 current in
          (
            sym (ap (λ d. d.meta.resource_version) same) ∙ version,
            (
              str_append "v" (bump w.version),
              next_generation (decoded v).meta.generation,
              ap seen (stores v w current)
                  ∙ ap
                      (with_version (str_append "v" (bump w.version))
                        (next_generation (decoded v).meta.generation))
                      same,
            ),
          )
    ]

agent-IsVersioned : IsVersioned agent seen seen
agent-IsVersioned = record {
  reads = λ w u e. ap ok (ap decoded (sym (ok_inj e)) ∙ decoded-encoded (seen w));
  versions = λ w h. unchanged w w.beats h;
  named = λ w. prefixed-set w.version;
  accepts = λ c v x w e u _. accepted c v x w e u;
}

abbrev east : Cluster
east = record {
  meta = record {
    name = "east";
    namespace = "skynet-operator";
    resource_version = "";
    generation = pos 1;
    labels = [];
    finalizers = "f" ∷ [];
    deleting = false;
  };
  spec = record { cluster_id = "east"; vtep_cidr = "100.0.0.0/16"; asn = pos 64512 };
  status = record { phase = ClusterPhase.pending; endpoints = []; last_heartbeat = 0 };
}

-- A server where nobody interferes, and one where another client beats after the first read.
abbrev quiet : Server
quiet = record { object = east; version = ""; beats = 0 }

abbrev busy : Server
busy = record { object = east; version = ""; beats = 1 }

abbrev endpoints : List NodeEndpoint
endpoints =
    record {
      node = "a";
      bgp_peer_ip = "10.0.0.1";
      vtep_ips = "100.0.0.1" ∷ [];
      route_reflector = true;
    }
    ∷ []

abbrev after_beat : Server
after_beat = record {
  object = with_version "v" (pos 2) (with_heartbeat 7 east);
  version = "x";
  beats = 0;
}

beats_once : update_heartbeat agent (some east) quiet ≡ (ok tt, after_beat)
unfolding update_heartbeat
beats_once = refl

update_heartbeat-Write_example : IsBeaten 7 (seen quiet) (seen after_beat)
update_heartbeat-Write_example =
    update_heartbeat-Write agent seen seen agent-IsVersioned quiet after_beat east beats_once

-- The first attempt meets the other client's beat, and the second keeps it.
abbrev after_report : Server
after_report = record {
  object = with_version "vx" (pos 2) (with_endpoints endpoints (with_heartbeat 9 east));
  version = "xx";
  beats = 0;
}

reports_over_a_beat : update_cluster_status agent endpoints busy ≡ (ok tt, after_report)
unfolding update_cluster_status update_attempts
reports_over_a_beat = refl

update_cluster_status-Write_example :
    (u : Server) × (x : Value) × (after_report ≡ (update_on x (interfere u u.beats)).1)
    × IsReportedOn endpoints (seen (interfere u u.beats)) (seen after_report)
update_cluster_status-Write_example =
    update_cluster_status-Write agent seen seen agent-IsVersioned endpoints busy after_report
      reports_over_a_beat
