-- ===== src/Operator/Delivered.antt =====
-- What main and registerCluster of the agent make of the values that the operator delivers.
use mcn.Prelude.{
  ℕ, String, true, false, Option, none, some, ◌≡◌, inl, inr, refl, ap, str_eq, eq_iff, arith,
  Bool-cases, Option-cases,
}
use mcn.Prelude.Int.{ℤ, pos, negsuc, ◌≤ℤ◌, eqb_ℤ, IsInt32}
use mcn.Prelude.Signed.{plain, Fits}
use mcn.Kube.{Result, ok, DynamicClient}
use mcn.Crd.{Skynet}
use mcn.Cidr.{V6, Quad, Cidr, v4, v6, parse_cidr, cut}
use mcn.Cidr.Plain.{parse_cidr-plain}
use mcn.Pools.{Pools, validate_asn, pools_from_values}
use mcn.Pools.Valid.{IsValid}
use mcn.VtepPool.{validate_vtep_cidr, within_pool}
use mcn.Bootstrap.{
  RestConfig, get_broker_config, start_pools, has_preallocated_network, has_broker_pool_env,
}
use mcn.AgentPod.{broker_namespace_of}
use mcn.AgentPod.Environment.{delivered, broker_namespace_of-set}
use mcn.Endpoint.{NodeClient}
use mcn.Syncer.{new_broker_syncer}
use mcn.Registration.{
  NewAgent, Platform, new_agent, check_allocation, broker_of_environment, agent_of_environment,
}

pub Fits-int32 : (z : ℤ) → IsInt32 z → Fits 32 z
Fits-int32 (pos n) h = omega arith
Fits-int32 (negsuc n) h = omega arith

pub Fits-prefix : (z : ℤ) → pos 8 ≤ℤ z → z ≤ℤ pos 30 → Fits 64 z
Fits-prefix (pos n) h k = omega arith
Fits-prefix (negsuc n) h k = omega arith

pub validate_asn-range :
    (v : ℤ) (p : Pools) → validate_asn v (some p) ≡ ok tt → (p.asn_min ≤ℤ v) × (v ≤ℤ p.asn_max)
unfolding validate_asn
validate_asn-range v p h = (ground arith, ground arith)

-- A subnet that passes was read as an IPv4 network.
pub validate_vtep_cidr-plain :
    (parse_v6 : String → String → Option V6) (s : String) (p : Pools)
    → validate_vtep_cidr parse_v6 s (some p) ≡ ok tt
    → plain s ≡ true
unfolding validate_vtep_cidr
validate_vtep_cidr-plain parse_v6 s p h = elim (Option-cases (parse_cidr parse_v6 s)) [
  | inl e ↦ absurd (ground arith)
  | inr (v6 n m, e) ↦ absurd (ground arith)
  | inr (v4 q n, e) ↦ parse_cidr-plain parse_v6 s q n e
]

-- An empty text is no network.
pub parse_cidr-set :
    (parse_v6 : String → String → Option V6) (s : String) (q : Quad) (n : ℕ)
    → parse_cidr parse_v6 s ≡ some (v4 q n)
    → str_eq s "" ≡ false
unfolding parse_cidr cut
parse_cidr-set parse_v6 s q n h = elim (Bool-cases (str_eq s "")) [
  | inl empty ↦
      let e : parse_cidr parse_v6 s ≡ none = ap (parse_cidr parse_v6) ((eq_iff s "").0 empty) in
      cc (e, h)
  | inr set ↦ set
]

pub validate_vtep_cidr-set :
    (parse_v6 : String → String → Option V6) (s : String) (p : Pools)
    → validate_vtep_cidr parse_v6 s (some p) ≡ ok tt
    → str_eq s "" ≡ false
unfolding validate_vtep_cidr
validate_vtep_cidr-set parse_v6 s p h = elim (Option-cases (parse_cidr parse_v6 s)) [
  | inl e ↦ absurd (ground arith)
  | inr (v6 n m, e) ↦ absurd (ground arith)
  | inr (v4 q n, e) ↦ parse_cidr-set parse_v6 s q n e
]

-- The pools as the agent has them: without the VNIs, which it does not validate.
abbrev pub received : Pools → Pools
received p = record p { vni_min = 0; vni_max = 0; route_target_asn = 0 }

pub validate_asn-received :
    (v : ℤ) (p : Pools)
    → validate_asn v (some p) ≡ ok tt
    → validate_asn v (some (received p)) ≡ ok tt
unfolding validate_asn
validate_asn-received v p h = ground arith

within_pool-received :
    (o : Option Cidr) (ip : Quad) (s : String) (p : Pools)
    → within_pool o ip s p ≡ within_pool o ip s (received p)
unfolding within_pool
within_pool-received none ip s p = refl
within_pool-received (some (v6 n none)) ip s p = refl
within_pool-received (some (v6 n (some base))) ip s p = refl
within_pool-received (some (v4 base n)) ip s p = refl

pub validate_vtep_cidr-received :
    (parse_v6 : String → String → Option V6) (s : String) (p : Pools)
    → validate_vtep_cidr parse_v6 s (some p) ≡ ok tt
    → validate_vtep_cidr parse_v6 s (some (received p)) ≡ ok tt
unfolding validate_vtep_cidr
validate_vtep_cidr-received parse_v6 s p h = elim (Option-cases (parse_cidr parse_v6 s)) [
  | inl e ↦ absurd (ground arith)
  | inr (v6 n m, e) ↦ absurd (ground arith)
  | inr (v4 q n, e) ↦
      ground (arith, within_pool-received (parse_cidr parse_v6 p.vtep_pool_cidr) q s p)
]

-- A positive number is not 0.
pub nonzero : (z : ℤ) → pos 1 ≤ℤ z → eqb_ℤ z (pos 0) ≡ false
nonzero (pos n) h = ground arith
nonzero (negsuc n) h = absurd (omega arith)

pub ≤ℤ_trans : (a b c : ℤ) → a ≤ℤ b → b ≤ℤ c → a ≤ℤ c
≤ℤ_trans a b c h k = omega arith

pools_from_values-received :
    (p : Pools)
    → IsValid p
    → str_eq p.vtep_pool_cidr "" ≡ false
    → pools_from_values p.asn_min p.asn_max p.vtep_pool_cidr p.vtep_prefix_len ≡ ok (received p)
unfolding pools_from_values
pools_from_values-received p v c = ground (arith, v.asn_range, v.prefix_range)

pub start_pools-delivered :
    (sk : Skynet) (p : Pools) (t c : String)
    → IsValid p
    → str_eq sk.spec.cluster_id "" ≡ false
    → str_eq sk.status.vtep_cidr "" ≡ false
    → str_eq p.vtep_pool_cidr "" ≡ false
    → pos 1 ≤ℤ p.asn_min
    → validate_asn sk.status.asn (some p) ≡ ok tt
    → start_pools (delivered sk p t c) ≡ ok (received p)
unfolding start_pools has_preallocated_network has_broker_pool_env
start_pools-delivered sk p t c v id vtep cidr low asn =
    let range = validate_asn-range sk.status.asn p asn in
    rw
      (
        id,
        vtep,
        cidr,
        nonzero sk.status.asn (≤ℤ_trans (pos 1) p.asn_min sk.status.asn low range.0),
        nonzero p.asn_min low,
        nonzero p.asn_max (≤ℤ_trans (pos 1) p.asn_min p.asn_max low v.asn_range),
        nonzero p.vtep_prefix_len
            (≤ℤ_trans (pos 1) (pos 8) p.vtep_prefix_len (omega arith) v.prefix_range.0),
        pools_from_values-received p v cidr,
      )
      refl

pub check_allocation-passes :
    {W S : Type 0} (a : NewAgent W S)
    → str_eq a.operator_vtep_cidr "" ≡ false
    → eqb_ℤ a.operator_asn (pos 0) ≡ false
    → validate_vtep_cidr a.parse_v6 a.operator_vtep_cidr (some a.broker_pools) ≡ ok tt
    → validate_asn a.operator_asn (some a.broker_pools) ≡ ok tt
    → check_allocation a ≡ ok tt
unfolding check_allocation
check_allocation-passes a h k l m = rw (h, k, l, m) refl

-- The REST configuration of a server, a token and a CA, without which the server is not verified.
abbrev pub reaching : String → String → String → RestConfig
reaching server token ca = record {
  host = server;
  bearer_token = token;
  ca_bytes = ca;
  insecure = str_eq ca "";
}

get_broker_config-delivered :
    (kubeconfig : String → Result RestConfig) (sk : Skynet) (p : Pools) (t c : String)
    → str_eq sk.spec.broker_config.server "" ≡ false
    → str_eq t "" ≡ false
    → get_broker_config kubeconfig (delivered sk p t c)
      ≡ ok (reaching sk.spec.broker_config.server t c)
unfolding get_broker_config
get_broker_config-delivered kubeconfig sk p t c h k = rw (h, k) refl

pub reaches :
    {V : Type 0} (kubeconfig : String → Result RestConfig)
    (connect : RestConfig → Result (DynamicClient V)) (broker : DynamicClient V) (sk : Skynet)
    (p : Pools) (t c : String)
    → str_eq sk.spec.broker_config.server "" ≡ false
    → str_eq t "" ≡ false
    → connect (reaching sk.spec.broker_config.server t c) ≡ ok broker
    → broker_of_environment kubeconfig connect (delivered sk p t c) ≡ ok broker
unfolding broker_of_environment
reaches kubeconfig connect broker sk p t c h k m =
    rw (get_broker_config-delivered kubeconfig sk p t c h k, m) refl

module _ {S V : Type 0} (platform : Platform V S) (local : DynamicClient V) (k8s : NodeClient V)
    (broker : DynamicClient V) where
  -- The agent that main makes of what the operator delivered.
  abbrev pub started : Skynet → Pools → NewAgent V S
  started sk p = record {
    platform = platform;
    cluster_id = sk.spec.cluster_id;
    operator_vtep_cidr = sk.status.vtep_cidr;
    operator_asn = sk.status.asn;
    broker_pools = received p;
    local_client = local;
    local_k8s_client = some k8s;
    broker_client = broker;
    broker_ns = broker_namespace_of sk;
    broker_syncer = record {
      cluster_id = sk.spec.cluster_id;
      local_client = local;
      broker_client = broker;
      broker_ns = broker_namespace_of sk;
      converter = platform.converter;
      admiral = platform.admiral;
    };
  }

  pub makes :
      (sk : Skynet) (p : Pools) (t c : String)
      → str_eq sk.spec.cluster_id "" ≡ false
      → start_pools (delivered sk p t c) ≡ ok (received p)
      → agent_of_environment platform local k8s broker (delivered sk p t c) ≡ ok (started sk p)
  unfolding agent_of_environment new_agent new_broker_syncer
  makes sk p t c id h = rw (h, id, broker_namespace_of-set sk) refl
