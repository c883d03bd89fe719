-- ===== src/Tests/Alloc.antt =====
-- Runs of the operator's allocators.
use mcn.Prelude.{String, false, Option, none, some, List, [], ◌∷◌, ◌≡◌, refl, arith}
use mcn.Prelude.Decimal.{print_nat, read_digits}
use mcn.Prelude.Numerals.{read_unsigned, parse_int, parse_uint}
use mcn.Prelude.Int.{ℤ, pos, negsuc, max_int32}
use mcn.Kube.{
  Result, ok, err, message, api, other_reason, Value, str, int, object, obj, field, end, Converter,
  DynamicClient,
}
use mcn.Crd.{Cluster, ClusterPhase, Skynet, SkynetPhase}
use mcn.Pools.{
  validate_asn, Pools, default_pools, load_pools_from_config_map, pools_from_config_map_data,
  setting, text_setting, value_of, checked,
}
use mcn.Pools.Valid.{IsValid, load_pools_from_config_map-IsValid}
use mcn.Operator.{compute_vtep_and_asn, choose_asn, ensure_broker_unique, check_unique}
use mcn.Operator.Unique.{IsUniqueOn, compute_vtep_and_asn-IsUniqueOn}
use mcn.Cidr.{V6, v4, parse_cidr, print_cidr, print_quad, cut, parse_v4, read_octet, is_v6_text}
use mcn.Asn.{AsnAllocator, find_next_asn, is_allocated}
use mcn.Asn.Least.{find_next_asn-wraps}
use mcn.Asn.Allocate.{Allocation, allocate_asn-Allocation}
use mcn.VtepPool.{
  new_vtep_allocator, VtepAllocator, allocate_vtep_cidr, validate_vtep_cidr,
  find_next_available_cidr, scan_cidrs, is_taken, subnet_text, collect_cidrs,
}
use mcn.VtepPool.Allocate.{IsNetwork, allocate_vtep_cidr-IsNetwork, validate_vtep_cidr-allocate}

abbrev cluster : ℤ → String → Cluster
cluster asn cidr = record {
  meta = record {
    name = "east";
    namespace = "skynet-broker";
    resource_version = "1";
    generation = pos 1;
    labels = [];
    finalizers = [];
    deleting = false;
  };
  spec = record { cluster_id = "east"; vtep_cidr = cidr; asn = asn };
  status = record { phase = ClusterPhase.unset; endpoints = []; last_heartbeat = 0 };
}

abbrev encoded : ℤ → String → Value
encoded asn cidr = object (("asn", int asn) ∷ ("vtepCIDR", str cidr) ∷ [])

abbrev decoded : Value → Result Cluster
decoded (obj (field _ (int asn) (field _ (str cidr) end))) = ok (cluster asn cidr)
decoded _ = err (message "not a Cluster")

abbrev pub clusters : Converter Cluster
clusters = record {
  from_unstructured = decoded;
  to_unstructured = λ c. ok (encoded c.spec.asn c.spec.vtep_cidr);
}

abbrev pub refused : {A : Type 0} → Result A
refused = err (api other_reason "not served")

-- A broker whose state is what it lists.
abbrev pub broker : DynamicClient (List Value)
broker = record {
  at = λ gvr ns. record {
    get = λ name w. (refused, w);
    list = λ selector w. (ok w, w);
    create = λ u w. (refused, w);
    update = λ u w. (refused, w);
    patch = λ name u w. (refused, w);
    delete = λ name w. (refused, w);
  };
}

abbrev asns : AsnAllocator (List Value)
asns = record {
  broker_client = broker;
  broker_ns = "skynet-broker";
  cluster_id = "west";
  pools = default_pools;
  converter = clusters;
}

abbrev pub no_v6 : String → String → Option V6
no_v6 address mask = none

abbrev vteps : VtepAllocator (List Value)
vteps = record {
  broker_client = broker;
  broker_ns = "skynet-broker";
  cluster_id = "west";
  pools = default_pools;
  converter = clusters;
  parse_v6 = no_v6;
}

abbrev pub listed : List Value
listed = encoded (pos 64512) "100.0.0.0/16" ∷ str "damaged" ∷ []

-- The pools of a broker whose ConfigMap narrows the range.
abbrev config : String → List Value → Result (List (String × String)) × List Value
config name w = (ok (("asnMin", " 64600 ") ∷ ("vtepPrefixLen", "16") ∷ []), w)

loads :
    (load_pools_from_config_map config listed).0 ≡ ok (record default_pools { asn_min = pos 64600 })
unfolding load_pools_from_config_map pools_from_config_map_data setting text_setting value_of
    checked parse_int parse_uint read_unsigned read_digits
loads = refl

load_pools_from_config_map-IsValid_example : IsValid (record default_pools { asn_min = pos 64600 })
load_pools_from_config_map-IsValid_example =
    load_pools_from_config_map-IsValid config listed (record default_pools { asn_min = pos 64600 })
      loads

abbrev last_only : Pools
last_only = record default_pools { asn_min = pos max_int32; asn_max = pos max_int32 }

find_next_asn-wraps_example :
    find_next_asn (pos max_int32 ∷ []) last_only ≡ some (ok (negsuc max_int32))
unfolding is_allocated
find_next_asn-wraps_example = find_next_asn-wraps (pos max_int32 ∷ []) last_only refl refl refl refl

allocate_asn-Allocation_example : Allocation asns (cluster (pos 0) "") listed listed
allocate_asn-Allocation_example =
    allocate_asn-Allocation asns (cluster (pos 0) "") listed listed refl (omega arith, omega arith)
      (omega arith) refl

pub pool_parses :
    parse_cidr no_v6 "100.0.0.0/8" ≡ some (v4 (record { a = 100; b = 0; c = 0; d = 0 }) 8)
unfolding parse_cidr cut parse_v4 read_octet is_v6_text read_unsigned read_digits
pool_parses = refl

gives_second : (allocate_vtep_cidr vteps (cluster (pos 0) "") listed).0 ≡ ok "100.1.0.0/16"
unfolding allocate_vtep_cidr find_next_available_cidr collect_cidrs scan_cidrs parse_cidr cut
    parse_v4 read_octet is_v6_text read_unsigned read_digits is_taken subnet_text print_cidr
    print_quad print_nat
gives_second = refl

allocate_vtep_cidr-IsNetwork_example :
    IsNetwork vteps
      (cluster (pos 0) "")
      listed
      (record { a = 100; b = 0; c = 0; d = 0 })
      8
      "100.1.0.0/16"
allocate_vtep_cidr-IsNetwork_example =
    allocate_vtep_cidr-IsNetwork vteps (cluster (pos 0) "") listed
      (record { a = 100; b = 0; c = 0; d = 0 }) 8 "100.1.0.0/16" pool_parses refl gives_second

validate_vtep_cidr-allocate_example :
    validate_vtep_cidr no_v6 "100.1.0.0/16" (some default_pools) ≡ ok tt
validate_vtep_cidr-allocate_example =
    validate_vtep_cidr-allocate vteps (cluster (pos 0) "") listed
      (record { a = 100; b = 0; c = 0; d = 0 }) 8 "100.1.0.0/16" pool_parses refl gives_second

-- An object that asks for the AS number 64513.
abbrev pub west : Skynet
west = record {
  meta = record {
    name = "skynet";
    namespace = "skynet-operator";
    resource_version = "1";
    generation = pos 1;
    labels = [];
    finalizers = [];
    deleting = false;
  };
  spec = record {
    cluster_id = "west";
    broker_config = record {
      server = "https://broker:6443";
      broker_namespace = "";
      token_secret_ref = record { name = "broker-token"; namespace = "skynet-operator" };
    };
    vtep_cidr = "";
    asn = pos 64513;
    route_reflector_count = pos 0;
    agent = none;
  };
  status = record {
    phase = SkynetPhase.unset;
    vtep_cidr = "";
    asn = pos 0;
    agent_ready = false;
    observed_generation = pos 0;
  };
}

pub chooses :
    compute_vtep_and_asn broker "skynet-broker" clusters no_v6 default_pools west listed
    ≡ some (ok ("100.1.0.0/16", pos 64513), listed)
unfolding compute_vtep_and_asn choose_asn ensure_broker_unique check_unique validate_asn
    new_vtep_allocator allocate_vtep_cidr find_next_available_cidr collect_cidrs scan_cidrs
    parse_cidr cut parse_v4 read_octet is_v6_text read_unsigned read_digits is_taken subnet_text
    print_cidr print_quad print_nat
chooses = refl

compute_vtep_and_asn-IsUniqueOn_example :
    IsUniqueOn broker "skynet-broker" clusters no_v6 default_pools west "100.1.0.0/16"
      (pos 64513)
      listed
compute_vtep_and_asn-IsUniqueOn_example =
    compute_vtep_and_asn-IsUniqueOn broker "skynet-broker" clusters no_v6 default_pools west
      "100.1.0.0/16" (pos 64513) listed listed refl chooses
