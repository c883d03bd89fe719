-- ===== src/Tests/Pod.antt =====
-- The operator's allocation in an agent's pod.
use mcn.Prelude.{String, false, none, List, [], ◌∷◌, ◌≡◌, refl, str_eq, if◌then◌else◌, arith}
use mcn.Prelude.Int.{pos}
use mcn.Kube.{Result, ok, err, message}
use mcn.Kube.Workloads.{EnvVar, EnvSource, value, secret_key, Secret}
use mcn.Crd.{Skynet}
use mcn.Pools.{default_pools, value_of}
use mcn.Bootstrap.{RestConfig, load_env, get_broker_config}
use mcn.AgentPod.{pod_env}
use mcn.AgentPod.BrokerSecret.{token_of, mirrored, set_entry, delete_entry, rest_config_for_broker}
use mcn.AgentPod.Environment.{IsPodEnv, IsWritable, delivered, load_env-pod_env}
use mcn.AgentPod.Token.{get_broker_config-mirrored}
use mcn.Operator.{with_allocation}
use mcn.Tests.Alloc.{west}

abbrev pub allocated : Skynet
allocated = with_allocation "100.1.0.0/16" (pos 64513) west

abbrev pub entries : String → List (String × String)
entries name =
    if str_eq name "skynet-broker-api" then ("token", "abc") ∷ ("ca.crt", "PEM") ∷ [] else []

-- A container that has the variables of the list, and two that Kubernetes adds.
abbrev value_in : EnvSource → String
value_in (value v) = v
value_in (secret_key name key optional) = value_of key (entries name)

abbrev variable : List EnvVar → String → String
variable [] name =
    if str_eq name "HOSTNAME"
    then "skynet-agent-7d4f"
    else if str_eq name "KUBERNETES_SERVICE_HOST"
    then "10.96.0.1"
    else ""
variable (x ∷ xs) name = if str_eq x.name name then value_in x.source else variable xs name

abbrev pub getenv : String → String
unfolding pod_env
getenv = variable (pod_env allocated default_pools)

pub pod : IsPodEnv getenv entries (pod_env allocated default_pools)
unfolding pod_env value_of
pod = record {
  gives = (
    λ _. refl,
    (
      λ _. refl,
      (
        λ _. refl,
        (
          refl,
          (λ _. refl, (λ _. refl, (λ _. refl, (λ _. refl, (λ _. refl, (λ _. refl, (refl, tt))))))),
        ),
      ),
    ),
  );
  no_kubeconfig = refl;
}

writable : IsWritable allocated default_pools
writable = record {
  cluster_id = refl;
  server = refl;
  broker_namespace = refl;
  vtep_cidr = refl;
  pool_cidr = refl;
  asn = omega arith;
  asn_min = omega arith;
  asn_max = omega arith;
  prefix_len = omega arith;
}

load_env-pod_env_example : load_env getenv ≡ delivered allocated default_pools "abc" "PEM"
unfolding value_of
load_env-pod_env_example = load_env-pod_env getenv entries allocated default_pools pod writable refl

abbrev pub secret : List (String × String) → Secret
secret es = record {
  meta = record { name = "s"; namespace = "skynet-operator"; labels = []; controller = none };
  kind = "Opaque";
  entries = es;
}

-- The broker's secret, and the mirrored one before, with an older token.
abbrev pub source : Secret
source = secret (("ca.crt", "PEM") ∷ ("token", "abc") ∷ [])

abbrev mirror : Secret
mirror = secret (("token", "old") ∷ [])

abbrev config : RestConfig
config = record {
  host = "https://broker:6443";
  bearer_token = "abc";
  ca_bytes = "PEM";
  insecure = false;
}

abbrev no_kubeconfig : String → Result RestConfig
no_kubeconfig name = err (message "no such file")

mirrors :
    mirrored (λ sk m. ok m) allocated source (token_of source) mirror
    ≡ ok (secret (("token", "abc") ∷ ("ca.crt", "PEM") ∷ []))
unfolding mirrored token_of value_of set_entry delete_entry
mirrors = refl

get_broker_config-mirrored_example :
    (c : RestConfig) × (get_broker_config no_kubeconfig (load_env getenv) ≡ ok c)
    × (rest_config_for_broker "https://broker:6443"
          (token_of source)
          (value_of "ca.crt" source.entries)
        ≡ ok c)
unfolding token_of value_of
get_broker_config-mirrored_example =
    get_broker_config-mirrored getenv entries allocated default_pools (λ sk m. ok m) no_kubeconfig
      source mirror (secret (("token", "abc") ∷ ("ca.crt", "PEM") ∷ [])) pod writable refl refl refl
      mirrors refl
