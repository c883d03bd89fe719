-- ===== src/AgentPod/Environment.antt =====
-- What the agent reads of the environment that the operator wrote into its Deployment.
use mcn.Prelude.{
  ℕ, String, true, false, List, [], ◌∷◌, ◌≡◌, refl, ap, ◌∙◌, str_eq, eq_iff, inl, inr, Bool-cases,
}
use mcn.Prelude.Int.{ℤ}
use mcn.Prelude.Numerals.{trim_space, print_int, is_empty}
use mcn.Prelude.Signed.{
  plain, Fits, trim_space-plain, parse_int-print_int, print_int-plain, print_int-is_empty,
}
use mcn.Kube.Workloads.{EnvVar, value, secret_key}
use mcn.Names.{env_broker_kubeconfig}
use mcn.Crd.{Skynet}
use mcn.Pools.{Pools, value_of}
use mcn.Bootstrap.{FromEnvironment, number, or_default_namespace, load_env}
use mcn.AgentPod.{
  broker_namespace_of, broker_token_secret_name, broker_token_secret_key, broker_ca_secret_key,
  pod_env,
}

-- What Kubernetes documents of a container's environment, of which `getenv` reads: a variable has
-- its value, in which a dollar sign could stand for another variable, or the entry of the secret,
-- and is empty where an optional entry is missing. `secrets` has the entries of each secret of the
-- pod's namespace.
abbrev Gives : (String → String) → (String → List (String × String)) → EnvVar → Type 0
Gives getenv secrets x = elim x.source [
  | value v ↦ plain v ≡ true → getenv x.name ≡ v
  | secret_key name key optional ↦ getenv x.name ≡ value_of key (secrets name)
]

abbrev GivesAll : (String → String) → (String → List (String × String)) → List EnvVar → Type 0
GivesAll getenv secrets [] = Unit
GivesAll getenv secrets (x ∷ xs) = Gives getenv secrets x × GivesAll getenv secrets xs

-- The container has its variables, beside those that Kubernetes and the image add, among which is
-- not the one that names a kubeconfig of the broker.
pub record IsPodEnv (getenv : String → String) (secrets : String → List (String × String))
    (env : List EnvVar) : Type 0 where
  pub gives : GivesAll getenv secrets env
  pub no_kubeconfig : getenv env_broker_kubeconfig ≡ ""

-- The texts that the operator writes have no white space and no dollar sign, and the numbers fit.
pub record IsWritable (sk : Skynet) (pools : Pools) : Type 0 where
  pub cluster_id : plain sk.spec.cluster_id ≡ true
  pub server : plain sk.spec.broker_config.server ≡ true
  pub broker_namespace : plain sk.spec.broker_config.broker_namespace ≡ true
  pub vtep_cidr : plain sk.status.vtep_cidr ≡ true
  pub pool_cidr : plain pools.vtep_pool_cidr ≡ true
  pub asn : Fits 32 sk.status.asn
  pub asn_min : Fits 32 pools.asn_min
  pub asn_max : Fits 32 pools.asn_max
  pub prefix_len : Fits 64 pools.vtep_prefix_len

abbrev pub delivered : Skynet → Pools → String → String → FromEnvironment
delivered sk pools token ca = record {
  cluster_id = sk.spec.cluster_id;
  broker_api_server = sk.spec.broker_config.server;
  broker_token = token;
  broker_ca = ca;
  broker_namespace = broker_namespace_of sk;
  broker_kubeconfig_path = "";
  allocated_vtep_cidr = sk.status.vtep_cidr;
  allocated_asn = sk.status.asn;
  pool_asn_min = pools.asn_min;
  pool_asn_max = pools.asn_max;
  pool_vtep_cidr = pools.vtep_pool_cidr;
  pool_vtep_prefix_len = pools.vtep_prefix_len;
}

str_eq-is_empty : (s : String) → is_empty s ≡ false → str_eq s "" ≡ false
str_eq-is_empty s h = elim (Bool-cases (str_eq s "")) [
  | inl same ↦ cc (ap is_empty ((eq_iff s "").0 same))
  | inr other ↦ other
]

number-print_int : (bits : ℕ) (z : ℤ) → Fits bits z → number bits (print_int z) ≡ z
unfolding number
number-print_int bits z h =
    rw (trim_space-plain (print_int z) (print_int-plain z))
      (rw (str_eq-is_empty (print_int z) (print_int-is_empty z), parse_int-print_int bits z h) refl)

broker_namespace_of-plain :
    (sk : Skynet)
    → plain sk.spec.broker_config.broker_namespace ≡ true
    → plain (broker_namespace_of sk) ≡ true
broker_namespace_of-plain sk h =
    elim (Bool-cases (str_eq sk.spec.broker_config.broker_namespace "")) [
      | inl unset ↦ rw unset refl
      | inr set ↦ rw set h
    ]

pub broker_namespace_of-set : (sk : Skynet) → str_eq (broker_namespace_of sk) "" ≡ false
broker_namespace_of-set sk = elim (Bool-cases (str_eq sk.spec.broker_config.broker_namespace "")) [
  | inl unset ↦ rw unset refl
  | inr set ↦ rw set set
]

-- A variable with a plain value, and one with a numeral.
trimmed : (s v : String) → plain v ≡ true → s ≡ v → trim_space s ≡ v
trimmed s v h e = ap trim_space e ∙ trim_space-plain v h

read_number : (bits : ℕ) (s : String) (z : ℤ) → Fits bits z → s ≡ print_int z → number bits s ≡ z
read_number bits s z h e = ap (number bits) e ∙ number-print_int bits z h

or_default_namespace-set : (v : String) → str_eq v "" ≡ false → or_default_namespace v ≡ v
or_default_namespace-set v h = rw h refl

module _ (getenv : String → String) (secrets : String → List (String × String)) (sk : Skynet)
    (pools : Pools) (p : IsPodEnv getenv secrets (pod_env sk pools)) where
  abbrev pub token : String
  token = value_of broker_token_secret_key (secrets broker_token_secret_name)

  abbrev pub ca : String
  ca = value_of broker_ca_secret_key (secrets broker_token_secret_name)

  -- In the pod that Kubernetes makes of the operator's template, LoadEnv reads the cluster's id, the
  -- broker's address and namespace, the allocation and the pools exactly as the operator has them,
  -- and the token and the CA of the mirrored secret, where the texts have no white space and no
  -- dollar sign and the numbers fit the words that they are read into, and nothing else sets
  -- SKYNET_BROKER_KUBECONFIG in the container.
  pub load_env-pod_env :
      IsWritable sk pools → plain token ≡ true → load_env getenv ≡ delivered sk pools token ca
  unfolding load_env pod_env
  load_env-pod_env w t =
      let g = p.gives in
      let ns = broker_namespace_of-plain sk w.broker_namespace in
      let n = print_int-plain in
      λ i. record {
        cluster_id = trimmed _ _ w.cluster_id (g.0 w.cluster_id) i;
        broker_api_server = trimmed _ _ w.server (g.1.0 w.server) i;
        broker_token = trimmed _ _ t g.1.1.1.0 i;
        broker_ca = g.1.1.1.1.1.1.1.1.1.1.0 i;
        broker_namespace =
            (ap or_default_namespace (trimmed _ _ ns (g.1.1.0 ns))
                ∙ or_default_namespace-set (broker_namespace_of sk) (broker_namespace_of-set sk))
              i;
        broker_kubeconfig_path = trimmed _ "" refl (p.no_kubeconfig) i;
        allocated_vtep_cidr = trimmed _ _ w.vtep_cidr (g.1.1.1.1.0 w.vtep_cidr) i;
        allocated_asn = read_number 32 _ sk.status.asn w.asn (g.1.1.1.1.1.0 (n sk.status.asn)) i;
        pool_asn_min =
            read_number 32 _ pools.asn_min w.asn_min (g.1.1.1.1.1.1.0 (n pools.asn_min)) i;
        pool_asn_max =
            read_number 32 _ pools.asn_max w.asn_max (g.1.1.1.1.1.1.1.0 (n pools.asn_max)) i;
        pool_vtep_cidr = trimmed _ _ w.pool_cidr (g.1.1.1.1.1.1.1.1.0 w.pool_cidr) i;
        pool_vtep_prefix_len =
            read_number 64 _ pools.vtep_prefix_len w.prefix_len
              (g.1.1.1.1.1.1.1.1.1.0 (n pools.vtep_prefix_len)) i;
      }
