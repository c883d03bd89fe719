-- ===== src/Bootstrap.antt =====
-- The agent's environment and what it makes of it: pkg/agent/bootstrap/env.go, and main and
-- getBrokerConfig of cmd/agent/main.go.
use mcn.Prelude.{ℕ, String, Bool, not, Option, none, some, ◌&&◌, str_eq, if◌then◌else◌}
use mcn.Prelude.Int.{ℤ, pos, eqb_ℤ}
use mcn.Prelude.Numerals.{trim_space, parse_int}
use mcn.Kube.{Result, ok, err, message, wrap_err}
use mcn.Pools.{Pools, pools_from_values}
use mcn.Names.{
  env_cluster_id, env_broker_api_server, env_broker_token, env_broker_ca, env_broker_namespace,
  env_broker_kubeconfig, env_allocated_vtep_cidr, env_allocated_asn, env_pool_asn_min,
  env_pool_asn_max, env_pool_vtep_cidr, env_pool_vtep_prefix_len, default_broker_namespace,
}

-- int32 and int fields.
pub record FromEnvironment : Type 0 where
  pub cluster_id : String
  pub broker_api_server : String
  pub broker_token : String
  pub broker_ca : String
  pub broker_namespace : String
  pub broker_kubeconfig_path : String
  pub allocated_vtep_cidr : String
  pub allocated_asn : ℤ
  pub pool_asn_min : ℤ
  pub pool_asn_max : ℤ
  pub pool_vtep_cidr : String
  pub pool_vtep_prefix_len : ℤ

abbrev or_zero : Option ℤ → ℤ
or_zero none = pos 0
or_zero (some z) = z

-- One number: 0 where the trimmed text is empty or no number of so many bits.
unfoldable pub number : ℕ → String → ℤ
number bits s =
    let t = trim_space s in if not (str_eq t "") then or_zero (parse_int bits t) else pos 0

abbrev pub or_default_namespace : String → String
or_default_namespace s = if str_eq s "" then default_broker_namespace else s

-- `getenv` is os.Getenv, which gives "" for a variable that is not set.
unfoldable pub load_env : (String → String) → FromEnvironment
load_env getenv = record {
  cluster_id = trim_space (getenv env_cluster_id);
  broker_api_server = trim_space (getenv env_broker_api_server);
  broker_token = trim_space (getenv env_broker_token);
  broker_ca = getenv env_broker_ca;
  broker_namespace = or_default_namespace (trim_space (getenv env_broker_namespace));
  broker_kubeconfig_path = trim_space (getenv env_broker_kubeconfig);
  allocated_vtep_cidr = trim_space (getenv env_allocated_vtep_cidr);
  allocated_asn = number 32 (getenv env_allocated_asn);
  pool_asn_min = number 32 (getenv env_pool_asn_min);
  pool_asn_max = number 32 (getenv env_pool_asn_max);
  pool_vtep_cidr = trim_space (getenv env_pool_vtep_cidr);
  pool_vtep_prefix_len = number 64 (getenv env_pool_vtep_prefix_len);
}

unfoldable pub has_broker_token_config : FromEnvironment → Bool
has_broker_token_config e = not (str_eq e.broker_api_server "") && not (str_eq e.broker_token "")

unfoldable pub has_preallocated_network : FromEnvironment → Bool
has_preallocated_network e =
    not (str_eq e.allocated_vtep_cidr "") && not (eqb_ℤ e.allocated_asn (pos 0))

unfoldable pub has_broker_pool_env : FromEnvironment → Bool
has_broker_pool_env e =
    not (eqb_ℤ e.pool_asn_min (pos 0))
    && not (eqb_ℤ e.pool_asn_max (pos 0))
    && not (str_eq e.pool_vtep_cidr "")
    && not (eqb_ℤ e.pool_vtep_prefix_len (pos 0))

-- rest.Config, the fields that the code sets. Without the bytes of a CA the connection is insecure.
pub record RestConfig : Type 0 where
  pub host : String
  pub bearer_token : String
  pub ca_bytes : String
  pub insecure : Bool

-- `from_kubeconfig` is clientcmd.BuildConfigFromFlags with no master URL.
unfoldable pub get_broker_config :
    (String → Result RestConfig) → FromEnvironment → Result RestConfig
get_broker_config from_kubeconfig e =
    if not (str_eq e.broker_kubeconfig_path "")
    then wrap_err "failed to load broker kubeconfig" (from_kubeconfig e.broker_kubeconfig_path)
    else if not (str_eq e.broker_api_server "") && not (str_eq e.broker_token "")
    then ok (record {
      host = e.broker_api_server;
      bearer_token = e.broker_token;
      ca_bytes = e.broker_ca;
      insecure = str_eq e.broker_ca "";
    })
    else err (
        message
          "broker configuration not provided (set SKYNET_BROKER_API_SERVER and SKYNET_BROKER_TOKEN, or SKYNET_BROKER_KUBECONFIG)")

-- The start of the agent's main, up to the pools: an error ends the process.
unfoldable pub start_pools : FromEnvironment → Result Pools
unfolding has_preallocated_network has_broker_pool_env
start_pools e =
    if str_eq e.cluster_id ""
    then err (message "cluster id is required (set env SKYNET_CLUSTER_ID)")
    else if not (has_preallocated_network e)
    then err (
        message
          "Operator must inject VTEP and ASN: set env SKYNET_ALLOCATED_VTEP_CIDR and SKYNET_ALLOCATED_ASN (from Skynet status)")
    else if not (has_broker_pool_env e)
    then err (
        message
          "Operator must inject broker pool bounds: set env SKYNET_POOL_ASN_MIN, SKYNET_POOL_ASN_MAX, SKYNET_POOL_VTEP_CIDR, SKYNET_POOL_VTEP_PREFIX_LEN (from broker ConfigMap skynet-broker-pools)")
    else wrap_err "Invalid broker pool env"
        (pools_from_values e.pool_asn_min e.pool_asn_max e.pool_vtep_cidr e.pool_vtep_prefix_len)
