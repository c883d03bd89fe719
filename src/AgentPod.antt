-- ===== src/AgentPod.antt =====
-- The agent's Deployment as the operator wants it: pkg/operator/skynet/agent_resources.go.
pub mod BrokerSecret
pub mod Environment
pub mod Token
pub mod Applied
use mcn.Prelude.{
  ℕ, String, Bool, true, false, not, Option, none, some, List, [], ◌∷◌, str_append, str_eq, ◌&&◌,
  if◌then◌else◌,
}
use mcn.Prelude.Int.{ℤ, pos, ltb_ℤ}
use mcn.Prelude.Numerals.{print_int}
use mcn.Kube.{
  Result, ok, err, Error, message, wrap, wrap_err, is_not_found, Exec, pure, raise, lift, attempt,
  wrapping, ◌>>=◌, ◌>>◌,
}
use mcn.Kube.Workloads.{
  WorkloadMeta, EnvVar, EnvSource, value, secret_key, Container, PodTemplate, Deployment, Secret,
  TypedClient,
}
use mcn.Names.{
  agent_component, agent_service_account, app_label, app_value, component_label, managed_by_label,
  managed_by_value, env_cluster_id, env_broker_api_server, env_broker_token, env_broker_ca,
  env_broker_namespace, env_allocated_vtep_cidr, env_allocated_asn, env_pool_asn_min,
  env_pool_asn_max, env_pool_vtep_cidr, env_pool_vtep_prefix_len, default_broker_namespace,
}
use mcn.Crd.{Skynet, SkynetAgentSpec, SecretReference}
use mcn.Pools.{Pools, or_default, value_of}
use mcn.Bootstrap.{RestConfig}

abbrev pub broker_token_secret_name : String
broker_token_secret_name = "skynet-broker-api"

abbrev pub broker_token_secret_key : String
broker_token_secret_key = "token"

abbrev pub broker_ca_secret_key : String
broker_ca_secret_key = "ca.crt"

-- The replicas that the object asks for, if it asks for one or more.
abbrev pub replicas_of : Option SkynetAgentSpec → ℤ
replicas_of none = pos 1
replicas_of (some a) = elim a.replicas [
  | none ↦ pos 1
  | some n ↦ if ltb_ℤ (pos 0) n then n else pos 1
]

abbrev pub pod_labels : List (String × String)
pod_labels =
    (app_label, app_value)
    ∷ (component_label, agent_component)
    ∷ (managed_by_label, managed_by_value)
    ∷ []

abbrev pub broker_namespace_of : Skynet → String
broker_namespace_of sk =
    let ns = sk.spec.broker_config.broker_namespace in
    if str_eq ns "" then default_broker_namespace else ns

abbrev given : String → String → EnvVar
given name v = record { name = name; source = value v }

abbrev from_secret : String → String → Bool → EnvVar
from_secret name key optional = record {
  name = name;
  source = secret_key broker_token_secret_name key optional;
}

-- The environment of the agent's container.
unfoldable pub pod_env : Skynet → Pools → List EnvVar
pod_env sk pools =
    given env_cluster_id sk.spec.cluster_id
    ∷ given env_broker_api_server sk.spec.broker_config.server
    ∷ given env_broker_namespace (broker_namespace_of sk)
    ∷ from_secret env_broker_token broker_token_secret_key false
    ∷ given env_allocated_vtep_cidr sk.status.vtep_cidr
    ∷ given env_allocated_asn (print_int sk.status.asn)
    ∷ given env_pool_asn_min (print_int pools.asn_min)
    ∷ given env_pool_asn_max (print_int pools.asn_max)
    ∷ given env_pool_vtep_cidr pools.vtep_pool_cidr
    ∷ given env_pool_vtep_prefix_len (print_int pools.vtep_prefix_len)
    ∷ from_secret env_broker_ca broker_ca_secret_key true
    ∷ []

unfoldable pub new_skynet_agent_pod_template :
    Skynet → String → List (String × String) → Option Pools → PodTemplate
unfolding pod_env
new_skynet_agent_pod_template sk image labels pools = record {
  labels = labels;
  service_account = agent_service_account;
  containers =
      record { name = agent_component; image = image; env = pod_env sk (or_default pools) } ∷ [];
}

unfoldable pub new_skynet_agent_deployment : Skynet → String → Option Pools → Deployment
unfolding new_skynet_agent_pod_template
new_skynet_agent_deployment sk image pools = record {
  meta = record {
    name = agent_component;
    namespace = sk.meta.namespace;
    labels = pod_labels;
    controller = none;
  };
  replicas = some (replicas_of sk.spec.agent);
  selector = pod_labels;
  template = new_skynet_agent_pod_template sk image pod_labels pools;
  updated_replicas = pos 0;
  ready_replicas = pos 0;
  available_replicas = pos 0;
}

-- controllerutil.SetControllerReference, on the metadata of the object that is to be owned.
abbrev pub SetController : Type 0
SetController = Skynet → WorkloadMeta → Result WorkloadMeta

-- The fields of a Deployment that an update sets.
abbrev pub updated : Deployment → WorkloadMeta → Deployment → Deployment
updated desired owned dep = record dep {
  meta = record owned { labels = desired.meta.labels };
  replicas = desired.replicas;
  selector = desired.selector;
  template = desired.template;
}

module _ {W : Type 0} (set_controller : SetController) where
  unfoldable pub create_deployment :
      TypedClient W Deployment → Skynet → Deployment → Exec W Deployment
  create_deployment c sk desired = do
    owned ←
        lift
          (wrap_err "set controller reference on new Deployment" (set_controller sk desired.meta))
    wrapping "create skynet-agent Deployment" (c.create (record desired { meta = owned }))
    wrapping "get skynet agent Deployment after create" (c.get sk.meta.namespace agent_component)

  unfoldable pub update_deployment :
      TypedClient W Deployment → Skynet → Deployment → Deployment → Exec W Deployment
  update_deployment c sk desired dep = do
    owned ← lift (wrap_err "set controller reference on Deployment" (set_controller sk dep.meta))
    wrapping "update skynet-agent Deployment" (c.update (updated desired owned dep))

  unfoldable pub reconcile_skynet_agent_deployment :
      TypedClient W Deployment → Skynet → String → Option Pools → Exec W Deployment
  unfolding new_skynet_agent_deployment create_deployment update_deployment
  reconcile_skynet_agent_deployment c sk image pools = do
    let desired = new_skynet_agent_deployment sk image pools
    found ← attempt (c.get sk.meta.namespace agent_component)
    elim found [
      | ok dep ↦ update_deployment c sk desired dep
      | err e ↦
          if not (is_not_found e)
          then raise (wrap "get skynet agent Deployment" e)
          else create_deployment c sk desired
    ]
