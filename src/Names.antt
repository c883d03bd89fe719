-- ===== src/Names.antt =====
-- The names that the operator and the agent share: pkg/names/names.go, and the environment variables
-- of pkg/agent/bootstrap/env.go.
use mcn.Prelude.{String}

abbrev pub operator_namespace : String
operator_namespace = "skynet-operator"

abbrev pub broker_component : String
broker_component = "skynet-broker"

abbrev pub agent_component : String
agent_component = "skynet-agent"

abbrev pub broker_service_account : String
broker_service_account = "skynet-broker"

abbrev pub agent_service_account : String
agent_service_account = "skynet-agent"

abbrev pub broker_image_env_var : String
broker_image_env_var = "RELATED_IMAGE_BROKER"

abbrev pub agent_image_env_var : String
agent_image_env_var = "RELATED_IMAGE_AGENT"

abbrev pub default_broker_image : String
default_broker_image = "quay.io/aswinsuryan/skynet:skynet-broker-latest"

abbrev pub default_agent_image : String
default_agent_image = "quay.io/aswinsuryan/skynet:skynet-agent-latest"

abbrev pub app_label : String
app_label = "app.kubernetes.io/name"

abbrev pub app_value : String
app_value = "skynet"

abbrev pub component_label : String
component_label = "app.kubernetes.io/component"

abbrev pub managed_by_label : String
managed_by_label = "app.kubernetes.io/managed-by"

abbrev pub managed_by_value : String
managed_by_value = "skynet-operator"

abbrev pub env_cluster_id : String
env_cluster_id = "SKYNET_CLUSTER_ID"

abbrev pub env_broker_api_server : String
env_broker_api_server = "SKYNET_BROKER_API_SERVER"

abbrev pub env_broker_token : String
env_broker_token = "SKYNET_BROKER_TOKEN"

abbrev pub env_broker_ca : String
env_broker_ca = "SKYNET_BROKER_CA"

abbrev pub env_broker_namespace : String
env_broker_namespace = "SKYNET_BROKER_NAMESPACE"

abbrev pub env_broker_kubeconfig : String
env_broker_kubeconfig = "SKYNET_BROKER_KUBECONFIG"

abbrev pub env_allocated_vtep_cidr : String
env_allocated_vtep_cidr = "SKYNET_ALLOCATED_VTEP_CIDR"

abbrev pub env_allocated_asn : String
env_allocated_asn = "SKYNET_ALLOCATED_ASN"

abbrev pub env_pool_asn_min : String
env_pool_asn_min = "SKYNET_POOL_ASN_MIN"

abbrev pub env_pool_asn_max : String
env_pool_asn_max = "SKYNET_POOL_ASN_MAX"

abbrev pub env_pool_vtep_cidr : String
env_pool_vtep_cidr = "SKYNET_POOL_VTEP_CIDR"

abbrev pub env_pool_vtep_prefix_len : String
env_pool_vtep_prefix_len = "SKYNET_POOL_VTEP_PREFIX_LEN"

abbrev pub default_broker_namespace : String
default_broker_namespace = "skynet-broker"
