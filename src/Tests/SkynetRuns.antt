-- ===== src/Tests/SkynetRuns.antt =====
-- A run of the operator on a Skynet object, and the agent that accepts its allocation.
use mcn.Prelude.{String, ℕ, none, some, List, [], ◌≡◌, refl, arith}
use mcn.Prelude.Int.{pos}
use mcn.Kube.{message, Result, ok, err, api, not_found, Value}
use mcn.Kube.Workloads.{Deployment}
use mcn.Pools.{default_pools, load_pools_from_config_map, value_of}
use mcn.Pools.Valid.{IsValid, load_pools_from_config_map-IsValid}
use mcn.Registration.{broker_of_environment, NewAgent, agent_of_environment, check_allocation}
use mcn.Bootstrap.{RestConfig, load_env}
use mcn.Operator.Reconcile.{Reconciler, agent_image}
use mcn.Operator.Accepted.{IsAllocation, HasPlainSpec, allocation_accepted}
use mcn.Tests.Alloc.{west, chooses, pool_parses, broker, clusters, no_v6, listed}
use mcn.Tests.Agent.{base, nodes, client}
use mcn.Tests.Pod.{pod, getenv, entries, source}

no_config_map :
    (load_pools_from_config_map (λ name w. (err (api not_found "no ConfigMap"), w)) listed).0
    ≡ ok default_pools
unfolding load_pools_from_config_map
no_config_map = refl

defaults-IsValid : IsValid default_pools
defaults-IsValid =
    load_pools_from_config_map-IsValid (λ name w. (err (api not_found "no ConfigMap"), w)) listed
      default_pools no_config_map

abbrev west_allocation :
    IsAllocation broker "skynet-broker" clusters no_v6 default_pools west "100.1.0.0/16" (pos 64513)
west_allocation = record {
  valid = defaults-IsValid;
  positive = omega arith;
  below_top = omega arith;
  base = record { a = 100; b = 0; c = 0; d = 0 };
  length = 8;
  pool = pool_parses;
  none_yet = refl;
  before = listed;
  later = listed;
  run = chooses;
}

abbrev west_texts : HasPlainSpec west
west_texts = record {
  server_set = refl;
  set = refl;
  cluster_id = refl;
  server = refl;
  broker_namespace = refl;
}

abbrev no_kubeconfig : String → Result RestConfig
no_kubeconfig path = err (message "no such file")

allocation_accepted_example :
    (broker_of_environment no_kubeconfig (λ c. ok client) (load_env getenv) ≡ ok client)
    × (a : NewAgent ℕ (Unit {0})) × (agent_of_environment base.platform client nodes client
          (load_env getenv)
        ≡ ok a)
    × (a.operator_vtep_cidr ≡ "100.1.0.0/16")
    × (a.operator_asn ≡ pos 64513)
    × (check_allocation a ≡ ok tt)
unfolding value_of
allocation_accepted_example =
    allocation_accepted base.platform client nodes client broker "skynet-broker" clusters
      default_pools west "100.1.0.0/16" (pos 64513) west_allocation west_texts getenv entries pod
      no_kubeconfig (λ c. ok client) refl refl refl

abbrev running : Deployment
running = record {
  meta = record {
    name = "skynet-agent";
    namespace = "skynet-operator";
    labels = [];
    controller = none;
  };
  replicas = some (pos 2);
  selector = [];
  template = record { labels = []; service_account = ""; containers = [] };
  updated_replicas = pos 1;
  ready_replicas = pos 1;
  available_replicas = pos 1;
}

-- The operator's servers, with the broker's listing for their state.
abbrev operator : Reconciler (List Value)
operator = record {
  get_skynet = λ namespace name w. (ok west, w);
  update_status = λ sk w. (ok tt, w);
  deployments = record {
    get = λ namespace name w. (ok running, w);
    create = λ dep w. (ok dep, w);
    update = λ dep w. (ok dep, w);
  };
  secrets = record {
    get = λ namespace name w. (ok source, w);
    create = λ s w. (ok s, w);
    update = λ s w. (ok s, w);
  };
  create_or_update = λ namespace name mutate w. (ok tt, w);
  set_controller = λ sk m. ok m;
  agent_image = "";
  new_dynamic = λ c. ok broker;
  new_kubernetes = λ c. ok (λ namespace name w. (err (api not_found "no ConfigMap"), w));
  converter = clusters;
  parse_v6 = no_v6;
}
