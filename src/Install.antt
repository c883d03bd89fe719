-- ===== src/Install.antt =====
-- What the operator puts in place when it starts and on every tick after: ensureNamespace,
-- ensureServiceAccount, ensureDeployment and main of cmd/operator/main.go.
pub mod Present
use mcn.Prelude.{ℕ, zero, suc, String, none, some, List, [], ◌∷◌, str_append, str_eq, if◌then◌else◌}
use mcn.Prelude.Int.{pos}
use mcn.Kube.{Result, ok, err, wrap, is_already_exists, Exec, pure, raise, attempt, ◌>>=◌, ◌>>◌}
use mcn.Kube.Workloads.{WorkloadMeta, Deployment, Object, namespace, service_account, deployment}
use mcn.Names.{
  operator_namespace, broker_component, broker_service_account, agent_service_account,
  broker_image_env_var, agent_image_env_var, default_broker_image, default_agent_image, app_label,
  app_value, component_label, managed_by_label, managed_by_value,
}

abbrev pub component_labels : String → List (String × String)
component_labels component =
    (app_label, app_value)
    ∷ (component_label, component)
    ∷ (managed_by_label, managed_by_value)
    ∷ []

-- `getenv` is os.Getenv.
abbrev pub broker_image : (String → String) → String
broker_image getenv =
    let img = getenv broker_image_env_var in if str_eq img "" then default_broker_image else img

abbrev pub agent_image : (String → String) → String
agent_image getenv =
    let img = getenv agent_image_env_var in if str_eq img "" then default_agent_image else img

abbrev pub the_namespace : Object
the_namespace = namespace (record {
  name = operator_namespace;
  namespace = "";
  labels = (managed_by_label, managed_by_value) ∷ [];
  controller = none;
})

abbrev pub component_meta : String → WorkloadMeta
component_meta component = record {
  name = component;
  namespace = operator_namespace;
  labels = component_labels component;
  controller = none;
}

abbrev pub the_service_account : String → Object
the_service_account sa_name = service_account (component_meta sa_name)

abbrev pub the_deployment : String → String → Object
the_deployment component image = deployment (record {
  meta = component_meta component;
  replicas = some (pos 1);
  selector = component_labels component;
  template = record {
    labels = component_labels component;
    service_account = component;
    containers = record { name = component; image = image; env = [] } ∷ [];
  };
  updated_replicas = pos 0;
  ready_replicas = pos 0;
  available_replicas = pos 0;
})

-- `create` is Create of kubernetes.Interface, with the client of the object's type and namespace.
module _ {W : Type 0} (create : Object → Exec W Object) where
  -- The end that the three functions share: an object that is there already is no error.
  unfoldable pub ensure : String → Object → Exec W (Unit {0})
  ensure what x = do
    made ← attempt (create x)
    elim made [
      | ok _ ↦ pure tt
      | err e ↦ if is_already_exists e then pure tt else raise (wrap what e)
    ]

  abbrev pub ensure_namespace : Exec W (Unit {0})
  ensure_namespace = ensure (str_append "creating namespace " operator_namespace) the_namespace

  abbrev pub ensure_service_account : String → Exec W (Unit {0})
  ensure_service_account sa_name =
      ensure (str_append "creating ServiceAccount " sa_name) (the_service_account sa_name)

  abbrev pub ensure_deployment : String → String → Exec W (Unit {0})
  ensure_deployment component image =
      ensure (str_append "creating Deployment " component) (the_deployment component image)

  -- What main does before its loop, an error for each exit.
  unfoldable pub install : (String → String) → Exec W (Unit {0})
  install getenv = do
    ensure_namespace
    ensure_service_account broker_service_account
    ensure_service_account agent_service_account
    ensure_deployment broker_component (broker_image getenv)

  -- So many ticks of the loop, which goes on after a failure. `wait` is what happens to the world
  -- between two ticks.
  unfoldable pub ticks : (W → W) → (String → String) → ℕ → W → W
  ticks wait getenv zero w = w
  ticks wait getenv (suc n) w =
      let (_, w') = ensure_deployment broker_component (broker_image getenv) (wait w) in
      ticks wait getenv n w'
