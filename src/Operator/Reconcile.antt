-- ===== src/Operator/Reconcile.antt =====
-- One reconciliation of a Skynet object: Reconcile, brokerRESTConfig and agentImage of
-- pkg/operator/skynet/reconciler.go.
use mcn.Cidr.{V6}
use mcn.Prelude.{
  String, Bool, true, false, not, Option, none, some, List, ◌&&◌, str_eq, if◌then◌else◌,
}
use mcn.Prelude.Int.{ℤ, eqb_ℤ}
use mcn.Kube.{
  Result, ok, err, wrap, wrap_err, is_not_found, is_conflict, Exec, pure, raise, lift, attempt,
  wrapping, ◌>>=◌, ◌>>◌, Converter, DynamicClient,
}
use mcn.Kube.Workloads.{Deployment, Secret, TypedClient}
use mcn.Names.{default_agent_image}
use mcn.Crd.{Cluster, Skynet, SkynetAgentSpec, SkynetPhase, SkynetStatus}
use mcn.Pools.{Pools, load_pools_from_config_map, value_of}
use mcn.Bootstrap.{RestConfig}
use mcn.AgentPod.{SetController, broker_namespace_of, reconcile_skynet_agent_deployment}
use mcn.AgentPod.BrokerSecret.{token_of, rest_config_for_broker, reconcile_broker_token_secret}
use mcn.Operator.{compute_vtep_and_asn, deployment_rollout_complete, with_allocation}

-- `new_dynamic` and `new_kubernetes` are the constructors of the broker's clients, the second of
-- them as far as it reads ConfigMaps by namespace and name, and `update_status` is
-- Client.Status().Update.
pub record Reconciler (W : Type 0) : Type 0 where
  pub get_skynet : String → String → Exec W Skynet
  pub update_status : Skynet → Exec W (Unit {0})
  pub deployments : TypedClient W Deployment
  pub secrets : TypedClient W Secret
  pub create_or_update : String → String → (Secret → Result Secret) → Exec W (Unit {0})
  pub set_controller : SetController
  pub agent_image : String
  pub new_dynamic : RestConfig → Result (DynamicClient W)
  pub new_kubernetes : RestConfig → Result (String → String → Exec W (List (String × String)))
  pub converter : Converter Cluster
  pub parse_v6 : String → String → Option V6

-- ctrl.Result: whether it asks for another run.
pub data Outcome : Type 0 where
  finished requeued : Outcome

abbrev pub same_phase : SkynetPhase → SkynetPhase → Bool
same_phase SkynetPhase.unset SkynetPhase.unset = true
same_phase SkynetPhase.pending SkynetPhase.pending = true
same_phase SkynetPhase.active SkynetPhase.active = true
same_phase SkynetPhase.error SkynetPhase.error = true
same_phase _ _ = false

abbrev pub same_bool : Bool → Bool → Bool
same_bool true b = b
same_bool false b = not b

-- reflect.DeepEqual
unfoldable pub same_status : SkynetStatus → SkynetStatus → Bool
same_status a b =
    same_phase a.phase b.phase
    && str_eq a.vtep_cidr b.vtep_cidr
    && eqb_ℤ a.asn b.asn
    && same_bool a.agent_ready b.agent_ready
    && eqb_ℤ a.observed_generation b.observed_generation

abbrev or_image : String → Option SkynetAgentSpec → String
or_image image none = image
or_image image (some a) = if not (str_eq a.image "") then a.image else image

-- The status at the end of a run.
abbrev pub concluded : Skynet → String → ℤ → Deployment → Skynet
concluded sk vtep asn dep = record sk {
  status = record sk.status {
    vtep_cidr = vtep;
    asn = asn;
    agent_ready = deployment_rollout_complete (some dep);
    phase = SkynetPhase.active;
    observed_generation = sk.meta.generation;
  };
}

module _ {W : Type 0} (r : Reconciler W) where
  unfoldable pub agent_image : Skynet → String
  agent_image sk =
      or_image (if not (str_eq r.agent_image "") then r.agent_image else default_agent_image)
        sk.spec.agent

  unfoldable pub broker_rest_config : Skynet → Exec W RestConfig
  unfolding token_of value_of
  broker_rest_config sk = do
    let ref = sk.spec.broker_config.token_secret_ref
    sec ← wrapping "get broker token secret" (r.secrets.get ref.namespace ref.name)
    lift (
        rest_config_for_broker sk.spec.broker_config.server (token_of sec)
          (value_of "ca.crt" sec.entries))

  -- With the object read: the broker's client and the pools.
  unfoldable pub preparing : Skynet → Exec W (Option (Skynet × DynamicClient W × Pools))
  unfolding broker_rest_config
  preparing sk = do
    wrapping "sync broker token secret"
        (reconcile_broker_token_secret r.secrets r.create_or_update r.set_controller sk)
    config ← wrapping "broker rest config" (broker_rest_config sk)
    broker ← lift (wrap_err "broker dynamic client" (r.new_dynamic config))
    config_maps ← lift (wrap_err "broker kubernetes client" (r.new_kubernetes config))
    pools ←
        wrapping "load broker pool ConfigMap"
          (load_pools_from_config_map (config_maps (broker_namespace_of sk)))
    pure (some (sk, broker, pools))

  -- Up to the pools: the object, the broker's client and the pools; none if there is no object.
  unfoldable pub prepare : String → String → Exec W (Option (Skynet × DynamicClient W × Pools))
  unfolding preparing
  prepare namespace name = do
    found ← attempt (r.get_skynet namespace name)
    elim found [ err e ↦ if is_not_found e then pure none else raise e | ok sk ↦ preparing sk ]

  -- The status update at the end, if the status differs from the one that was read.
  unfoldable pub write_status : Skynet → Skynet → Exec W Outcome
  unfolding same_status
  write_status sk done = if same_status done.status sk.status then pure finished else do
    written ← attempt (r.update_status done)
    elim written [
      | ok _ ↦ pure finished
      | err e ↦ if is_conflict e then pure requeued else raise (wrap "update Skynet status" e)
    ]

  -- From the allocation on.
  unfoldable pub conclude : Skynet → Pools → String → ℤ → Exec W Outcome
  unfolding agent_image write_status
  conclude sk pools vtep asn = do
    dep ← wrapping "reconcile skynet-agent Deployment" (
        reconcile_skynet_agent_deployment r.set_controller r.deployments
          (with_allocation vtep asn sk) (agent_image (with_allocation vtep asn sk)) (some pools))
    write_status sk (concluded sk vtep asn dep)

  abbrev pub allocating : Skynet → DynamicClient W → Pools → W → Option (Result (String × ℤ) × W)
  allocating sk broker pools =
      compute_vtep_and_asn broker (broker_namespace_of sk) r.converter r.parse_v6 pools sk

  -- From the pools on; none for an allocation that runs for ever.
  unfoldable pub allocate_and_conclude :
      Skynet → DynamicClient W → Pools → W → Option (Result Outcome × W)
  unfolding conclude
  allocate_and_conclude sk broker pools w = elim (allocating sk broker pools w) [
    | none ↦ none
    | some (chosen, w') ↦ elim chosen [
      | err e ↦ some (err (wrap "compute VTEP/ASN" e), w')
      | ok (vtep, asn) ↦ some (conclude sk pools vtep asn w')
    ]
  ]

  unfoldable pub reconcile_skynet : String → String → W → Option (Result Outcome × W)
  unfolding prepare allocate_and_conclude
  reconcile_skynet namespace name w =
      let (prepared, w') = prepare namespace name w in
      elim prepared [
        | err e ↦ some (err e, w')
        | ok p ↦ elim p [
          | none ↦ some (ok finished, w')
          | some (sk, broker, pools) ↦ allocate_and_conclude sk broker pools w'
        ]
      ]
