-- ===== src/Operator/Accepted.antt =====
-- What the operator allocates, the agent that it starts accepts.
use mcn.Prelude.{
  ℕ, ◌-◌, String, true, false, not, Option, some, List, ◌&&◌, ◌≡◌, refl, ap, ◌∙◌, str_eq,
}
use mcn.Prelude.Int.{ℤ, pos, negsuc, ◌≤ℤ◌, eqb_ℤ, max_int32, IsInt32}
use mcn.Prelude.Signed.{plain}
use mcn.Kube.{Result, ok, Converter, DynamicClient}
use mcn.Crd.{Cluster, Skynet}
use mcn.Cidr.{V6, Quad, v4, parse_cidr}
use mcn.Cidr.Plain.{parse_cidr-plain}
use mcn.Pools.{Pools, validate_asn}
use mcn.Pools.Valid.{IsValid}
use mcn.VtepPool.{validate_vtep_cidr}
use mcn.Bootstrap.{RestConfig, load_env}
use mcn.AgentPod.{pod_env}
use mcn.AgentPod.Environment.{IsPodEnv, IsWritable, load_env-pod_env, token, ca}
use mcn.Endpoint.{NodeClient}
use mcn.Registration.{
  NewAgent, Platform, check_allocation, broker_of_environment, agent_of_environment,
}
use mcn.Operator.{compute_vtep_and_asn, with_allocation}
use mcn.Operator.Delivered.{
  Fits-int32, Fits-prefix, validate_asn-range, validate_vtep_cidr-plain, parse_cidr-set,
  validate_vtep_cidr-set, validate_asn-received, validate_vtep_cidr-received, nonzero, ≤ℤ_trans,
  start_pools-delivered, check_allocation-passes, started, makes, reaching, reaches,
}
use mcn.Operator.Valid.{compute_vtep_and_asn-passes}

-- A run of computeVtepAndASN for an object without an allocation, which ended with one, out of pools
-- of positive AS numbers below the largest int32 and an IPv4 network.
pub record IsAllocation {W : Type 0} (client : DynamicClient W) (broker_ns : String)
    (conv : Converter Cluster) (parse_v6 : String → String → Option V6) (p : Pools) (sk : Skynet)
    (vtep : String) (asn : ℤ) : Type 0 where
  pub valid : IsValid p
  pub positive : pos 1 ≤ℤ p.asn_min
  pub below_top : p.asn_max ≤ℤ pos (max_int32 - 1)
  pub base : Quad
  pub length : ℕ
  pub pool : parse_cidr parse_v6 p.vtep_pool_cidr ≡ some (v4 base length)
  pub none_yet : (not (str_eq sk.status.vtep_cidr "") && not (eqb_ℤ sk.status.asn (pos 0))) ≡ false
  pub before : W
  pub later : W
  pub run :
      compute_vtep_and_asn client broker_ns conv parse_v6 p sk before ≡ some (ok (vtep, asn), later)

-- The texts that the object gives.
pub record HasPlainSpec (sk : Skynet) : Type 0 where
  pub server_set : str_eq sk.spec.broker_config.server "" ≡ false
  pub set : str_eq sk.spec.cluster_id "" ≡ false
  pub cluster_id : plain sk.spec.cluster_id ≡ true
  pub server : plain sk.spec.broker_config.server ≡ true
  pub broker_namespace : plain sk.spec.broker_config.broker_namespace ≡ true

module _ {W S V : Type 0} (platform : Platform V S) (local : DynamicClient V) (k8s : NodeClient V)
    (broker : DynamicClient V) (client : DynamicClient W) (broker_ns : String)
    (conv : Converter Cluster) (p : Pools) (sk : Skynet) (vtep : String) (asn : ℤ)
    (al : IsAllocation client broker_ns conv platform.parse_v6 p sk vtep asn)
    (given : HasPlainSpec sk) where
  abbrev allocated : Skynet
  allocated = with_allocation vtep asn sk

  passing :
      (validate_vtep_cidr platform.parse_v6 vtep (some p) ≡ ok tt)
      × (validate_asn asn (some p) ≡ ok tt)
  passing =
      compute_vtep_and_asn-passes client broker_ns conv platform.parse_v6 p sk al.base al.length
        vtep asn al.before al.later al.pool al.valid.asn_min_fits al.below_top al.none_yet al.run

  asn_range : (p.asn_min ≤ℤ asn) × (asn ≤ℤ p.asn_max)
  asn_range = validate_asn-range asn p passing.1

  asn-IsInt32 : IsInt32 asn
  asn-IsInt32 = (
    ≤ℤ_trans asn p.asn_max (pos max_int32) asn_range.1 al.valid.asn_max_fits.0,
    ≤ℤ_trans (negsuc max_int32) p.asn_min asn al.valid.asn_min_fits.1 asn_range.0,
  )

  allocated-IsWritable : IsWritable allocated p
  allocated-IsWritable = record {
    cluster_id = given.cluster_id;
    server = given.server;
    broker_namespace = given.broker_namespace;
    vtep_cidr = validate_vtep_cidr-plain platform.parse_v6 vtep p passing.0;
    pool_cidr = parse_cidr-plain platform.parse_v6 p.vtep_pool_cidr al.base al.length al.pool;
    asn = Fits-int32 asn asn-IsInt32;
    asn_min = Fits-int32 p.asn_min al.valid.asn_min_fits;
    asn_max = Fits-int32 p.asn_max al.valid.asn_max_fits;
    prefix_len = Fits-prefix p.vtep_prefix_len al.valid.prefix_range.0 al.valid.prefix_range.1;
  }

  vtep_set : str_eq vtep "" ≡ false
  vtep_set = validate_vtep_cidr-set platform.parse_v6 vtep p passing.0

  started-accepts : check_allocation (started platform local k8s broker allocated p) ≡ ok tt
  started-accepts =
      check_allocation-passes (started platform local k8s broker allocated p) vtep_set
        (nonzero asn (≤ℤ_trans (pos 1) p.asn_min asn al.positive asn_range.0))
        (validate_vtep_cidr-received platform.parse_v6 vtep p passing.0)
        (validate_asn-received asn p passing.1)

  -- The operator's allocation reaches the agent and is accepted. Let computeVtepAndASN have ended
  -- with a subnet and an AS number for an object without an allocation, out of valid pools of
  -- positive AS numbers below the largest int32 and an IPv4 network, and let the agent's pod have
  -- the environment of the template for the object with that status. Then what the agent's main makes
  -- of that environment succeeds: getBrokerConfig gives the object's broker address with the
  -- mirrored token and CA, with which the client `broker` is made, and the pools and NewAgent give an
  -- agent with that subnet and AS number, for which the tests of registerCluster pass. The object's
  -- texts and the token have no white space and no dollar sign, and the cluster id, the broker
  -- address and the token are set. What main makes of other things, as the local clients and the
  -- controller, is not part of it.
  pub allocation_accepted :
      (getenv : String → String) (secrets : String → List (String × String))
      (env : IsPodEnv getenv secrets (pod_env allocated p))
      (kubeconfig : String → Result RestConfig) (connect : RestConfig → Result (DynamicClient V))
      → plain (token getenv secrets allocated p env) ≡ true
      → str_eq (token getenv secrets allocated p env) "" ≡ false
      → connect (
          reaching sk.spec.broker_config.server
            (token getenv secrets allocated p env)
            (ca getenv secrets allocated p env))
        ≡ ok broker
      → (broker_of_environment kubeconfig connect (load_env getenv) ≡ ok broker)
        × (a : NewAgent V S) × (agent_of_environment platform local k8s broker (load_env getenv)
            ≡ ok a)
        × (a.operator_vtep_cidr ≡ vtep)
        × (a.operator_asn ≡ asn)
        × (check_allocation a ≡ ok tt)
  allocation_accepted getenv secrets env kubeconfig connect t set opens =
      let secret_token = token getenv secrets allocated p env in
      let secret_ca = ca getenv secrets allocated p env in
      let loaded = load_env-pod_env getenv secrets allocated p env allocated-IsWritable t in
      (
        ap (broker_of_environment kubeconfig connect) loaded
            ∙ reaches kubeconfig connect broker allocated p secret_token secret_ca given.server_set
                set opens,
        started platform local k8s broker allocated p,
        ap (agent_of_environment platform local k8s broker) loaded
            ∙ makes platform local k8s broker allocated p secret_token secret_ca given.set (
                start_pools-delivered allocated p secret_token secret_ca al.valid given.set vtep_set
                  (parse_cidr-set platform.parse_v6 p.vtep_pool_cidr al.base al.length al.pool)
                  al.positive passing.1),
        refl,
        refl,
        started-accepts,
      )
