-- ===== src/Operator.antt =====
-- The operator's choice of a cluster's VTEP subnet and AS number: computeVtepAndASN and
-- ensureBrokerUnique of pkg/operator/skynet/reconciler.go, and its test of a rollout.
pub mod Unique
pub mod Reconcile
pub mod Concluded
pub mod Prepared
pub mod Finished
pub mod Valid
pub mod Delivered
pub mod Accepted
use mcn.Cidr.{V6}
use mcn.Prelude.{
  ℕ, String, Bool, true, false, not, Option, none, some, List, [], ◌∷◌, ◌&&◌, ◌||◌, str_append,
  str_eq, if◌then◌else◌,
}
use mcn.Prelude.Int.{ℤ, pos, eqb_ℤ}
use mcn.Prelude.Numerals.{print_int}
use mcn.Kube.{
  Result, ok, err, Error, message, wrap, Exec, lift, wrapping, ◌>>=◌, Value, Converter,
  DynamicClient, ObjectMeta,
}
use mcn.Kube.Workloads.{Deployment}
use mcn.Crd.{Cluster, ClusterPhase, Skynet, cluster_gvr}
use mcn.Pools.{Pools, validate_asn}
use mcn.Asn.{new_asn_allocator, allocate_asn}
use mcn.VtepPool.{new_vtep_allocator, allocate_vtep_cidr, validate_vtep_cidr}

abbrev pub or_one : Option ℤ → ℤ
or_one none = pos 1
or_one (some n) = n

unfoldable pub deployment_rollout_complete : Option Deployment → Bool
deployment_rollout_complete none = false
deployment_rollout_complete (some dep) =
    let want = or_one dep.replicas in
    if eqb_ℤ want (pos 0)
    then false
    else eqb_ℤ dep.updated_replicas want
      && eqb_ℤ dep.ready_replicas want
      && eqb_ℤ dep.available_replicas want

-- The status that Reconcile writes the allocation into.
abbrev pub with_allocation : String → ℤ → Skynet → Skynet
with_allocation vtep asn sk = record sk {
  status = record sk.status { vtep_cidr = vtep; asn = asn };
}

-- The loop of ensureBrokerUnique over the listed objects.
unfoldable pub check_unique :
    Converter Cluster → String → String → ℤ → List Value → Result (Unit {0})
check_unique conv cluster_id vtep asn [] = ok tt
check_unique conv cluster_id vtep asn (u ∷ us) =
    let rest = check_unique conv cluster_id vtep asn us in
    elim (conv.from_unstructured u) [
      | err e ↦ rest
      | ok c ↦
          if str_eq c.spec.cluster_id cluster_id
          then rest
          else if str_eq c.spec.vtep_cidr vtep
          then err (
              message (
                str_append "VTEP CIDR "
                  (str_append vtep (str_append " already used by cluster " c.spec.cluster_id))))
          else if eqb_ℤ c.spec.asn asn
          then err (
              message (
                str_append "ASN " (
                  str_append (print_int asn)
                    (str_append " already used by cluster " c.spec.cluster_id))))
          else rest
    ]

-- The template that the allocators are given: an object with nothing allocated yet.
abbrev pub template : String → Cluster
template cluster_id = record {
  meta = record {
    name = "";
    namespace = "";
    resource_version = "";
    generation = pos 0;
    labels = [];
    finalizers = [];
    deleting = false;
  };
  spec = record { cluster_id = cluster_id; vtep_cidr = ""; asn = pos 0 };
  status = record { phase = ClusterPhase.unset; endpoints = []; last_heartbeat = 0 };
}

module _ {W : Type 0} (broker : DynamicClient W) (broker_ns : String) (conv : Converter Cluster)
    (parse_v6 : String → String → Option V6) (pools : Pools) (sk : Skynet) where
  unfoldable pub ensure_broker_unique : String → ℤ → Exec W (Unit {0})
  unfolding check_unique
  ensure_broker_unique vtep asn = do
    items ← wrapping "list Cluster on broker" ((broker.at cluster_gvr broker_ns).list "")
    lift (check_unique conv sk.spec.cluster_id vtep asn items)

  -- The end of computeVtepAndASN.
  abbrev pub finish : String → ℤ → W → Result (String × ℤ) × W
  finish vtep asn w =
      let (r, w') = ensure_broker_unique vtep asn w in
      elim r [ ok _ ↦ (ok (vtep, asn), w') | err e ↦ (err e, w') ]

  -- From the AS number on. none for a loop of the allocator that runs for ever.
  unfoldable pub choose_asn : String → W → Option (Result (String × ℤ) × W)
  choose_asn vtep w =
      if eqb_ℤ sk.spec.asn (pos 0)
      then elim (allocate_asn
          (new_asn_allocator broker broker_ns sk.spec.cluster_id (some pools) conv)
          (template sk.spec.cluster_id) w) [
            | none ↦ none
            | some (r, w') ↦ elim r [
              | err e ↦ some (err (wrap "allocate ASN" e), w')
              | ok asn ↦ some (finish vtep asn w')
            ]
          ]
      else elim (validate_asn sk.spec.asn (some pools)) [
        | err e ↦ some (err e, w)
        | ok _ ↦ some (finish vtep sk.spec.asn w)
      ]

  unfoldable pub compute_vtep_and_asn : W → Option (Result (String × ℤ) × W)
  unfolding choose_asn
  compute_vtep_and_asn w =
      if not (str_eq sk.status.vtep_cidr "") && not (eqb_ℤ sk.status.asn (pos 0))
      then some (ok (sk.status.vtep_cidr, sk.status.asn), w)
      else if str_eq sk.spec.vtep_cidr ""
      then (let (r, w') =
            allocate_vtep_cidr
              (new_vtep_allocator broker broker_ns sk.spec.cluster_id (some pools) conv parse_v6)
              (template sk.spec.cluster_id) w in
          elim r [ err e ↦ some (err (wrap "allocate VTEP" e), w') | ok vtep ↦ choose_asn vtep w' ])
      else elim (validate_vtep_cidr parse_v6 sk.spec.vtep_cidr (some pools)) [
        | err e ↦ some (err e, w)
        | ok _ ↦ choose_asn sk.spec.vtep_cidr w
      ]
