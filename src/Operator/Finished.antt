-- ===== src/Operator/Finished.antt =====
-- What a finished reconciliation of a Skynet object has done.
use mcn.Prelude.{String, true, not, some, ◌&&◌, ◌≡◌, ◌⊎◌, str_eq}
use mcn.Prelude.Int.{ℤ, pos, eqb_ℤ}
use mcn.Kube.{is_not_found, Result, ok, err, Error, DynamicClient}
use mcn.Kube.Workloads.{Deployment}
use mcn.Crd.{Skynet, SkynetStatus}
use mcn.Pools.{Pools}
use mcn.AgentPod.{reconcile_skynet_agent_deployment}
use mcn.AgentPod.Applied.{IsApplied}
use mcn.Operator.{with_allocation}
use mcn.Operator.Concluded.{IsStatus}
use mcn.Operator.Reconcile.{Reconciler, agent_image, prepare, allocating}

module _ {W : Type 0} (r : Reconciler W) where
  -- The object that was read had the status already and nothing was called, or the server accepted
  -- the object with it.
  abbrev pub IsWritten : Skynet → SkynetStatus → W → W → Type 0
  IsWritten sk st w later =
      ((sk.status ≡ st) × (w ≡ later))
      ⊎ (r.update_status (record sk { status = st }) w ≡ (ok tt, later))

  -- From the allocation on: the Deployment is the wanted one, and the status is written last.
  pub record IsConcluded (sk : Skynet) (pools : Pools) (vtep : String) (asn : ℤ) (later : W)
      : Type 0 where
    pub dep : Deployment
    pub deployed : W
    pub applied :
        IsApplied r.set_controller r.deployments
          (with_allocation vtep asn sk)
          (agent_image r (with_allocation vtep asn sk))
          (some pools)
          dep
          deployed
    pub status : SkynetStatus
    pub concluded_status : IsStatus sk vtep asn dep status
    pub written : IsWritten sk status deployed later

  module _ (sk : Skynet) (pools : Pools) (vtep : String) (asn : ℤ) where
    abbrev deploying : W → Result Deployment × W
    deploying =
        reconcile_skynet_agent_deployment r.set_controller r.deployments
          (with_allocation vtep asn sk) (agent_image r (with_allocation vtep asn sk)) (some pools)

  abbrev pub IsAllocated : Skynet → Type 0
  IsAllocated sk = (not (str_eq sk.status.vtep_cidr "") && not (eqb_ℤ sk.status.asn (pos 0))) ≡ true

  -- A run on the object `sk` that ended in the world `later`.
  pub record IsReconciled (namespace name : String) (w later : W) : Type 0 where
    pub sk : Skynet
    pub broker : DynamicClient W
    pub pools : Pools
    pub vtep : String
    pub asn : ℤ
    pub prepared : W
    pub chosen : W
    pub reads : (r.get_skynet namespace name w).0 ≡ ok sk
    pub prepares : prepare r namespace name w ≡ (ok (some (sk, broker, pools)), prepared)
    pub chooses : allocating r sk broker pools prepared ≡ some (ok (vtep, asn), chosen)
    pub keeps :
        IsAllocated sk → (sk.status.vtep_cidr ≡ vtep) × (sk.status.asn ≡ asn) × (prepared ≡ chosen)
    pub concludes : IsConcluded sk pools vtep asn later

  module _ (namespace name : String) (w w' : W) where
    -- The object is not there, and nothing but its Get was called.
    abbrev pub IsAbsent : Type 0
    IsAbsent = (e : Error) × (is_not_found e ≡ true) × (r.get_skynet namespace name w ≡ (err e, w'))
