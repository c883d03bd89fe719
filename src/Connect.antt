-- ===== src/Connect.antt =====
-- The controller of MultiClusterNetworkConnect objects: pkg/agent/controller/mcnc_controller.go. It
-- joins or creates the network on the broker, puts its configuration into the local CUDN,
-- advertises it, and takes all of that back when the object is deleted.
pub mod Udn
pub mod Names
pub mod Cleanup
pub mod Success
use mcn.Prelude.{
  String, Bool, true, false, not, Option, none, some, List, [], ◌∷◌, ◌++◌, str_append, str_eq,
  if◌then◌else◌,
}
use mcn.Kube.{
  Result, ok, err, Error, message, wrap, is_not_found, Exec, pure, raise, attempt, wrapping, ◌>>=◌,
  ◌>>◌, DynamicClient,
}
use mcn.Crd.{
  MultiClusterNetwork, MultiClusterNetworkConnect, MultiClusterNetworkConnectSpec, ConnectPhase,
  NetworkTopology,
}
use mcn.Mcn.{McnManager, contains_string, remove_string, create_or_join_mcn, leave_mcn}
use mcn.Cudn.{CudnIntegrator, create_cudn, patch_cudn_with_evpn, delete_cudn}
use mcn.RouteAdv.{Creator, create_for_cudn, delete_for_cudn}

-- The calls of the typed client (controller-runtime) and the namespace client are fields.
-- `get_namespace` returns the name of the namespace object.
pub record McncReconciler (W : Type 0) : Type 0 where
  pub get_mcnc : String → String → Exec W MultiClusterNetworkConnect
  pub update_mcnc : MultiClusterNetworkConnect → Exec W MultiClusterNetworkConnect
  pub update_status : MultiClusterNetworkConnect → Exec W MultiClusterNetworkConnect
  pub get_namespace : String → Exec W String
  pub dynamic_client : DynamicClient W
  pub mcn_manager : McnManager W
  pub cudn_integrator : CudnIntegrator W
  pub route_adv_creator : Creator W

-- ctrl.Result
pub record ReconcileResult : Type 0 where
  pub requeue : Bool

abbrev pub settled : ReconcileResult
settled = record { requeue = false }

abbrev pub mcnc_finalizer_name : String
mcnc_finalizer_name = "skynet.io/mcnc-cleanup"

abbrev pub with_phase : ConnectPhase → MultiClusterNetworkConnect → MultiClusterNetworkConnect
with_phase p mcnc = record mcnc { phase = p }

abbrev pub with_finalizers : List String → MultiClusterNetworkConnect → MultiClusterNetworkConnect
with_finalizers fs mcnc = record mcnc { meta = record mcnc.meta { finalizers = fs } }

-- The network that reconcileMCN creates or joins, and the topology that it asks for.
unfoldable pub network_to_join : MultiClusterNetworkConnectSpec → Option (String × NetworkTopology)
network_to_join spec =
    if not (str_eq spec.multi_cluster_network_name "")
    then some (spec.multi_cluster_network_name, "")
    else elim spec.create_multi_cluster_network [
      | some params ↦ some (params.name, params.topology)
      | none ↦ none
    ]

-- The network that handleDelete leaves; "" for none.
unfoldable pub network_to_leave : MultiClusterNetworkConnectSpec → String
network_to_leave spec = elim spec.create_multi_cluster_network [
  | some params ↦ params.name
  | none ↦ spec.multi_cluster_network_name
]

-- The CUDN that handleDelete cleans up, given the network's name.
unfoldable pub cudn_to_clean : MultiClusterNetworkConnectSpec → String → String
cudn_to_clean spec mcn_name = elim spec.cudn_spec [
  | some cudn ↦ if str_eq cudn.name "" then mcn_name else cudn.name
  | none ↦ if not (str_eq spec.local_cudn "") then spec.local_cudn else mcn_name
]

module _ {W : Type 0} (r : McncReconciler W) where
  unfoldable pub reconcile_mcn : MultiClusterNetworkConnect → Exec W MultiClusterNetwork
  unfolding network_to_join
  reconcile_mcn mcnc = elim (network_to_join mcnc.spec) [
    | none ↦
        raise
          (message "MCNC must specify either multiClusterNetworkName or createMultiClusterNetwork")
    | some (name, topology) ↦
        wrapping (str_append "failed to create/join MultiClusterNetwork " name)
          (create_or_join_mcn r.mcn_manager name topology)
  ]

  -- The name of the CUDN that was patched or made.
  unfoldable pub reconcile_local_network :
      MultiClusterNetworkConnect → MultiClusterNetwork → Exec W String
  reconcile_local_network mcnc mcn =
      if not (str_eq mcnc.spec.local_cudn "")
      then (do
        wrapping (str_append "failed to patch CUDN " (str_append mcnc.spec.local_cudn " with EVPN"))
            (patch_cudn_with_evpn r.cudn_integrator mcnc.spec.local_cudn mcn)
        pure mcnc.spec.local_cudn)
      else elim mcnc.spec.cudn_spec [
        | some spec ↦
            wrapping "failed to create CUDN with EVPN" (create_cudn r.cudn_integrator spec mcn)
        | none ↦ raise (message "either localCUDN or cudnSpec must be specified")
      ]

  -- A failed step: the Error phase is written, whether or not that succeeds, and the error
  -- returned.
  unfoldable pub report_error : MultiClusterNetworkConnect → String → Error → Exec W ReconcileResult
  report_error mcnc msg e = do
    attempt (r.update_status (with_phase ConnectPhase.error mcnc))
    raise (wrap msg e)

  unfoldable pub reconcile_mcnc : MultiClusterNetworkConnect → Exec W ReconcileResult
  reconcile_mcnc mcnc = do
    ns ← attempt (r.get_namespace mcnc.meta.namespace)
    elim ns [
      | err e ↦ report_error mcnc (str_append "failed to get namespace " mcnc.meta.namespace) e
      | ok _ ↦ do
        joined ← attempt (reconcile_mcn mcnc)
        elim joined [
          | err e ↦ report_error mcnc "failed to reconcile MultiClusterNetwork" e
          | ok mcn ↦ do
            local ← attempt (reconcile_local_network mcnc mcn)
            elim local [
              | err e ↦ report_error mcnc "failed to reconcile local network" e
              | ok cudn_name ↦ do
                advertised ← attempt (create_for_cudn r.route_adv_creator cudn_name mcn)
                elim advertised [
                  | err e ↦ report_error mcnc "failed to create RouteAdvertisement" e
                  | ok _ ↦ do
                    wrapping "failed to update MCNC status"
                        (r.update_status (with_phase ConnectPhase.connected mcnc))
                    pure settled
                ]
            ]
        ]
    ]

  -- The end of handleDelete: the finalizer goes, if it is there.
  unfoldable pub release : MultiClusterNetworkConnect → Exec W ReconcileResult
  release mcnc =
      if contains_string mcnc.meta.finalizers mcnc_finalizer_name
      then (do
        wrapping "failed to remove finalizer from MCNC" (
            r.update_mcnc
              (with_finalizers (remove_string mcnc.meta.finalizers mcnc_finalizer_name) mcnc))
        pure settled)
      else pure settled

  -- DeleteCUDN, if the object had SkyNet make the CUDN.
  unfoldable pub delete_own_cudn : MultiClusterNetworkConnect → String → Exec W (Unit {0})
  delete_own_cudn mcnc cudn_name = elim mcnc.spec.cudn_spec [
    | some spec ↦ delete_cudn r.cudn_integrator cudn_name
    | none ↦ pure tt
  ]

  unfoldable pub handle_delete : MultiClusterNetworkConnect → Exec W ReconcileResult
  unfolding network_to_leave cudn_to_clean delete_own_cudn
  handle_delete mcnc = if str_eq (network_to_leave mcnc.spec) "" then release mcnc else (do
    let mcn_name = network_to_leave mcnc.spec
    let cudn_name = cudn_to_clean mcnc.spec mcn_name
    attempt (delete_for_cudn r.route_adv_creator cudn_name)
    attempt (delete_own_cudn mcnc cudn_name)
    attempt (leave_mcn r.mcn_manager mcn_name)
    release mcnc)

  unfoldable pub reconcile : String → String → Exec W ReconcileResult
  reconcile namespace name = do
    found ← attempt (r.get_mcnc namespace name)
    elim found [
      | err e ↦
          if is_not_found e
          then pure settled
          else raise (wrap "failed to get MultiClusterNetworkConnect" e)
      | ok mcnc ↦
          if mcnc.meta.deleting
          then handle_delete mcnc
          else if not (contains_string mcnc.meta.finalizers mcnc_finalizer_name)
          then (do
            wrapping "failed to add finalizer to MCNC" (
                r.update_mcnc
                  (with_finalizers (mcnc.meta.finalizers ++ mcnc_finalizer_name ∷ []) mcnc))
            pure (record { requeue = true }))
          else reconcile_mcnc mcnc
    ]
