-- ===== src/Connect/Cleanup.antt =====
-- What the controller leaves alone: without a cudnSpec in the object it neither creates nor deletes
-- a CUDN, so a CUDN that the user made is only ever patched.
use mcn.Prelude.{String, not, Option, none, some, ◌≡◌, refl, str_eq, ◌&&◌}
use mcn.Kube.{err, Error, is_not_found, is_already_exists, wrap, Value}
use mcn.Kube.Keeps.{
  Keeps, Keeps-bind, Keeps-pure, Keeps-wrapping, Keeps-attempt, Keeps-either, Keeps-if,
}
use mcn.Crd.{MultiClusterNetwork, MultiClusterNetworkConnect, NetworkTopology}
use mcn.Mcn.Keeps.{BrokerKeeps, create_or_join_mcn-Keeps, leave_mcn-Keeps}
use mcn.Mcn.{contains_string}
use mcn.Cudn.{cudns, patch_cudn_with_evpn, found_eq, transport, has_matching_config}
use mcn.Connect.{
  McncReconciler, network_to_join, reconcile_mcn, reconcile_local_network, report_error,
  reconcile_mcnc, release, delete_own_cudn, handle_delete, network_to_leave, cudn_to_clean,
  mcnc_finalizer_name,
}
use mcn.RouteAdv.{advertisements, create_for_cudn, delete_for_cudn}

-- A predicate that every call of the controller keeps but the creation and the deletion of a CUDN.
module _ {W : Type 0} (P : W → Type 0) (r : McncReconciler W) where
  pub record ConnectKeeps : Type 0 where
    pub broker : BrokerKeeps P r.mcn_manager
    pub update_mcnc : (c : MultiClusterNetworkConnect) → Keeps P (r.update_mcnc c)
    pub update_status : (c : MultiClusterNetworkConnect) → Keeps P (r.update_status c)
    pub get_namespace : (ns : String) → Keeps P (r.get_namespace ns)
    pub get_cudn : (name : String) → Keeps P ((cudns r.cudn_integrator).get name)
    pub patch_cudn : (name : String) (u : Value) → Keeps P ((cudns r.cudn_integrator).patch name u)
    pub get_advertisement :
        (name : String) → Keeps P ((advertisements r.route_adv_creator).get name)
    pub create_advertisement : (u : Value) → Keeps P ((advertisements r.route_adv_creator).create u)
    pub delete_advertisement :
        (name : String) → Keeps P ((advertisements r.route_adv_creator).delete name)

  module _ (h : ConnectKeeps) where
    patch_cudn_with_evpn-Keeps :
        (name : String) (mcn : MultiClusterNetwork)
        → Keeps P (patch_cudn_with_evpn r.cudn_integrator name mcn)
    unfolding patch_cudn_with_evpn
    patch_cudn_with_evpn-Keeps name mcn =
        Keeps-bind P _ _ (Keeps-wrapping P _ _ (h.get_cudn name)) (λ cudn.
          Keeps-bind P _ _ (Keeps-pure P _) (λ _.
            Keeps-if P
              (found_eq (transport r.cudn_integrator cudn) "EVPN"
                && has_matching_config r.cudn_integrator cudn mcn)
              _ _ (Keeps-pure P _)
              (Keeps-bind P _ _ (Keeps-wrapping P _ _ (h.patch_cudn name _))
                (λ u. Keeps-pure P _))))

    create_for_cudn-Keeps :
        (name : String) (mcn : MultiClusterNetwork)
        → Keeps P (create_for_cudn r.route_adv_creator name mcn)
    unfolding create_for_cudn
    create_for_cudn-Keeps name mcn =
        Keeps-either P _ _ _ (h.get_advertisement _) (λ u. Keeps-pure P _)
          (λ e. Keeps-if P (not (is_not_found e)) _ _ (Keeps-pure P _) (
            Keeps-either P _ _ _ (h.create_advertisement _) (λ u. Keeps-pure P _)
              (λ b. Keeps-if P (is_already_exists b) _ _ (Keeps-pure P _) (Keeps-pure P _))))

    delete_for_cudn-Keeps : (name : String) → Keeps P (delete_for_cudn r.route_adv_creator name)
    unfolding delete_for_cudn
    delete_for_cudn-Keeps name =
        Keeps-either P _ _ _ (h.delete_advertisement _) (λ u. Keeps-pure P _)
          (λ e. Keeps-if P (is_not_found e) _ _ (Keeps-pure P _) (Keeps-pure P _))

    report_error-Keeps :
        (mcnc : MultiClusterNetworkConnect) (msg : String) (e : Error)
        → Keeps P (report_error r mcnc msg e)
    unfolding report_error
    report_error-Keeps mcnc msg e =
        Keeps-bind P _ _ (Keeps-attempt P _ (h.update_status _))
          (λ u. Keeps-pure P (err (wrap msg e)))

    joined_or_not :
        (mcnc : MultiClusterNetworkConnect) (o : Option (String × NetworkTopology))
        → network_to_join mcnc.spec ≡ o
        → Keeps P (reconcile_mcn r mcnc)
    unfolding reconcile_mcn
    joined_or_not mcnc none e = rw (e, reconcile_mcn) (Keeps-pure P _)
    joined_or_not mcnc (some (name, t)) e =
        rw (e, reconcile_mcn)
          (Keeps-wrapping P _ _ (create_or_join_mcn-Keeps P r.mcn_manager h.broker name t))

    reconcile_local_network-Keeps :
        (mcnc : MultiClusterNetworkConnect) (mcn : MultiClusterNetwork)
        → mcnc.spec.cudn_spec ≡ none
        → Keeps P (reconcile_local_network r mcnc mcn)
    unfolding reconcile_local_network
    reconcile_local_network-Keeps mcnc mcn s = rw s (
        Keeps-if P (not (str_eq mcnc.spec.local_cudn "")) _ _
          (Keeps-bind P _ _ (Keeps-wrapping P _ _ (patch_cudn_with_evpn-Keeps _ mcn))
            (λ u. Keeps-pure P _))
          (Keeps-pure P _))

    reconcile_mcnc-Keeps :
        (mcnc : MultiClusterNetworkConnect)
        → mcnc.spec.cudn_spec ≡ none
        → Keeps P (reconcile_mcnc r mcnc)
    unfolding reconcile_mcnc
    reconcile_mcnc-Keeps mcnc s =
        let failed = report_error-Keeps mcnc in
        Keeps-either P _ _ _ (h.get_namespace _)
          (λ ns.
            Keeps-either P _ _ _ (joined_or_not mcnc (network_to_join mcnc.spec) refl)
              (λ mcn.
                Keeps-either P _ _ _ (reconcile_local_network-Keeps mcnc mcn s)
                  (λ c.
                    Keeps-either P _ _ _ (create_for_cudn-Keeps c mcn)
                      (λ _.
                        Keeps-bind P _ _ (Keeps-wrapping P _ _ (h.update_status _))
                          (λ u. Keeps-pure P _))
                      (failed _))
                  (failed _))
              (failed _))
          (failed _)

    release-Keeps : (mcnc : MultiClusterNetworkConnect) → Keeps P (release r mcnc)
    unfolding release
    release-Keeps mcnc =
        Keeps-if P (contains_string mcnc.meta.finalizers mcnc_finalizer_name) _ _
          (Keeps-bind P _ _ (Keeps-wrapping P _ _ (h.update_mcnc _)) (λ u. Keeps-pure P _))
          (Keeps-pure P _)

    delete_own_cudn-Keeps :
        (mcnc : MultiClusterNetworkConnect) (c : String)
        → mcnc.spec.cudn_spec ≡ none
        → Keeps P (delete_own_cudn r mcnc c)
    unfolding delete_own_cudn
    delete_own_cudn-Keeps mcnc c s = rw s (Keeps-pure P _)

    handle_delete-Keeps :
        (mcnc : MultiClusterNetworkConnect)
        → mcnc.spec.cudn_spec ≡ none
        → Keeps P (handle_delete r mcnc)
    unfolding handle_delete
    handle_delete-Keeps mcnc s =
        Keeps-if P (str_eq (network_to_leave mcnc.spec) "") _ _ (release-Keeps mcnc) (
          Keeps-bind P _ _
            (Keeps-attempt P _
              (delete_for_cudn-Keeps (cudn_to_clean mcnc.spec (network_to_leave mcnc.spec))))
            (λ _.
              Keeps-bind P _ _
                (Keeps-attempt P _ (
                  delete_own_cudn-Keeps mcnc (cudn_to_clean mcnc.spec (network_to_leave mcnc.spec))
                    s))
                (λ _.
                  Keeps-bind P _ _
                    (Keeps-attempt P _
                      (leave_mcn-Keeps P r.mcn_manager h.broker (network_to_leave mcnc.spec)))
                    (λ _. release-Keeps mcnc))))

    -- For an object without a cudnSpec, reconciliation and deletion keep every predicate of the
    -- world that the controller's calls keep, the creation and the deletion of a CUDN aside: they
    -- make neither of those two calls, on any path.
    pub reconcile_mcnc-handle_delete-Keeps :
        (mcnc : MultiClusterNetworkConnect)
        → mcnc.spec.cudn_spec ≡ none
        → Keeps P (reconcile_mcnc r mcnc) × Keeps P (handle_delete r mcnc)
    reconcile_mcnc-handle_delete-Keeps mcnc s =
        (reconcile_mcnc-Keeps mcnc s, handle_delete-Keeps mcnc s)
