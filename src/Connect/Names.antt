-- ===== src/Connect/Names.antt =====
-- Which network and which CUDN the deletion of an object cleans up, beside those that its
-- reconciliation joined and configured.
use mcn.Prelude.{
  String, true, false, none, some, ◌≡◌, ◌≢◌, ◌↔◌, ◌⊎◌, inl, inr, refl, sym, ap, ◌∙◌, str_eq, eq_iff,
  arith, Bool-cases, Option-cases, ne_str,
}
use mcn.Kube.{ok, is_not_found, Result-cases}
use mcn.Crd.{
  MultiClusterNetwork, MultiClusterNetworkConnect, MultiClusterNetworkConnectSpec,
  CreateMultiClusterNetworkParams, NetworkTopology, CudnSpec,
}
use mcn.Mcn.{leave_mcn}
use mcn.Cudn.{cudns, delete_cudn, CudnIntegrator, create_cudn, cudn_name_for}
use mcn.RouteAdv.{advertisements, ra_name, delete_for_cudn}
use mcn.Connect.{
  McncReconciler, network_to_join, network_to_leave, cudn_to_clean, reconcile_local_network,
  release, delete_own_cudn, handle_delete,
}

-- At most one of localCUDN and cudnSpec is set.
abbrev pub OneCudn : MultiClusterNetworkConnectSpec → Type 0
OneCudn spec = (spec.local_cudn ≡ "") ⊎ (spec.cudn_spec ≡ none)

leave_if_named :
    (spec : MultiClusterNetworkConnectSpec)
    → spec.create_multi_cluster_network ≡ none
    → network_to_leave spec ≡ spec.multi_cluster_network_name
unfolding network_to_leave
leave_if_named spec c = rw c refl

leave_if_created :
    (spec : MultiClusterNetworkConnectSpec) (p : CreateMultiClusterNetworkParams)
    → spec.create_multi_cluster_network ≡ some p
    → network_to_leave spec ≡ p.name
unfolding network_to_leave
leave_if_created spec p c = rw c refl

join_if_named :
    (spec : MultiClusterNetworkConnectSpec) (name : String) (t : NetworkTopology)
    → spec.create_multi_cluster_network ≡ none
    → network_to_join spec ≡ some (name, t)
    → spec.multi_cluster_network_name ≡ name
unfolding network_to_join
join_if_named spec name t c h = ground arith

-- The deletion of an object leaves the network that its reconciliation joins exactly when
-- createMultiClusterNetwork, if it is set, has that network's name. An object that sets
-- multiClusterNetworkName and createMultiClusterNetwork to two names joins the one and leaves the
-- other.
pub network_to_leave_iff :
    (spec : MultiClusterNetworkConnectSpec) (name : String) (t : NetworkTopology)
    → network_to_join spec ≡ some (name, t)
    → (network_to_leave spec ≡ name) ↔ (
        (p : CreateMultiClusterNetworkParams)
        → spec.create_multi_cluster_network ≡ some p
        → p.name ≡ name)
network_to_leave_iff spec name t h = (
  λ k p c. sym (leave_if_created spec p c) ∙ k,
  λ k. elim (Option-cases spec.create_multi_cluster_network) [
    | inl c ↦ leave_if_named spec c ∙ join_if_named spec name t c h
    | inr (p, c) ↦ leave_if_created spec p c ∙ k p c
  ],
)

created_name :
    {W : Type 0} (ci : CudnIntegrator W) (spec : CudnSpec) (mcn : MultiClusterNetwork) (w : W)
    (c : String)
    → (create_cudn ci spec mcn w).0 ≡ ok c
    → c ≡ cudn_name_for ci spec mcn
unfolding create_cudn
created_name ci spec mcn w c h = ground arith

module _ {W : Type 0} (r : McncReconciler W) where
  patched_name :
      (mcnc : MultiClusterNetworkConnect) (mcn : MultiClusterNetwork) (w : W) (c : String)
      → str_eq mcnc.spec.local_cudn "" ≡ false
      → (reconcile_local_network r mcnc mcn w).0 ≡ ok c
      → c ≡ mcnc.spec.local_cudn
  unfolding reconcile_local_network
  patched_name mcnc mcn w c l h = ground arith

  made_name :
      (mcnc : MultiClusterNetworkConnect) (mcn : MultiClusterNetwork) (w : W) (c : String)
      (spec : CudnSpec)
      → str_eq mcnc.spec.local_cudn "" ≡ true
      → mcnc.spec.cudn_spec ≡ some spec
      → (reconcile_local_network r mcnc mcn w).0 ≡ ok c
      → (create_cudn r.cudn_integrator spec mcn w).0 ≡ ok c
  unfolding reconcile_local_network
  made_name mcnc mcn w c spec l s h = ground arith

  unmade :
      (mcnc : MultiClusterNetworkConnect) (mcn : MultiClusterNetwork) (w : W) (c : String)
      → str_eq mcnc.spec.local_cudn "" ≡ true
      → mcnc.spec.cudn_spec ≡ none
      → (reconcile_local_network r mcnc mcn w).0 ≢ ok c
  unfolding reconcile_local_network
  unmade mcnc mcn w c l s = ground arith

  clean_patched :
      (spec : MultiClusterNetworkConnectSpec) (n : String)
      → str_eq spec.local_cudn "" ≡ false
      → spec.cudn_spec ≡ none
      → cudn_to_clean spec n ≡ spec.local_cudn
  unfolding cudn_to_clean
  clean_patched spec n l s = rw s (rw l refl)

  clean_made :
      (spec : MultiClusterNetworkConnectSpec) (cudn : CudnSpec) (mcn : MultiClusterNetwork)
      → spec.cudn_spec ≡ some cudn
      → cudn_to_clean spec mcn.meta.name ≡ cudn_name_for r.cudn_integrator cudn mcn
  unfolding cudn_to_clean cudn_name_for
  clean_made spec cudn mcn s = rw s refl

  -- With at most one of localCUDN and cudnSpec set, the CUDN that the deletion cleans up is the one
  -- that the reconciliation patched or made.
  pub reconcile_local_network-cudn_to_clean :
      (mcnc : MultiClusterNetworkConnect) (mcn : MultiClusterNetwork) (w : W) (c : String)
      → OneCudn mcnc.spec
      → (reconcile_local_network r mcnc mcn w).0 ≡ ok c
      → cudn_to_clean mcnc.spec mcn.meta.name ≡ c
  reconcile_local_network-cudn_to_clean mcnc mcn w c one h =
      elim (Bool-cases (str_eq mcnc.spec.local_cudn "")) [
        | inl l ↦ elim (Option-cases mcnc.spec.cudn_spec) [
          | inl s ↦ absurd (unmade mcnc mcn w c l s h)
          | inr (cudn, s) ↦
              clean_made mcnc.spec cudn mcn s
              ∙ sym
                  (created_name r.cudn_integrator cudn mcn w c (made_name mcnc mcn w c cudn l s h))
        ]
        | inr l ↦ elim one [
          | inl e ↦ cc (l, (eq_iff mcnc.spec.local_cudn "").1 e)
          | inr s ↦ clean_patched mcnc.spec mcn.meta.name l s ∙ sym (patched_name mcnc mcn w c l h)
        ]
      ]

  delete_for_cudn_world :
      (c : String) (w : W)
      → (delete_for_cudn r.route_adv_creator c w).1
        ≡ ((advertisements r.route_adv_creator).delete (ra_name r.route_adv_creator c) w).1
  unfolding delete_for_cudn
  delete_for_cudn_world c w =
      elim (Result-cases
        ((advertisements r.route_adv_creator).delete (ra_name r.route_adv_creator c) w).0) [
          | inl (u, h) ↦ ground arith
          | inr (e, h) ↦ elim (Bool-cases (is_not_found e)) [
            | inl n ↦ ground arith
            | inr n ↦ ground arith
          ]
        ]

  delete_cudn_world :
      (c : String) (w : W)
      → (delete_cudn r.cudn_integrator c w).1 ≡ ((cudns r.cudn_integrator).delete c w).1
  unfolding delete_cudn
  delete_cudn_world c w = elim (Result-cases ((cudns r.cudn_integrator).delete c w).0) [
    | inl (u, h) ↦ ground arith
    | inr (e, h) ↦ elim (Bool-cases (is_not_found e)) [
      | inl n ↦ ground arith
      | inr n ↦ ground arith
    ]
  ]

  -- Delete of the CUDN, for an object that has SkyNet make it.
  abbrev pub after_cudn : MultiClusterNetworkConnect → String → W → W
  after_cudn mcnc c w = elim mcnc.spec.cudn_spec [
    | some spec ↦ ((cudns r.cudn_integrator).delete c w).1
    | none ↦ w
  ]

  delete_own_cudn_world :
      (mcnc : MultiClusterNetworkConnect) (c : String) (w : W)
      → (delete_own_cudn r mcnc c w).1 ≡ after_cudn mcnc c w
  unfolding delete_own_cudn
  delete_own_cudn_world mcnc c w = elim (Option-cases mcnc.spec.cudn_spec) [
    | inl s ↦ rw s refl
    | inr (spec, s) ↦ rw s (delete_cudn_world c w)
  ]

  -- The world after the calls of the deletion, whatever they returned: Delete of the advertisement
  -- of `c`, Delete of the CUDN `c` if the object has SkyNet make it, and leaving the network `n`.
  abbrev pub cleaned : MultiClusterNetworkConnect → String → String → W → W
  cleaned mcnc c n w =
      (leave_mcn r.mcn_manager n (
        after_cudn mcnc c
          ((advertisements r.route_adv_creator).delete (ra_name r.route_adv_creator c) w).1)).1

  handle_delete-cleaned :
      (mcnc : MultiClusterNetworkConnect) (n c : String) (w : W)
      → str_eq n "" ≡ false
      → network_to_leave mcnc.spec ≡ n
      → cudn_to_clean mcnc.spec n ≡ c
      → handle_delete r mcnc w ≡ release r mcnc (cleaned mcnc c n w)
  unfolding handle_delete
  handle_delete-cleaned mcnc n c w ne l k =
      let own = delete_own_cudn_world mcnc c (delete_for_cudn r.route_adv_creator c w).1 in
      let adv = delete_for_cudn_world c w in
      rw l (
        rw ne (
          rw k (
            ap (λ u. release r mcnc (leave_mcn r.mcn_manager n u).1)
              (own ∙ ap (after_cudn mcnc c) adv))))

  -- Deletion calls for what reconciliation did to be taken back: where at most one of localCUDN and
  -- cudnSpec is set, createMultiClusterNetwork, if set, names the network that was joined, and the
  -- local network was reconciled to the CUDN `c`, handleDelete calls Delete on the advertisement of
  -- `c`, Delete on `c` itself if the object has cudnSpec and not otherwise, then leaves that
  -- network, each whatever the earlier ones returned, and then releases the object.
  pub handle_delete-undoes :
      (mcnc : MultiClusterNetworkConnect) (mcn : MultiClusterNetwork) (t : NetworkTopology)
      (c : String) (v w : W)
      → OneCudn mcnc.spec
      → network_to_join mcnc.spec ≡ some (mcn.meta.name, t)
      → mcn.meta.name ≢ ""
      → ((p : CreateMultiClusterNetworkParams)
          → mcnc.spec.create_multi_cluster_network ≡ some p
          → p.name ≡ mcn.meta.name)
      → (reconcile_local_network r mcnc mcn v).0 ≡ ok c
      → handle_delete r mcnc w ≡ release r mcnc (cleaned mcnc c mcn.meta.name w)
  handle_delete-undoes mcnc mcn t c v w one join ne same local =
      handle_delete-cleaned mcnc mcn.meta.name c w (ne_str mcn.meta.name "" ne)
        ((network_to_leave_iff mcnc.spec mcn.meta.name t join).1 same)
        (reconcile_local_network-cudn_to_clean mcnc mcn v c one local)
