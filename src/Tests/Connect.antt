-- ===== src/Tests/Connect.antt =====
-- Runs of the controller of MultiClusterNetworkConnect objects.
use mcn.Prelude.{String, false, none, some, List, [], ◌∷◌, ◌≡◌, ◌↔◌, refl, inr, str_ne}
use mcn.Kube.{ok, Value, str, object}
use mcn.Kube.Keeps.{Keeps}
use mcn.Crd.{MultiClusterNetwork, MultiClusterNetworkConnectSpec, CreateMultiClusterNetworkParams}
use mcn.Cudn.{patch_cudn_with_evpn, validate_cudn, has_matching_config}
use mcn.Connect.{
  network_to_join, network_to_leave, reconcile_local_network, reconcile_mcnc, handle_delete,
  release,
}
use mcn.Connect.Names.{network_to_leave_iff, cleaned, handle_delete-undoes}
use mcn.Connect.Success.{Ending, reconcile_mcnc-Ending}
use mcn.Connect.Cleanup.{ConnectKeeps, reconcile_mcnc-handle_delete-Keeps}
use mcn.Tests.Broker.{network}
use mcn.Tests.Cluster.{World, reconciler, connect}

abbrev blue : MultiClusterNetwork
blue = network "blue" 5000

abbrev users : Value
users = object (("spec", object (("network", object (("topology", str "Layer3") ∷ [])) ∷ [])) ∷ [])

abbrev start : World
start = record { broker = blue ∷ []; cudns = ("shop", users) ∷ []; advertised = false }

-- Two networks are named: blue to join, red to make.
abbrev both : MultiClusterNetworkConnectSpec
both = record {
  local_cudn = "shop";
  cudn_spec = none;
  multi_cluster_network_name = "blue";
  create_multi_cluster_network = some (record { name = "red"; topology = "Layer3" });
}

abbrev one : MultiClusterNetworkConnectSpec
one = record both { create_multi_cluster_network = none }

joins : network_to_join both ≡ some ("blue", "")
unfolding network_to_join
joins = refl

network_to_leave_iff_example : (network_to_leave both ≡ "blue") ↔ (
    (p : CreateMultiClusterNetworkParams)
    → some (record { name = "red"; topology = "Layer3" }) ≡ some p
    → p.name ≡ "blue")
network_to_leave_iff_example = network_to_leave_iff both "blue" "" joins

joins_one : network_to_join one ≡ some ("blue", "")
unfolding network_to_join
joins_one = refl

configures : (reconcile_local_network reconciler (connect one) blue start).0 ≡ ok "shop"
unfolding reconcile_local_network patch_cudn_with_evpn validate_cudn has_matching_config
configures = refl

handle_delete-undoes_example :
    handle_delete reconciler (connect one) start
    ≡ release reconciler (connect one) (cleaned reconciler (connect one) "shop" "blue" start)
handle_delete-undoes_example =
    handle_delete-undoes reconciler (connect one) blue "" "shop" start start (inr refl) joins_one
      (str_ne "blue" "" refl) (λ p h. cc) configures

reconcile_mcnc-Ending_example : Ending reconciler (connect one) start
reconcile_mcnc-Ending_example = reconcile_mcnc-Ending reconciler (connect one) start

-- Some CUDN is there.
abbrev IsThere : World → Type 0
IsThere w = (k : String) × (v : Value) × (rest : List (String × Value)) × (w.cudns ≡ (k, v) ∷ rest)

reconciler-ConnectKeeps : ConnectKeeps IsThere reconciler
unfolding Keeps
reconciler-ConnectKeeps = record {
  broker = record {
    get = λ name w p. p;
    create = λ u w p. p;
    update = λ u w p. p;
    list = λ w p. p;
  };
  update_mcnc = λ c w p. p;
  update_status = λ c w p. p;
  get_namespace = λ ns w p. p;
  get_cudn = λ name w p. p;
  patch_cudn = λ name u w p. (name, u, w.cudns, refl);
  get_advertisement = λ name w p. p;
  create_advertisement = λ u w p. p;
  delete_advertisement = λ name w p. p;
}

reconcile_mcnc-handle_delete-Keeps_example :
    Keeps IsThere (reconcile_mcnc reconciler (connect one))
    × Keeps IsThere (handle_delete reconciler (connect one))
reconcile_mcnc-handle_delete-Keeps_example =
    reconcile_mcnc-handle_delete-Keeps IsThere reconciler reconciler-ConnectKeeps (connect one) refl
