-- ===== src/Connect/Udn.antt =====
-- reconcileUserDefinedNetwork and buildUDNSpec of pkg/agent/controller/mcnc_controller.go, which
-- nothing calls: the UserDefinedNetwork of a namespace, made or brought up to date.
use mcn.Prelude.{String, [], ◌∷◌, str_append, str_eq, if◌then◌else◌}
use mcn.Kube.{
  ok, err, Exec, pure, attempt, wrapping, ◌>>=◌, ◌>>◌, Value, str, object, slice, Gvr, Resource,
  Machinery,
}
use mcn.Crd.{MultiClusterNetwork, MultiClusterNetworkConnect, layer2}
use mcn.Connect.{McncReconciler}

abbrev pub user_defined_network_gvr : Gvr
user_defined_network_gvr = record {
  group = "k8s.ovn.org";
  version = "v1";
  resource = "userdefinednetworks";
}

-- The part of a layer: one subnet, in the primary role.
abbrev layer_of : String → Value
layer_of subnet = object (("role", str "Primary") ∷ ("subnets", slice (str subnet ∷ [])) ∷ [])

unfoldable pub build_udn_spec : MultiClusterNetwork → Value
build_udn_spec mcn =
    let layers =
      if str_eq mcn.spec.topology layer2 then ("layer2", layer_of "10.100.0.0/16") ∷ [] else [] in
    object (("topology", str mcn.spec.topology) ∷ ("layer3", layer_of "10.128.0.0/14") ∷ layers)

unfoldable pub udn_name : MultiClusterNetwork → String
udn_name mcn = str_append "skynet-" mcn.meta.name

unfoldable pub user_defined_network :
    MultiClusterNetworkConnect → MultiClusterNetwork → String → Value
unfolding build_udn_spec udn_name
user_defined_network mcnc mcn ns = object (
    ("apiVersion", str "k8s.ovn.org/v1")
    ∷ ("kind", str "UserDefinedNetwork")
    ∷ (
      "metadata",
      object (
          ("name", str (udn_name mcn))
          ∷ ("namespace", str ns)
          ∷ (
            "labels",
            object (
                ("skynet.io/mcn", str mcnc.spec.multi_cluster_network_name)
                ∷ ("skynet.io/managed-by", str "skynet-agent")
                ∷ []),
          )
          ∷ []),
    )
    ∷ ("spec", build_udn_spec mcn)
    ∷ [])

module _ {W : Type 0} (r : McncReconciler W) (lib : Machinery) where
  -- DynamicClient.Resource(UserDefinedNetworkGVR).Namespace(ns)
  abbrev pub udns : String → Resource W
  udns ns = r.dynamic_client.at user_defined_network_gvr ns

  -- Any failure of Get leads to Create.
  unfoldable pub reconcile_user_defined_network :
      MultiClusterNetworkConnect → MultiClusterNetwork → String → Exec W (Unit {0})
  unfolding udn_name
  reconcile_user_defined_network mcnc mcn ns = do
    let udn = user_defined_network mcnc mcn ns
    existing ← attempt ((udns ns).get (udn_name mcn))
    elim existing [
      | ok u ↦ do
        wrapping (str_append "failed to update UserDefinedNetwork " (udn_name mcn))
            ((udns ns).update (lib.set_resource_version (lib.get_resource_version u) udn))
        pure tt
      | err e ↦ do
        wrapping (str_append "failed to create UserDefinedNetwork " (udn_name mcn))
            ((udns ns).create udn)
        pure tt
    ]
