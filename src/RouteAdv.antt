-- ===== src/RouteAdv.antt =====
-- RouteAdvertisements: pkg/agent/routeadv/creator.go, which makes OVN-Kubernetes advertise the
-- routes of a network over BGP.
pub mod Idempotent
use mcn.Prelude.{
  String, Bool, true, false, not, Option, none, some, List, [], ◌∷◌, map, str_append, str_eq,
  if◌then◌else◌,
}
use mcn.Kube.{
  Result, ok, err, Error, message, wrap, is_not_found, is_already_exists, Exec, pure, raise,
  attempt, wrapping, ◌>>=◌, Value, str, object, slice, Gvr, Resource, DynamicClient, Machinery,
}
use mcn.Crd.{MultiClusterNetwork}

abbrev pub route_adv_gvr : Gvr
route_adv_gvr = record { group = "k8s.ovn.org"; version = "v1"; resource = "routeadvertisements" }

pub record Creator (W : Type 0) : Type 0 where
  pub dynamic_client : DynamicClient W
  pub cluster_name : String
  pub machinery : Machinery

pub record CreatorConfig (W : Type 0) : Type 0 where
  pub dynamic_client : Option (DynamicClient W)
  pub cluster_name : String

unfoldable pub new_creator : {W : Type 0} → Machinery → CreatorConfig W → Result (Creator W)
new_creator lib c = elim c.dynamic_client [
  | none ↦ err (message "dynamic client is required")
  | some client ↦
      if str_eq c.cluster_name ""
      then err (message "cluster name is required")
      else ok (record { dynamic_client = client; cluster_name = c.cluster_name; machinery = lib })
]

module _ {W : Type 0} (c : Creator W) where
  -- dynamicClient.Resource(routeAdvGVR), which is cluster-scoped
  abbrev pub advertisements : Resource W
  advertisements = c.dynamic_client.at route_adv_gvr ""

  unfoldable pub ra_name : String → String
  ra_name cudn_name = str_append "skynet-" (str_append c.cluster_name (str_append "-" cudn_name))

  -- The RouteAdvertisements object.
  unfoldable pub route_advertisement : String → MultiClusterNetwork → Value
  unfolding ra_name
  route_advertisement cudn_name mcn = object (
      ("apiVersion", str "k8s.ovn.org/v1")
      ∷ ("kind", str "RouteAdvertisements")
      ∷ (
        "metadata",
        object (
            ("name", str (ra_name cudn_name))
            ∷ (
              "labels",
              object (
                  ("skynet.io/cluster", str c.cluster_name)
                  ∷ ("skynet.io/cudn", str cudn_name)
                  ∷ ("skynet.io/mcn", str mcn.meta.name)
                  ∷ ("skynet.io/managed-by", str "skynet-agent")
                  ∷ []),
            )
            ∷ []),
      )
      ∷ (
        "spec",
        object (
            (
              "networkSelectors",
              slice (
                  object (
                    ("networkSelectionType", str "ClusterUserDefinedNetworks")
                    ∷ (
                      "clusterUserDefinedNetworkSelector",
                      object (("networkSelector", object []) ∷ []),
                    )
                    ∷ [])
                  ∷ []),
            )
            ∷ ("nodeSelector", object [])
            ∷ (
              "frrConfigurationSelector",
              object (
                  ("matchLabels", object (("skynet.io/managed-by", str "skynet-agent") ∷ [])) ∷ []),
            )
            ∷ ("advertisements", slice (str "PodNetwork" ∷ []))
            ∷ ("targetVRF", str "auto")
            ∷ []),
      )
      ∷ [])

  -- A Get that fails returns a nil object, so `existing != nil` is its success.
  unfoldable pub create_for_cudn : String → MultiClusterNetwork → Exec W (Unit {0})
  unfolding ra_name
  create_for_cudn cudn_name mcn = do
    existing ← attempt (advertisements.get (ra_name cudn_name))
    elim existing [
      | ok u ↦ pure tt
      | err e ↦
          if not (is_not_found e)
          then raise (wrap "failed to check existing RouteAdvertisement" e)
          else do
            created ← attempt (advertisements.create (route_advertisement cudn_name mcn))
            elim created [
              | ok u ↦ pure tt
              | err b ↦
                  if is_already_exists b
                  then pure tt
                  else raise (wrap "failed to create RouteAdvertisement" b)
            ]
    ]

  unfoldable pub delete_for_cudn : String → Exec W (Unit {0})
  unfolding ra_name
  delete_for_cudn cudn_name = do
    deleted ← attempt (advertisements.delete (ra_name cudn_name))
    elim deleted [
      | ok _ ↦ pure tt
      | err e ↦
          if is_not_found e then pure tt else raise (wrap "failed to delete RouteAdvertisement" e)
    ]

  unfoldable pub list_for_cluster : Exec W (List String)
  list_for_cluster = do
    items ← wrapping "failed to list RouteAdvertisements" (
        advertisements.list (
          str_append "skynet.io/cluster="
            (str_append c.cluster_name ",skynet.io/managed-by=skynet-agent")))
    pure (map c.machinery.get_name items)
