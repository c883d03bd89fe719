-- ===== src/Cudn.antt =====
-- ClusterUserDefinedNetworks: pkg/agent/cudn/cudn_integrator.go, which puts a network's EVPN
-- configuration into a CUDN that the user made, or makes one with it.
pub mod Evpn
pub mod Patch
use mcn.Prelude.{
  ℕ, zero, suc, ◌+◌, ◌-◌, ◌%◌, ◌^◌, String, Bool, true, false, not, Option, none, some, List, [],
  ◌∷◌, ◌++◌, ◌&&◌, ◌||◌, str_append, str_eq, ◌==◌, if◌then◌else◌,
}
use mcn.Prelude.Int.{ℤ, pos, negsuc}
use mcn.Kube.{
  Result, ok, err, Error, message, wrap, is_not_found, Exec, pure, raise, lift, attempt, wrapping,
  wrap_err, ◌>>=◌, ◌>>◌, Value, str, int, object, null, slice, text_map, Gvr, Resource,
  DynamicClient, Machinery,
}
use mcn.Crd.{MultiClusterNetwork, CudnSpec, CudnSubnet}

abbrev pub cudn_gvr : Gvr
cudn_gvr = record { group = "k8s.ovn.org"; version = "v1"; resource = "clusteruserdefinednetworks" }

-- `pause` is the select between the end of the context, an error, and a second's time.
pub record CudnIntegrator (W : Type 0) : Type 0 where
  pub dynamic_client : DynamicClient W
  pub vtep_name : String
  pub machinery : Machinery
  pub pause : Exec W (Unit {0})

pub record IntegratorConfig (W : Type 0) : Type 0 where
  pub dynamic_client : Option (DynamicClient W)
  pub vtep_name : String

unfoldable pub new_cudn_integrator :
    {W : Type 0} → Machinery → Exec W (Unit {0}) → IntegratorConfig W → Result (CudnIntegrator W)
new_cudn_integrator lib pause c = elim c.dynamic_client [
  | none ↦ err (message "dynamic client is required")
  | some client ↦
      if str_eq c.vtep_name ""
      then err (message "VTEP name is required")
      else ok (record {
        dynamic_client = client;
        vtep_name = c.vtep_name;
        machinery = lib;
        pause = pause;
      })
]

-- uint32(x) of an int64.
abbrev pub to_uint32 : ℤ → ℕ
to_uint32 (pos n) = n % 2 ^ 32
to_uint32 (negsuc n) = 2 ^ 32 - 1 - n % 2 ^ 32

-- The value that NestedInt64 or NestedString returns where there is none.
abbrev pub or_zero : Option ℤ → ℤ
or_zero none = pos 0
or_zero (some x) = x

abbrev pub or_empty : Option String → String
or_empty none = ""
or_empty (some s) = s

-- `found && s == t`
abbrev pub found_eq : Option String → String → Bool
found_eq none t = false
found_eq (some s) t = str_eq s t

-- The VRF part of the EVPN configuration, by topology.
unfoldable pub vrf_config : MultiClusterNetwork → List (String × Value)
vrf_config mcn =
    let vrf =
      object (("vni", int (pos mcn.spec.vni)) ∷ ("routeTarget", str mcn.spec.route_target) ∷ []) in
    if str_eq mcn.spec.topology "Layer3"
    then ("ipVRF", vrf) ∷ []
    else if str_eq mcn.spec.topology "Layer2"
    then ("macVRF", vrf) ∷ []
    else []

unfoldable pub subnet_values : List CudnSubnet → List Value
subnet_values [] = []
subnet_values (s ∷ ss) =
    object (("cidr", str s.cidr) ∷ ("hostSubnet", int s.host_subnet) ∷ []) ∷ subnet_values ss

-- A slice or a map without entries is nil, which is written as null.
abbrev given_slice : List Value → Value
given_slice [] = null
given_slice (v ∷ vs) = slice (v ∷ vs)

abbrev given_labels : List (String × String) → Value
given_labels [] = null
given_labels (l ∷ ls) = text_map (l ∷ ls)

module _ {W : Type 0} (ci : CudnIntegrator W) where
  abbrev pub cudns : Resource W
  cudns = ci.dynamic_client.at cudn_gvr ""

  unfoldable pub build_evpn_config_from_topology : MultiClusterNetwork → Value
  unfolding vrf_config
  build_evpn_config_from_topology mcn = object (("vtep", str ci.vtep_name) ∷ vrf_config mcn)

  -- spec.network.transport
  abbrev pub transport : Value → Option String
  transport cudn = ci.machinery.nested_string cudn ("spec" ∷ "network" ∷ "transport" ∷ [])

  -- Whether some condition of the object is NetworkCreated=True.
  unfoldable pub has_created_condition : List Value → Bool
  has_created_condition [] = false
  has_created_condition (cond ∷ conds) =
      (str_eq (or_empty (ci.machinery.nested_string cond ("type" ∷ []))) "NetworkCreated"
        && str_eq (or_empty (ci.machinery.nested_string cond ("status" ∷ []))) "True")
      || has_created_condition conds

  unfoldable pub is_ready : Value → Bool
  unfolding has_created_condition
  is_ready cudn = elim (ci.machinery.nested_slice cudn ("status" ∷ "conditions" ∷ [])) [
    | none ↦ false
    | some conditions ↦ has_created_condition conditions
  ]

  -- The polling of waitForCUDNReady, by the attempts that are left.
  unfoldable pub poll_ready : ℕ → String → Exec W (Unit {0})
  poll_ready zero name = raise (message "timeout waiting for CUDN to be ready")
  poll_ready (suc attempts) name = do
    found ← attempt (cudns.get name)
    elim found [
      | ok cudn ↦
          let again = ci.pause >> poll_ready attempts name in
          if is_ready cudn then pure tt else again
      | err e ↦
          let again = ci.pause >> poll_ready attempts name in
          if not (is_not_found e) then raise (wrap "error getting CUDN" e) else again
    ]

  unfoldable pub wait_for_cudn_ready : String → Exec W (Unit {0})
  wait_for_cudn_ready name = poll_ready 60 name

  -- The polling of waitForCUDNDeletion, which nothing calls.
  unfoldable pub poll_deletion : ℕ → String → Exec W (Unit {0})
  poll_deletion zero name = raise (message "timeout waiting for CUDN deletion")
  poll_deletion (suc attempts) name = do
    found ← attempt (cudns.get name)
    elim found [
      | ok cudn ↦ ci.pause >> poll_deletion attempts name
      | err e ↦ if is_not_found e then pure tt else raise (wrap "error checking CUDN" e)
    ]

  unfoldable pub wait_for_cudn_deletion : String → Exec W (Unit {0})
  wait_for_cudn_deletion name = poll_deletion 30 name

  unfoldable pub cudn_name_for : CudnSpec → MultiClusterNetwork → String
  cudn_name_for spec mcn = if str_eq spec.name "" then mcn.meta.name else spec.name

  -- The layer part of the network spec.
  unfoldable pub layer_config : CudnSpec → List (String × Value)
  unfolding subnet_values
  layer_config spec =
      let role = if str_eq spec.role "" then "Primary" else spec.role in
      let layer =
        object (("role", str role) ∷ ("subnets", given_slice (subnet_values spec.subnets)) ∷ []) in
      if str_eq spec.topology "Layer3"
      then ("layer3", layer) ∷ []
      else if str_eq spec.topology "Layer2"
      then ("layer2", layer) ∷ []
      else []

  -- The ClusterUserDefinedNetwork object that CreateCUDN submits, as the JSON that the server reads,
  -- where a uint32 is a number like any other.
  unfoldable pub new_cudn : CudnSpec → MultiClusterNetwork → Value
  unfolding cudn_name_for build_evpn_config_from_topology layer_config
  new_cudn spec mcn = object (
      ("apiVersion", str "k8s.ovn.org/v1")
      ∷ ("kind", str "ClusterUserDefinedNetwork")
      ∷ ("metadata", object (("name", str (cudn_name_for spec mcn)) ∷ []))
      ∷ (
        "spec",
        object (
            (
              "namespaceSelector",
              object (("matchLabels", given_labels spec.namespace_selector) ∷ []),
            )
            ∷ (
              "network",
              object (
                  ("topology", str spec.topology)
                  ∷ ("transport", str "EVPN")
                  ∷ ("evpn", build_evpn_config_from_topology mcn)
                  ∷ layer_config spec),
            )
            ∷ []),
      )
      ∷ [])

  unfoldable pub create_cudn : CudnSpec → MultiClusterNetwork → Exec W String
  unfolding cudn_name_for
  create_cudn spec mcn = do
    let name = cudn_name_for spec mcn
    existing ← attempt (cudns.get name)
    elim existing [
      | ok cudn ↦
          if found_eq (transport cudn) "EVPN"
          then pure name
          else raise (
              message (
                str_append "CUDN "
                  (str_append name " already exists without EVPN (created outside SkyNet)")))
      | err e ↦ if not (is_not_found e) then raise (wrap "failed to check if CUDN exists" e) else do
        wrapping "failed to create CUDN" (cudns.create (new_cudn spec mcn))
        attempt (wait_for_cudn_ready name)
        pure name
    ]

  unfoldable pub validate_cudn : Value → MultiClusterNetwork → Result (Unit {0})
  validate_cudn cudn mcn = elim (ci.machinery.nested_map cudn ("spec" ∷ "network" ∷ [])) [
    | none ↦ err (message "CUDN spec.network not found")
    | some network ↦
        if not (str_eq (or_empty (transport cudn)) "") && not (found_eq (transport cudn) "EVPN")
        then err (
            message (
              str_append "CUDN already has transport="
                (str_append (or_empty (transport cudn)) " (must be unset or EVPN)")))
        else elim (ci.machinery.nested_string network ("topology" ∷ [])) [
          | none ↦ err (message "CUDN topology not found")
          | some topology ↦
              if not (str_eq topology mcn.spec.topology)
              then err (
                  message (
                    str_append "CUDN topology (" (
                      str_append topology (
                        str_append ") does not match MCN topology ("
                          (str_append mcn.spec.topology ")")))))
              else ok tt
        ]
  ]

  -- Whether the CUDN carries the network's VNI and route target, where the code looks for them.
  unfoldable pub has_matching_config : Value → MultiClusterNetwork → Bool
  has_matching_config cudn mcn =
      let vrf = "spec" ∷ "network" ∷ "evpn" ∷ "ipVRF" ∷ [] in
      (to_uint32 (or_zero (ci.machinery.nested_int64 cudn (vrf ++ "vni" ∷ []))) == mcn.spec.vni)
      && str_eq (or_empty (ci.machinery.nested_string cudn (vrf ++ "routeTarget" ∷ [])))
          mcn.spec.route_target

  -- The merge patch that adds the transport and the EVPN configuration.
  unfoldable pub evpn_patch : MultiClusterNetwork → Value
  unfolding build_evpn_config_from_topology
  evpn_patch mcn = object (
      (
        "spec",
        object (
            (
              "network",
              object
                  (("transport", str "EVPN") ∷ ("evpn", build_evpn_config_from_topology mcn) ∷ []),
            )
            ∷ []),
      )
      ∷ [])

  unfoldable pub patch_cudn_with_evpn : String → MultiClusterNetwork → Exec W (Unit {0})
  patch_cudn_with_evpn name mcn = do
    cudn ← wrapping (str_append "CUDN " (str_append name " not found")) (cudns.get name)
    lift (wrap_err "CUDN validation failed" (validate_cudn cudn mcn))
    if found_eq (transport cudn) "EVPN" && has_matching_config cudn mcn
        then pure tt
        else (do wrapping "failed to patch CUDN" (cudns.patch name (evpn_patch mcn)); pure tt)

  unfoldable pub delete_cudn : String → Exec W (Unit {0})
  delete_cudn name = do
    deleted ← attempt (cudns.delete name)
    elim deleted [
      | ok _ ↦ pure tt
      | err e ↦ if is_not_found e then pure tt else raise (wrap "failed to delete CUDN" e)
    ]
