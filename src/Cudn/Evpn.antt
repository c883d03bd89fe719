-- ===== src/Cudn/Evpn.antt =====
-- What the integrator recognises of the objects that it makes itself.
use mcn.Prelude.{
  ◌<◌, ◌^◌, String, none, some, [], ◌∷◌, ◌≡◌, ◌↔◌, refl, ◌∙◌, str_eq, eq_iff, eq_refl, arith,
  if◌then◌else◌,
}
use mcn.Prelude.Int.{pos}
use mcn.Kube.{ok, Value}
use mcn.Crd.{MultiClusterNetwork, CudnSpec}
use mcn.Paths.{FollowsPaths, path, as_string, as_int, as_map}
use mcn.Cudn.{CudnIntegrator, transport, new_cudn, has_matching_config, validate_cudn}

module _ {W : Type 0} (ci : CudnIntegrator W) (mcn : MultiClusterNetwork) where
  -- Validation of a CUDN whose transport is EVPN compares the topologies.
  validate_cudn_iff :
      (cudn v : Value) (t : String)
      → ci.machinery.nested_map cudn ("spec" ∷ "network" ∷ []) ≡ some v
      → transport ci cudn ≡ some "EVPN"
      → ci.machinery.nested_string v ("topology" ∷ []) ≡ some t
      → (validate_cudn ci cudn mcn ≡ ok tt) ↔ (t ≡ mcn.spec.topology)
  unfolding validate_cudn
  validate_cudn_iff cudn v t m e k = (
    λ h. ground (arith, eq_iff t mcn.spec.topology),
    λ h. ground (arith, eq_iff t mcn.spec.topology),
  )

module _ {W : Type 0} (ci : CudnIntegrator W) (p : FollowsPaths ci.machinery) (spec : CudnSpec)
    (mcn : MultiClusterNetwork) where
  vni_path :
      as_int (path ("spec" ∷ "network" ∷ "evpn" ∷ "ipVRF" ∷ "vni" ∷ []) (new_cudn ci spec mcn))
      ≡ (if str_eq mcn.spec.topology "Layer3" then some (pos mcn.spec.vni) else none)
  unfolding new_cudn
  vni_path = ground arith

  route_target_path :
      as_string
        (path ("spec" ∷ "network" ∷ "evpn" ∷ "ipVRF" ∷ "routeTarget" ∷ []) (new_cudn ci spec mcn))
      ≡ (if str_eq mcn.spec.topology "Layer3" then some mcn.spec.route_target else none)
  unfolding new_cudn
  route_target_path = ground arith

  -- The integrator finds the network's VNI and route target in the CUDN that it makes for it
  -- exactly when the topology is Layer3, provided the VNI is a non-zero uint32. For Layer2 it
  -- looks in the VRF that a Layer2 configuration does not have.
  pub has_matching_config-new_cudn :
      0 < mcn.spec.vni
      → mcn.spec.vni < 2 ^ 32
      → has_matching_config ci (new_cudn ci spec mcn) mcn ≡ str_eq mcn.spec.topology "Layer3"
  unfolding has_matching_config
  has_matching_config-new_cudn low high =
      simp (p.ints, p.strings, vni_path, route_target_path)
        (ground (arith, eq_refl mcn.spec.route_target))

  network_path :
      (v : Value) × (as_map (path ("spec" ∷ "network" ∷ []) (new_cudn ci spec mcn)) ≡ some v)
      × (as_string (path ("topology" ∷ []) v) ≡ some spec.topology)
  unfolding new_cudn
  network_path = (_, refl, refl)

  transport_path :
      as_string (path ("spec" ∷ "network" ∷ "transport" ∷ []) (new_cudn ci spec mcn)) ≡ some "EVPN"
  unfolding new_cudn
  transport_path = refl

  -- The CUDN that CreateCUDN submits passes the validation that a patch of it would make exactly
  -- when its own topology is that of the network. CreateCUDN does not compare the two.
  pub validate_cudn-new_cudn :
      (validate_cudn ci (new_cudn ci spec mcn) mcn ≡ ok tt) ↔ (spec.topology ≡ mcn.spec.topology)
  validate_cudn-new_cudn =
      let (v, m, t) = network_path in
      validate_cudn_iff ci mcn (new_cudn ci spec mcn) v spec.topology (p.maps _ _ ∙ m)
        (p.strings _ _ ∙ transport_path) (p.strings _ _ ∙ t)
