-- ===== src/Tests/Cudn.antt =====
-- Runs of the CUDN integrator and of the advertisements.
use mcn.Prelude.{false, [], ◌∷◌, ◌≡◌, ◌↔◌, refl, str_eq, arith}
use mcn.Kube.{ok, Value, str, object}
use mcn.Crd.{MultiClusterNetwork}
use mcn.Cudn.{cudns, new_cudn, has_matching_config, validate_cudn, patch_cudn_with_evpn, evpn_patch}
use mcn.Cudn.Evpn.{has_matching_config-new_cudn, validate_cudn-new_cudn}
use mcn.Cudn.Patch.{IsPatched, patch_cudn_with_evpn-IsPatched, patch_cudn_with_evpn_again}
use mcn.Tests.Broker.{network}
use mcn.Tests.Cluster.{World, machinery-FollowsPaths, integrator, made_by_skynet}

abbrev blue : MultiClusterNetwork
blue = network "blue" 5000

abbrev flat : MultiClusterNetwork
flat = record blue { spec = record blue.spec { topology = "Layer2" } }

-- A CUDN of the user's, without a transport.
abbrev users : Value
users = object (("spec", object (("network", object (("topology", str "Layer2") ∷ [])) ∷ [])) ∷ [])

abbrev start : World
start = record { broker = []; cudns = ("shop", users) ∷ []; advertised = false }

has_matching_config-new_cudn_example :
    has_matching_config integrator (new_cudn integrator made_by_skynet flat) flat
    ≡ str_eq "Layer2" "Layer3"
has_matching_config-new_cudn_example =
    has_matching_config-new_cudn integrator machinery-FollowsPaths made_by_skynet flat (omega arith)
      (omega arith)

validate_cudn-new_cudn_example :
    (validate_cudn integrator (new_cudn integrator made_by_skynet blue) blue ≡ ok tt)
    ↔ (made_by_skynet.topology ≡ blue.spec.topology)
validate_cudn-new_cudn_example =
    validate_cudn-new_cudn integrator machinery-FollowsPaths made_by_skynet blue

patches : (patch_cudn_with_evpn integrator "shop" flat start).0 ≡ ok tt
unfolding patch_cudn_with_evpn validate_cudn has_matching_config
patches = refl

patch_cudn_with_evpn-IsPatched_example :
    (cudn : Value) × IsPatched integrator "shop" flat start cudn
patch_cudn_with_evpn-IsPatched_example =
    patch_cudn_with_evpn-IsPatched integrator "shop" flat start machinery-FollowsPaths patches

patch_cudn_with_evpn_again_example :
    ((patch_cudn_with_evpn integrator "shop" flat start).1
      ≡ ((cudns integrator).patch "shop" (evpn_patch integrator flat) start).1)
    × (((patch_cudn_with_evpn integrator "shop" flat start).0 ≡ ok tt) ↔ (
        (v : Value) × (((cudns integrator).patch "shop" (evpn_patch integrator flat) start).0
          ≡ ok v)))
unfolding validate_cudn
patch_cudn_with_evpn_again_example =
    patch_cudn_with_evpn_again integrator "shop" flat start users (omega arith) refl refl refl
