-- ===== src/Vni.antt =====
-- The VNI allocator of pkg/agent/allocator/vni_allocator.go: it lists the networks on the broker
-- and takes the smallest identifier of the range that none of them carries.
pub mod Least
pub mod Capacity
pub mod Targets
pub mod Allocate
use mcn.Prelude.{
  ℕ, zero, suc, ◌+◌, ◌-◌, String, Bool, not, List, [], ◌∷◌, ◌||◌, str_append, ltb, has, ◌==◌,
  if◌then◌else◌,
}
use mcn.Prelude.Decimal.{print_nat}
use mcn.Kube.{
  Result, ok, err, Error, message, Exec, pure, lift, wrapping, wrap_err, ◌>>=◌, Value, Converter,
  DynamicClient,
}
use mcn.Crd.{MultiClusterNetwork, multi_cluster_network_gvr}

abbrev pub vni_min : ℕ
vni_min = 5000

abbrev pub vni_max : ℕ
vni_max = 10000

abbrev pub route_target_asn : ℕ
route_target_asn = 65000

-- `converter` is runtime.DefaultUnstructuredConverter at MultiClusterNetwork.
pub record VniAllocator (W : Type 0) : Type 0 where
  pub broker_client : DynamicClient W
  pub broker_ns : String
  pub cluster_id : String
  pub converter : Converter MultiClusterNetwork

-- The loop of getAllocatedVNIs over the listed objects: one that does not convert is skipped, and
-- so is one whose VNI is 0. The map[uint32]bool is the list of its keys.
unfoldable pub collect_vnis : Converter MultiClusterNetwork → List Value → List ℕ
collect_vnis conv [] = []
collect_vnis conv (u ∷ us) =
    let rest = collect_vnis conv us in
    elim (conv.from_unstructured u) [
      | ok mcn ↦ if mcn.spec.vni == 0 then rest else mcn.spec.vni ∷ rest
      | err e ↦ rest
    ]

get_allocated_vnis : {W : Type 0} → VniAllocator W → Exec W (List ℕ)
get_allocated_vnis a = do
  items ←
      wrapping "failed to list MultiClusterNetworks from broker"
        ((a.broker_client.at multi_cluster_network_gvr a.broker_ns).list "")
  pure (collect_vnis a.converter items)

abbrev pub no_available_vni : Error
no_available_vni = message "no available VNI in range [5000-10000]"

-- The loop of findNextAvailableVNI, by the rounds that are left.
scan_vnis : List ℕ → ℕ → ℕ → Result ℕ
scan_vnis allocated zero vni = err no_available_vni
scan_vnis allocated (suc rounds) vni =
    let rest = scan_vnis allocated rounds (vni + 1) in
    if not (has vni allocated) then ok vni else rest

unfoldable pub find_next_available_vni : List ℕ → Result ℕ
unfolding scan_vnis
find_next_available_vni allocated = scan_vnis allocated (vni_max + 1 - vni_min) vni_min

unfoldable pub allocate_vni : {W : Type 0} → VniAllocator W → MultiClusterNetwork → Exec W ℕ
unfolding get_allocated_vnis
allocate_vni a mcn = if not (mcn.spec.vni == 0) then pure mcn.spec.vni else do
  allocated ← wrapping "failed to get allocated VNIs" (get_allocated_vnis a)
  lift (wrap_err "failed to find available VNI" (find_next_available_vni allocated))

unfoldable pub validate_vni : ℕ → Result (Unit {0})
validate_vni vni =
    if ltb vni vni_min || ltb vni_max vni
    then err (
        message
          (str_append "VNI " (str_append (print_nat vni) " is not in valid range [5000-10000]")))
    else ok tt

format_route_target : ℕ → ℕ → String
format_route_target asn vni = str_append (print_nat asn) (str_append ":" (print_nat vni))

unfoldable pub generate_route_target : ℕ → String
unfolding format_route_target
generate_route_target vni = format_route_target route_target_asn vni
