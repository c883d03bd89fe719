-- ===== src/Tests/Vni.antt =====
-- Runs of the VNI allocator.
use mcn.Prelude.{ℕ, [], ◌∷◌, map, ◌≡◌, ◌↔◌, ◌≤◌, refl, arith}
use mcn.Prelude.Decimal.{print_nat}
use mcn.Kube.{ok}
use mcn.Vni.{
  vni_min, vni_max, collect_vnis, find_next_available_vni, allocate_vni, generate_route_target,
}
use mcn.Vni.Least.{IsLeastFrom, find_next_available_vni-IsLeastFrom}
use mcn.Vni.Allocate.{IsFresh, allocate_vni-IsFresh, allocate_vni_room}
use mcn.Tests.Codec.{encode, decode}
use mcn.Tests.Broker.{Networks, vni_allocator, network}

find_skips : find_next_available_vni (5000 ∷ 5002 ∷ []) ≡ ok 5001
unfolding find_next_available_vni
find_skips = refl

route_target_text : generate_route_target 5001 ≡ "65000:5001"
unfolding generate_route_target print_nat
route_target_text = refl

find_next_available_vni-IsLeastFrom_example :
    (find_next_available_vni (5000 ∷ 5002 ∷ []) ≡ ok 5001)
    ↔ (IsLeastFrom (5000 ∷ 5002 ∷ []) vni_min 5001 × (5001 ≤ vni_max))
find_next_available_vni-IsLeastFrom_example =
    find_next_available_vni-IsLeastFrom (5000 ∷ 5002 ∷ []) 5001

abbrev two : Networks
two = network "blue" 5000 ∷ network "red" 5001 ∷ []

allocate_vni_room_example :
    (v : ℕ) × ((allocate_vni vni_allocator (network "green" 0) two).0 ≡ ok v)
    × IsFresh vni_allocator two v
allocate_vni_room_example =
    allocate_vni_room vni_allocator (network "green" 0) two (map encode two) refl refl (omega arith)

allocates_third : (allocate_vni vni_allocator (network "green" 0) two).0 ≡ ok 5002
unfolding allocate_vni collect_vnis find_next_available_vni decode
allocates_third = refl

allocate_vni-IsFresh_example : IsFresh vni_allocator two 5002
allocate_vni-IsFresh_example =
    allocate_vni-IsFresh vni_allocator (network "green" 0) two 5002 refl allocates_third
