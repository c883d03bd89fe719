-- ===== src/Vni/Capacity.antt =====
-- The allocator fails for want of identifiers only when every one of the range is allocated, which
-- takes 5001 networks on the broker.
use mcn.Prelude.{
  ℕ, zero, suc, ◌+◌, ◌≤◌, ◌<◌, ◌≡◌, ◌∙◌, refl, true, List, [], ◌∷◌, arith, has, erase, length,
  length-erase, has-erase,
}
use mcn.Kube.{Result, ok, err, Value, Converter}
use mcn.Crd.{MultiClusterNetwork}
use mcn.Vni.{collect_vnis, find_next_available_vni}
use mcn.Vni.Least.{ScanResult, find_next-ScanResult}

-- A list that holds `k` consecutive numbers has at least `k` elements.
length-run :
    (k lo : ℕ) (xs : List ℕ) → ((u : ℕ) → lo ≤ u → u < lo + k → has u xs ≡ true) → k ≤ length xs
length-run zero lo xs h = omega arith
length-run (suc k) lo xs h =
    let first : has lo xs ≡ true = h lo (omega arith) (omega arith) in
    let rest : k ≤ length (erase lo xs) =
      length-run k (lo + 1) (erase lo xs)
        (λ u a b. has-erase lo u xs (ground arith) ∙ h u (omega arith) (omega arith)) in
    omega (arith, length-erase lo xs first)

room_found :
    (allocated : List ℕ) (r : Result ℕ)
    → ScanResult allocated 5001 5000 r
    → length allocated < 5001
    → (v : ℕ) × (r ≡ ok v)
room_found allocated (ok v) h short = (v, refl)
room_found allocated (err e) (h, b) short = absurd (omega (arith, length-run 5001 5000 allocated b))

pub find_next_available_vni_room :
    (allocated : List ℕ)
    → length allocated < 5001
    → (v : ℕ) × (find_next_available_vni allocated ≡ ok v)
find_next_available_vni_room allocated = room_found allocated _ (find_next-ScanResult allocated)

pub length-collect_vnis :
    (conv : Converter MultiClusterNetwork) (us : List Value)
    → length (collect_vnis conv us) ≤ length us
unfolding collect_vnis
length-collect_vnis conv [] = omega arith
length-collect_vnis conv (u ∷ us) = ground (arith, length-collect_vnis conv us)
