-- ===== src/Vni/Allocate.antt =====
-- AllocateVNI against what the broker listed.
use mcn.Prelude.{
  ℕ, ◌≤◌, ◌<◌, ◌≡◌, ◌≢◌, ◌⊎◌, inl, inr, ◌∙◌, sym, ap, true, List, [], ◌∷◌, arith, has, length, ◌==◌,
  ==_iff, Bool-cases,
}
use mcn.Kube.{Result, ok, err, Value, Converter, wrap_err, wrap_err-eq-ok, Result-cases, Error}
use mcn.Crd.{MultiClusterNetwork, multi_cluster_network_gvr}
use mcn.Vni.{VniAllocator, vni_min, vni_max, collect_vnis, find_next_available_vni, allocate_vni}
use mcn.Vni.Least.{IsLeastFrom, find_next_available_vni-IsLeastFrom}
use mcn.Vni.Capacity.{find_next_available_vni_room, length-collect_vnis}

-- Some listed object converts to the network `n`.
abbrev pub Listed : Converter MultiClusterNetwork → MultiClusterNetwork → List Value → Type 0
Listed conv n [] = ⊥
Listed conv n (u ∷ us) = (conv.from_unstructured u ≡ ok n) ⊎ Listed conv n us

pub has-collect_vnis :
    (conv : Converter MultiClusterNetwork) (n : MultiClusterNetwork) (us : List Value)
    → Listed conv n us
    → n.spec.vni ≢ 0
    → has n.spec.vni (collect_vnis conv us) ≡ true
unfolding collect_vnis
has-collect_vnis conv n [] h k = elim h [ ]
has-collect_vnis conv n (u ∷ us) (inl e) k = ground arith
has-collect_vnis conv n (u ∷ us) (inr h) k = ground (arith, has-collect_vnis conv n us h k)

-- The list call that AllocateVNI makes, in the state `w`.
abbrev pub listing : {W : Type 0} → VniAllocator W → W → Result (List Value) × W
listing a w = (a.broker_client.at multi_cluster_network_gvr a.broker_ns).list "" w

-- What a listing and the scan of it say of an allocated VNI.
abbrev pub IsFresh : {W : Type 0} → VniAllocator W → W → ℕ → Type 0
IsFresh a w v =
    (us : List Value) × ((listing a w).0 ≡ ok us)
    × ((n : MultiClusterNetwork) → Listed a.converter n us → n.spec.vni ≢ v)
    × (vni_min ≤ v)
    × (v ≤ vni_max)

-- Conversely, a VNI in the set is that of some listed network.
pub Listed-of_has :
    (conv : Converter MultiClusterNetwork) (v : ℕ) (us : List Value)
    → has v (collect_vnis conv us) ≡ true
    → (n : MultiClusterNetwork) × Listed conv n us × (n.spec.vni ≡ v)
unfolding collect_vnis
Listed-of_has conv v [] h = cc
Listed-of_has conv v (u ∷ us) h = elim (Result-cases (conv.from_unstructured u)) [
  | inl (n, e) ↦ elim (Bool-cases (n.spec.vni == v)) [
    | inl same ↦ (n, inl e, (==_iff n.spec.vni v).0 same)
    | inr other ↦ let (k, l, s) = Listed-of_has conv v us (ground arith) in (k, inr l, s)
  ]
  | inr (b, e) ↦ let (k, l, s) = Listed-of_has conv v us (ground arith) in (k, inr l, s)
]

module _ {W : Type 0} (a : VniAllocator W) (mcn : MultiClusterNetwork) (w : W) where
  allocate_vni-listed :
      (us : List Value)
      → mcn.spec.vni ≡ 0
      → (listing a w).0 ≡ ok us
      → (allocate_vni a mcn w).0
        ≡ wrap_err "failed to find available VNI"
            (find_next_available_vni (collect_vnis a.converter us))
  unfolding allocate_vni
  allocate_vni-listed us z l = ground arith

  not_allocated :
      {v : ℕ} (b : Error)
      → mcn.spec.vni ≡ 0
      → (listing a w).0 ≡ err b
      → (allocate_vni a mcn w).0 ≢ ok v
  unfolding allocate_vni
  not_allocated b z l = ground arith

  IsFresh-of_found :
      (us : List Value) (v : ℕ)
      → (listing a w).0 ≡ ok us
      → find_next_available_vni (collect_vnis a.converter us) ≡ ok v
      → IsFresh a w v
  IsFresh-of_found us v l e =
      let (least, top) =
        (find_next_available_vni-IsLeastFrom (collect_vnis a.converter us) v).0 e in
      (
        us,
        l,
        λ n h same. cc (
          least.free,
          ap (λ k. has k (collect_vnis a.converter us)) same,
          has-collect_vnis a.converter n us h (λ z. absurd (omega (arith, least.above))),
        ),
        least.above,
        top,
      )

  -- A network without a VNI gets one of 5000..10000 that no network in the broker's listing
  -- carries, provided the allocation succeeds at all; then the listing succeeded too.
  pub allocate_vni-IsFresh :
      (v : ℕ) → mcn.spec.vni ≡ 0 → (allocate_vni a mcn w).0 ≡ ok v → IsFresh a w v
  allocate_vni-IsFresh v z e = elim (Result-cases (listing a w).0) [
    | inl (us, l) ↦
        IsFresh-of_found us v l (wrap_err-eq-ok _ _ (sym (allocate_vni-listed us z l) ∙ e))
    | inr (b, l) ↦ absurd (not_allocated b z l e)
  ]

  -- For a network without a VNI, once the broker has listed fewer than 5001 objects, the
  -- allocation succeeds with a VNI of 5000..10000 that no network of the listing carries.
  pub allocate_vni_room :
      (us : List Value)
      → mcn.spec.vni ≡ 0
      → (listing a w).0 ≡ ok us
      → length us < 5001
      → (v : ℕ) × ((allocate_vni a mcn w).0 ≡ ok v) × IsFresh a w v
  allocate_vni_room us z l short =
      let (v, found) =
        find_next_available_vni_room (collect_vnis a.converter us)
          (omega (arith, length-collect_vnis a.converter us)) in
      (
        v,
        allocate_vni-listed us z l ∙ ap (wrap_err "failed to find available VNI") found,
        IsFresh-of_found us v l found,
      )

  -- Once a network has no VNI, the only call of AllocateVNI is the list call.
  pub allocate_vni-world : mcn.spec.vni ≡ 0 → (allocate_vni a mcn w).1 ≡ (listing a w).1
  unfolding allocate_vni
  allocate_vni-world z = ground arith

  -- An allocated VNI is the least that the listing leaves free.
  pub allocate_vni-least :
      (v : ℕ)
      → mcn.spec.vni ≡ 0
      → (allocate_vni a mcn w).0 ≡ ok v
      → (us : List Value) × ((listing a w).0 ≡ ok us)
        × IsLeastFrom (collect_vnis a.converter us) vni_min v
  allocate_vni-least v z e = elim (Result-cases (listing a w).0) [
    | inl (us, l) ↦ (
      us,
      l,
      ((find_next_available_vni-IsLeastFrom (collect_vnis a.converter us) v).0
          (wrap_err-eq-ok _ _ (sym (allocate_vni-listed us z l) ∙ e))).0,
    )
    | inr (b, l) ↦ absurd (not_allocated b z l e)
  ]
