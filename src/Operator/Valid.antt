-- ===== src/Operator/Valid.antt =====
-- The identifiers that the operator chooses pass the validations that the agent repeats.
use mcn.Prelude.{
  ℕ, ◌-◌, String, true, false, not, Option, some, ◌&&◌, ◌≡◌, ◌≢◌, inl, inr, refl, str_eq, arith,
  Bool-cases, Option-cases,
}
use mathlib.Core.Path.{subst}
use mcn.Prelude.Int.{ℤ, pos, ◌≤ℤ◌, eqb_ℤ, max_int32, IsInt32}
use mcn.Kube.{Result, ok, err, Error, Result-cases, Converter, DynamicClient}
use mcn.Crd.{Cluster, Skynet}
use mcn.Cidr.{V6, Quad, v4, parse_cidr}
use mcn.Pools.{Pools, validate_asn}
use mcn.Asn.{AsnAllocator, new_asn_allocator, get_allocated_asns, allocate_asn, no_available_asn}
use mcn.Asn.Allocate.{Allocation, allocate_asn-Allocation}
use mcn.Asn.Allocate as AsnAllocate
use mcn.VtepPool.{new_vtep_allocator, allocate_vtep_cidr, validate_vtep_cidr}
use mcn.VtepPool.Allocate.{validate_vtep_cidr-allocate}
use mcn.Operator.{finish, choose_asn, compute_vtep_and_asn, template, ensure_broker_unique}

module _ {W : Type 0} (a : AsnAllocator W) (cluster : Cluster) (w : W) where
  unlisted :
      (e : Error) (v : ℤ) (w' : W)
      → eqb_ℤ cluster.spec.asn (pos 0) ≡ true
      → (AsnAllocate.listing a cluster w).0 ≡ err e
      → allocate_asn a cluster w ≢ some (ok v, w')
  unfolding allocate_asn get_allocated_asns
  unlisted e v w' z l = ground arith

  -- An AS number that is allocated passes ValidateASN.
  pub validate_asn-allocate :
      (v : ℤ) (w' : W)
      → eqb_ℤ cluster.spec.asn (pos 0) ≡ true
      → IsInt32 a.pools.asn_min
      → a.pools.asn_max ≤ℤ pos (max_int32 - 1)
      → allocate_asn a cluster w ≡ some (ok v, w')
      → validate_asn v (some a.pools) ≡ ok tt
  validate_asn-allocate v w' z fits top run =
      elim (Result-cases (AsnAllocate.listing a cluster w).0) [
        | inr (e, l) ↦ absurd (unlisted e v w' z l run)
        | inl (us, l) ↦ elim (allocate_asn-Allocation a cluster w us z fits top l) [
          | inl (u, r, fresh) ↦
              let same : u ≡ v = cc (r, run) in
              subst (λ x. validate_asn x (some a.pools) ≡ ok tt) same fresh.valid
          | inr (r, full) ↦ absurd (let bad : ok v ≡ err no_available_asn = cc (r, run) in cc bad)
        ]
      ]

module _ {W : Type 0} (broker : DynamicClient W) (broker_ns : String) (conv : Converter Cluster)
    (parse_v6 : String → String → Option V6) (pools : Pools) (sk : Skynet) where
  finished :
      (vtep x : String) (asn y : ℤ) (w w' : W)
      → finish broker broker_ns conv parse_v6 pools sk vtep asn w ≡ (ok (x, y), w')
      → (vtep ≡ x) × (asn ≡ y)
  finished vtep x asn y w w' h =
      elim (Result-cases
        (ensure_broker_unique broker broker_ns conv parse_v6 pools sk vtep asn w).0) [
          | inr (e, k) ↦ absurd (ground arith)
          | inl (_, k) ↦ (ground arith, ground arith)
        ]

  abbrev asns : AsnAllocator W
  asns = new_asn_allocator broker broker_ns sk.spec.cluster_id (some pools) conv

  chosen :
      (vtep x : String) (y : ℤ) (w w' : W)
      → IsInt32 pools.asn_min
      → pools.asn_max ≤ℤ pos (max_int32 - 1)
      → choose_asn broker broker_ns conv parse_v6 pools sk vtep w ≡ some (ok (x, y), w')
      → (vtep ≡ x) × (validate_asn y (some pools) ≡ ok tt)
  unfolding choose_asn new_asn_allocator
  chosen vtep x y w w' fits top h = elim (Bool-cases (eqb_ℤ sk.spec.asn (pos 0))) [
    | inl unset ↦ elim (Option-cases (allocate_asn asns (template sk.spec.cluster_id) w)) [
      | inl e ↦ absurd (ground arith)
      | inr ((r, w1), e) ↦ elim (Result-cases r) [
        | inr (b, k) ↦ absurd (ground arith)
        | inl (asn, k) ↦
            let (p, q) = finished vtep x asn y w1 w' (ground arith) in
            (
              p,
              subst (λ z. validate_asn z (some pools) ≡ ok tt) q
                  (validate_asn-allocate asns (template sk.spec.cluster_id) w asn w1 refl fits top
                    (ground arith)),
            )
      ]
    ]
    | inr set ↦ elim (Result-cases (validate_asn sk.spec.asn (some pools))) [
      | inr (b, k) ↦ absurd (ground arith)
      | inl (_, k) ↦
          let (p, q) = finished vtep x sk.spec.asn y w w' (ground arith) in
          (p, subst (λ z. validate_asn z (some pools) ≡ ok tt) q k)
    ]
  ]

  abbrev allocating_vtep : W → Result String × W
  allocating_vtep =
      allocate_vtep_cidr
        (new_vtep_allocator broker broker_ns sk.spec.cluster_id (some pools) conv parse_v6)
        (template sk.spec.cluster_id)

  started :
      (base : Quad) (n : ℕ) (x : String) (y : ℤ) (w w' : W)
      → parse_cidr parse_v6 pools.vtep_pool_cidr ≡ some (v4 base n)
      → (not (str_eq sk.status.vtep_cidr "") && not (eqb_ℤ sk.status.asn (pos 0))) ≡ false
      → compute_vtep_and_asn broker broker_ns conv parse_v6 pools sk w ≡ some (ok (x, y), w')
      → (vtep : String) × (w1 : W) × (validate_vtep_cidr parse_v6 vtep (some pools) ≡ ok tt)
        × (choose_asn broker broker_ns conv parse_v6 pools sk vtep w1 ≡ some (ok (x, y), w'))
  unfolding compute_vtep_and_asn new_vtep_allocator
  started base n x y w w' v none_yet h = elim (Bool-cases (str_eq sk.spec.vtep_cidr "")) [
    | inl unset ↦ elim (Result-cases (allocating_vtep w).0) [
      | inr (b, k) ↦ absurd (ground arith)
      | inl (vtep, k) ↦ (
        vtep,
        (allocating_vtep w).1,
        validate_vtep_cidr-allocate
            (new_vtep_allocator broker broker_ns sk.spec.cluster_id (some pools) conv parse_v6)
            (template sk.spec.cluster_id) w base n vtep v refl k,
        ground arith,
      )
    ]
    | inr set ↦ elim (Result-cases (validate_vtep_cidr parse_v6 sk.spec.vtep_cidr (some pools))) [
      | inr (b, k) ↦ absurd (ground arith)
      | inl (_, k) ↦ (sk.spec.vtep_cidr, w, k, ground arith)
    ]
  ]

  -- What computeVtepAndASN returns for an object without an allocation passes both validations, where
  -- the pool of subnets is an IPv4 network and the pool of AS numbers ends below the largest int32.
  pub compute_vtep_and_asn-passes :
      (base : Quad) (n : ℕ) (x : String) (y : ℤ) (w w' : W)
      → parse_cidr parse_v6 pools.vtep_pool_cidr ≡ some (v4 base n)
      → IsInt32 pools.asn_min
      → pools.asn_max ≤ℤ pos (max_int32 - 1)
      → (not (str_eq sk.status.vtep_cidr "") && not (eqb_ℤ sk.status.asn (pos 0))) ≡ false
      → compute_vtep_and_asn broker broker_ns conv parse_v6 pools sk w ≡ some (ok (x, y), w')
      → (validate_vtep_cidr parse_v6 x (some pools) ≡ ok tt) × (validate_asn y (some pools) ≡ ok tt)
  compute_vtep_and_asn-passes base n x y w w' v fits top none_yet h =
      let (vtep, w1, passes, choosing) = started base n x y w w' v none_yet h in
      let (same, valid) = chosen vtep x y w1 w' fits top choosing in
      (subst (λ t. validate_vtep_cidr parse_v6 t (some pools) ≡ ok tt) same passes, valid)
