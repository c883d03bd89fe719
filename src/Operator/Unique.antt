-- ===== src/Operator/Unique.antt =====
-- The identifiers that the operator chooses are nobody else's.
use mcn.Cidr.{V6}
use mcn.Prelude.{
  String, false, not, Option, some, List, [], ◌∷◌, ◌&&◌, ◌≡◌, ◌≢◌, inl, inr, refl, sym, ◌∙◌, str_eq,
  arith, Bool-cases, Option-cases,
}
use mathlib.Core.Path.{subst}
use mcn.Prelude.Int.{ℤ, pos, eqb_ℤ}
use mcn.Kube.{Result, ok, err, Error, Result-cases, Value, Converter, DynamicClient}
use mcn.Crd.{Cluster, Skynet, cluster_gvr}
use mcn.Pools.{Pools, validate_asn}
use mcn.Asn.{new_asn_allocator, allocate_asn}
use mcn.Asn.Allocate.{IsListed}
use mcn.VtepPool.{new_vtep_allocator, allocate_vtep_cidr, validate_vtep_cidr}
use mcn.Operator.{
  check_unique, ensure_broker_unique, finish, choose_asn, compute_vtep_and_asn, template,
}

-- No other listed cluster has the subnet or the AS number.
abbrev pub IsUnused : Converter Cluster → String → String → ℤ → List Value → Type 0
IsUnused conv cluster_id vtep asn us =
    (c : Cluster)
    → IsListed conv c us
    → str_eq c.spec.cluster_id cluster_id ≡ false
    → (str_eq c.spec.vtep_cidr vtep ≡ false) × (eqb_ℤ c.spec.asn asn ≡ false)

check_unique-rest :
    (conv : Converter Cluster) (cluster_id vtep : String) (asn : ℤ) (u : Value) (us : List Value)
    → check_unique conv cluster_id vtep asn (u ∷ us) ≡ ok tt
    → check_unique conv cluster_id vtep asn us ≡ ok tt
unfolding check_unique
check_unique-rest conv cluster_id vtep asn u us h = ground arith

check_unique-first :
    (conv : Converter Cluster) (cluster_id vtep : String) (asn : ℤ) (u : Value) (us : List Value)
    (c : Cluster)
    → check_unique conv cluster_id vtep asn (u ∷ us) ≡ ok tt
    → conv.from_unstructured u ≡ ok c
    → str_eq c.spec.cluster_id cluster_id ≡ false
    → (str_eq c.spec.vtep_cidr vtep ≡ false) × (eqb_ℤ c.spec.asn asn ≡ false)
unfolding check_unique
check_unique-first conv cluster_id vtep asn u us c h e k = (ground arith, ground arith)

check_unique-IsUnused :
    (conv : Converter Cluster) (cluster_id vtep : String) (asn : ℤ) (us : List Value)
    → check_unique conv cluster_id vtep asn us ≡ ok tt
    → IsUnused conv cluster_id vtep asn us
check_unique-IsUnused conv cluster_id vtep asn [] h c l k = elim l [ ]
check_unique-IsUnused conv cluster_id vtep asn (u ∷ us) h c (inl e) k =
    check_unique-first conv cluster_id vtep asn u us c h e k
check_unique-IsUnused conv cluster_id vtep asn (u ∷ us) h c (inr l) k =
    check_unique-IsUnused conv cluster_id vtep asn us
      (check_unique-rest conv cluster_id vtep asn u us h) c l k

module _ {W : Type 0} (broker : DynamicClient W) (broker_ns : String) (conv : Converter Cluster)
    (parse_v6 : String → String → Option V6) (pools : Pools) (sk : Skynet) where
  abbrev pub listing : W → Result (List Value) × W
  listing w = (broker.at cluster_gvr broker_ns).list "" w

  -- The listing that led to the world `w'` shows the two unused.
  abbrev pub IsUniqueOn : String → ℤ → W → Type 0
  IsUniqueOn vtep asn w' =
      (w : W) × (us : List Value) × ((listing w).0 ≡ ok us)
      × ((listing w).1 ≡ w')
      × IsUnused conv sk.spec.cluster_id vtep asn us

  abbrev ensuring : String → ℤ → W → Result (Unit {0}) × W
  ensuring = ensure_broker_unique broker broker_ns conv parse_v6 pools sk

  ensured :
      (vtep : String) (asn : ℤ) (w : W) (us : List Value)
      → (ensuring vtep asn w).0 ≡ ok tt
      → (listing w).0 ≡ ok us
      → check_unique conv sk.spec.cluster_id vtep asn us ≡ ok tt
  unfolding ensure_broker_unique
  ensured vtep asn w us h l = ground arith

  not_ensured :
      (vtep : String) (asn : ℤ) (w : W) (e : Error)
      → (listing w).0 ≡ err e
      → (ensuring vtep asn w).0 ≢ ok tt
  unfolding ensure_broker_unique
  not_ensured vtep asn w e l = ground arith

  ensuring-world : (vtep : String) (asn : ℤ) (w : W) → (ensuring vtep asn w).1 ≡ (listing w).1
  unfolding ensure_broker_unique
  ensuring-world vtep asn w = ground arith

  ensured-IsUniqueOn :
      (vtep : String) (asn : ℤ) (w : W)
      → (ensuring vtep asn w).0 ≡ ok tt
      → IsUniqueOn vtep asn (listing w).1
  ensured-IsUniqueOn vtep asn w h = elim (Result-cases (listing w).0) [
    | inr (e, l) ↦ absurd (not_ensured vtep asn w e l h)
    | inl (us, l) ↦ (
      w,
      us,
      l,
      refl,
      check_unique-IsUnused conv sk.spec.cluster_id vtep asn us (ensured vtep asn w us h l),
    )
  ]

  finished :
      (vtep x : String) (asn y : ℤ) (w w' : W)
      → finish broker broker_ns conv parse_v6 pools sk vtep asn w ≡ (ok (x, y), w')
      → IsUniqueOn x y w'
  finished vtep x asn y w w' h = elim (Result-cases (ensuring vtep asn w).0) [
    | inr (e, k) ↦ absurd (ground arith)
    | inl (_, k) ↦
        let a : vtep ≡ x = ground arith in
        let b : asn ≡ y = ground arith in
        let c : (ensuring vtep asn w).1 ≡ w' = ground arith in
        subst (λ v. IsUniqueOn v y w') a
          (subst (λ n. IsUniqueOn vtep n w') b
            (subst (IsUniqueOn vtep asn) (sym (ensuring-world vtep asn w) ∙ c)
              (ensured-IsUniqueOn vtep asn w k)))
  ]

  abbrev allocating : W → Option (Result ℤ × W)
  allocating w =
      allocate_asn (new_asn_allocator broker broker_ns sk.spec.cluster_id (some pools) conv)
        (template sk.spec.cluster_id) w

  abbrev choosing : String → W → Option (Result (String × ℤ) × W)
  choosing = choose_asn broker broker_ns conv parse_v6 pools sk

  -- An AS number that was allocated, or given and validated, is passed to the end of the run.
  chosen :
      (vtep x : String) (y : ℤ) (w w' : W)
      → choosing vtep w ≡ some (ok (x, y), w')
      → (asn : ℤ) × (w1 : W) × (finish broker broker_ns conv parse_v6 pools sk vtep asn w1
          ≡ (ok (x, y), w'))
  unfolding choose_asn
  chosen vtep x y w w' h = elim (Bool-cases (eqb_ℤ sk.spec.asn (pos 0))) [
    | inl unset ↦ elim (Option-cases (allocating w)) [
      | inl e ↦ absurd (ground arith)
      | inr ((r, w1), e) ↦ elim (Result-cases r) [
        | inr (b, k) ↦ absurd (ground arith)
        | inl (asn, k) ↦ (asn, w1, ground arith)
      ]
    ]
    | inr set ↦ elim (Result-cases (validate_asn sk.spec.asn (some pools))) [
      | inr (b, k) ↦ absurd (ground arith)
      | inl (_, k) ↦ (sk.spec.asn, w, ground arith)
    ]
  ]

  abbrev running : W → Option (Result (String × ℤ) × W)
  running = compute_vtep_and_asn broker broker_ns conv parse_v6 pools sk

  abbrev allocating_vtep : W → Result String × W
  allocating_vtep =
      allocate_vtep_cidr
        (new_vtep_allocator broker broker_ns sk.spec.cluster_id (some pools) conv parse_v6)
        (template sk.spec.cluster_id)

  -- So too for the subnet.
  started :
      (x : String) (y : ℤ) (w w' : W)
      → (not (str_eq sk.status.vtep_cidr "") && not (eqb_ℤ sk.status.asn (pos 0))) ≡ false
      → running w ≡ some (ok (x, y), w')
      → (vtep : String) × (w1 : W) × (choosing vtep w1 ≡ some (ok (x, y), w'))
  unfolding compute_vtep_and_asn
  started x y w w' n h = elim (Bool-cases (str_eq sk.spec.vtep_cidr "")) [
    | inl unset ↦ elim (Result-cases (allocating_vtep w).0) [
      | inr (b, k) ↦ absurd (ground arith)
      | inl (vtep, k) ↦ (vtep, (allocating_vtep w).1, ground arith)
    ]
    | inr set ↦ elim (Result-cases (validate_vtep_cidr parse_v6 sk.spec.vtep_cidr (some pools))) [
      | inr (b, k) ↦ absurd (ground arith)
      | inl (_, k) ↦ (sk.spec.vtep_cidr, w, ground arith)
    ]
  ]

  -- If computeVtepAndASN returns a subnet and an AS number for an object whose status does not have
  -- both already, then its last call listed the broker's clusters, and no cluster of that listing
  -- with another id carried that AS number or the same text of a subnet, whether they were allocated
  -- or set in the object. The code compares the texts, so a listed text with host bits, as
  -- 100.0.0.1/16, is another one than that of its network.
  pub compute_vtep_and_asn-IsUniqueOn :
      (vtep : String) (asn : ℤ) (w w' : W)
      → (not (str_eq sk.status.vtep_cidr "") && not (eqb_ℤ sk.status.asn (pos 0))) ≡ false
      → running w ≡ some (ok (vtep, asn), w')
      → IsUniqueOn vtep asn w'
  compute_vtep_and_asn-IsUniqueOn vtep asn w w' n h =
      let (v, w1, c) = started vtep asn w w' n h in
      let (a, w2, f) = chosen v vtep asn w1 w' c in finished v vtep a asn w2 w' f
