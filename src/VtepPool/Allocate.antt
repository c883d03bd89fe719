-- ===== src/VtepPool/Allocate.antt =====
-- What AllocateVtepCIDR returns.
use mcn.Prelude.{
  some_inj, ℕ, ◌+◌, ◌*◌, ◌/◌, ◌^◌, ◌≤◌, ◌<◌, ◌≡◌, ◌≢◌, sym, ap, ◌∙◌, inl, inr, String, true, false,
  Option, some, List, ◌==◌, ==_iff, str_eq, arith, Bool-cases, Option-cases,
}
use mathlib.Core.Path.{subst}
use mcn.Prelude.Int.{pos, eqb_ℤ, eqb_ℤ→eq}
use mcn.Cidr.{V6, Quad, Cidr, v4, parse_cidr, contains, number}
use mcn.Cidr.RoundTrip.{IsQuad, parse_cidr-print_cidr}
use mcn.Cidr.Bytes.{parse_cidr-IsQuad}
use mcn.Kube.{Result, ok, err, Error, wrap_err-eq-ok, Result-cases, Value}
use mcn.Crd.{Cluster, cluster_gvr}
use mcn.Pools.{Pools}
use mcn.VtepPool.{
  VtepAllocator, collect_cidrs, is_taken, subnet_text, scan_cidrs, ones, find_next_available_cidr,
  allocate_vtep_cidr, validate_vtep_cidr, within_pool,
}
use mcn.VtepPool.Walk.{IsFirst, WalkResult, scan_cidrs-WalkResult, IsListed, is_taken-collect_cidrs}

of_walk :
    (allocated : List String) (pool : Cidr) (rounds lo : ℕ) (r : Result String) (s : String)
    → WalkResult allocated pool rounds lo r
    → r ≡ ok s
    → (i : ℕ) × (s ≡ subnet_text pool i) × (i < lo + rounds) × IsFirst allocated pool lo i
of_walk allocated pool rounds lo (err e) s h k = cc
of_walk allocated pool rounds lo (ok t) s (i, e, b, h) k = (i, cc (e, k), b, h)

module _ {W : Type 0} (a : VtepAllocator W) where
  abbrev pub pool_of : Option Cidr
  pool_of = parse_cidr a.parse_v6 a.pools.vtep_pool_cidr

  -- The pool is a /8 network and the prefix length 16.
  pub record IsSupported (pool : Cidr) : Type 0 where
    pub parses : pool_of ≡ some pool
    pub eight : ones pool ≡ 8
    pub sixteen : a.pools.vtep_prefix_len ≡ pos 16

  supported :
      (allocated : List String) (s : String)
      → find_next_available_cidr a allocated ≡ ok s
      → (pool : Cidr) × IsSupported pool × (scan_cidrs allocated pool 256 0 ≡ ok s)
  unfolding find_next_available_cidr
  supported allocated s h = elim (Option-cases pool_of) [
    | inl e ↦ absurd (ground arith)
    | inr (pool, e) ↦ elim (Bool-cases (ones pool == 8)) [
      | inr other ↦ absurd (ground arith)
      | inl eight ↦ elim (Bool-cases (eqb_ℤ a.pools.vtep_prefix_len (pos 16))) [
        | inr other ↦ absurd (ground arith)
        | inl sixteen ↦ (
          pool,
          record {
            parses = e;
            eight = (==_iff (ones pool) 8).0 eight;
            sixteen = eqb_ℤ→eq a.pools.vtep_prefix_len (pos 16) sixteen;
          },
          ground arith,
        )
      ]
    ]
  ]

  module _ (cluster : Cluster) (w : W) where
    abbrev pub listing : Result (List Value) × W
    listing = (a.broker_client.at cluster_gvr a.broker_ns).list "" w

    -- `s` is the first network of the pool that no listed cluster has.
    pub record IsSubnet (s : String) : Type 0 where
      pub us : List Value
      pub pool : Cidr
      pub i : ℕ
      pub listed : listing.0 ≡ ok us
      pub supports : IsSupported pool
      pub bound : i < 256
      pub text : s ≡ subnet_text pool i
      pub is_first : IsFirst (collect_cidrs a.converter us) pool 0 i
      pub unused :
          (c : Cluster)
          → IsListed a.converter c us
          → str_eq c.spec.vtep_cidr "" ≡ false
          → c.spec.vtep_cidr ≢ s

    listed_ok :
        (us : List Value) (s : String)
        → str_eq cluster.spec.vtep_cidr "" ≡ true
        → listing.0 ≡ ok us
        → (allocate_vtep_cidr a cluster w).0 ≡ ok s
        → find_next_available_cidr a (collect_cidrs a.converter us) ≡ ok s
    unfolding allocate_vtep_cidr
    listed_ok us s z l h =
        wrap_err-eq-ok "failed to find available VTEP CIDR"
          (find_next_available_cidr a (collect_cidrs a.converter us)) (ground arith)

    unlisted :
        (e : Error) (s : String)
        → str_eq cluster.spec.vtep_cidr "" ≡ true
        → listing.0 ≡ err e
        → (allocate_vtep_cidr a cluster w).0 ≢ ok s
    unfolding allocate_vtep_cidr
    unlisted e s z l = ground arith

    -- A text that AllocateVtepCIDR gives, out of an IPv4 pool, to a cluster without a subnet, is that
    -- of a /16 network of the /8 pool, the first one whose text no listed cluster carries.
    pub allocate_vtep_cidr-IsSubnet :
        (s : String)
        → str_eq cluster.spec.vtep_cidr "" ≡ true
        → (allocate_vtep_cidr a cluster w).0 ≡ ok s
        → IsSubnet s
    allocate_vtep_cidr-IsSubnet s z h = elim (Result-cases listing.0) [
      | inr (e, l) ↦ absurd (unlisted e s z l h)
      | inl (us, l) ↦
          let allocated = collect_cidrs a.converter us in
          let (pool, supports, scan) = supported allocated s (listed_ok us s z l h) in
          let (i, e, b, k) =
            of_walk allocated pool 256 0 (scan_cidrs allocated pool 256 0) s
              (scan_cidrs-WalkResult allocated pool 256 0) scan in
          record {
            us = us;
            pool = pool;
            i = i;
            listed = l;
            supports = supports;
            bound = omega arith;
            text = e;
            is_first = k;
            unused = λ c m n same. cc (
              is_taken-collect_cidrs a.converter c us m n,
              ap (λ x. is_taken x allocated) (same ∙ e),
              k.free,
            );
          }
    ]

-- The /16 network number `i` lies in the /8 network.
contains-subnet :
    (base : Quad) (i : ℕ)
    → IsQuad base
    → i ≤ 255
    → contains base 8 (record { a = base.a; b = i; c = 0; d = 0 }) ≡ true
unfolding contains
contains-subnet base i h k =
    (==_iff (number base / 2 ^ 24) ((((base.a * 256 + i) * 256 + 0) * 256 + 0) / 2 ^ 24)).1
      (omega (arith, h.a_fits, h.b_fits, h.c_fits, h.d_fits))

passes :
    (parse_v6 : String → String → Option V6) (s : String) (p : Pools) (ip base : Quad) (n : ℕ)
    → parse_cidr parse_v6 s ≡ some (v4 ip 16)
    → p.vtep_prefix_len ≡ pos 16
    → parse_cidr parse_v6 p.vtep_pool_cidr ≡ some (v4 base n)
    → contains base n ip ≡ true
    → validate_vtep_cidr parse_v6 s (some p) ≡ ok tt
unfolding validate_vtep_cidr within_pool
passes parse_v6 s p ip base n e f g h = ground arith

-- What AllocateVtepCIDR gives to a cluster without a subnet, out of an IPv4 pool: a network that the
-- code reads back, inside the pool.
pub record IsNetwork {W : Type 0} (a : VtepAllocator W) (cluster : Cluster) (w : W) (base : Quad)
    (n : ℕ) (s : String) : Type 0 where
  pub eight : n ≡ 8
  pub sixteen : a.pools.vtep_prefix_len ≡ pos 16
  pub number : ℕ
  pub bound : number < 256
  pub reads :
      parse_cidr a.parse_v6 s ≡ some (v4 (record { a = base.a; b = number; c = 0; d = 0 }) 16)
  pub inside : contains base n (record { a = base.a; b = number; c = 0; d = 0 }) ≡ true
  pub first : IsSubnet a cluster w s

-- With an IPv4 pool, which is then a /8 network, the text that AllocateVtepCIDR gives to a cluster
-- without a subnet is that of a /16 network inside the pool, and of the pool's /16 networks the
-- first one whose text no listed cluster carries.
pub allocate_vtep_cidr-IsNetwork :
    {W : Type 0} (a : VtepAllocator W) (cluster : Cluster) (w : W) (base : Quad) (n : ℕ)
    (s : String)
    → pool_of a ≡ some (v4 base n)
    → str_eq cluster.spec.vtep_cidr "" ≡ true
    → (allocate_vtep_cidr a cluster w).0 ≡ ok s
    → IsNetwork a cluster w base n s
unfolding subnet_text
allocate_vtep_cidr-IsNetwork a cluster w base n s v z h =
    let k = allocate_vtep_cidr-IsSubnet a cluster w s z h in
    let same : k.pool ≡ v4 base n = some_inj (sym k.supports.parses ∙ v) in
    let eight : n ≡ 8 = sym (ap ones same) ∙ k.supports.eight in
    let ip : Quad = record { a = base.a; b = k.i; c = 0; d = 0 } in
    let fits = parse_cidr-IsQuad a.parse_v6 a.pools.vtep_pool_cidr base n v in
    let ip_fits : IsQuad ip = record {
      a_fits = fits.a_fits;
      b_fits = omega (arith, k.bound);
      c_fits = omega arith;
      d_fits = omega arith;
    } in
    record {
      eight = eight;
      sixteen = k.supports.sixteen;
      number = k.i;
      bound = k.bound;
      reads =
          ap (parse_cidr a.parse_v6) (k.text ∙ ap (λ c. subnet_text c k.i) same)
          ∙ parse_cidr-print_cidr ip ip_fits a.parse_v6 16 (omega arith);
      inside =
          subst (λ m. contains base m ip ≡ true) (sym eight)
            (contains-subnet base k.i fits (omega (arith, k.bound)));
      first = k;
    }

-- With an IPv4 pool, a subnet that AllocateVtepCIDR gives to a cluster without one passes
-- ValidateVtepCIDR for the same pool.
pub validate_vtep_cidr-allocate :
    {W : Type 0} (a : VtepAllocator W) (cluster : Cluster) (w : W) (base : Quad) (n : ℕ)
    (s : String)
    → pool_of a ≡ some (v4 base n)
    → str_eq cluster.spec.vtep_cidr "" ≡ true
    → (allocate_vtep_cidr a cluster w).0 ≡ ok s
    → validate_vtep_cidr a.parse_v6 s (some a.pools) ≡ ok tt
validate_vtep_cidr-allocate a cluster w base n s v z h =
    let k = allocate_vtep_cidr-IsNetwork a cluster w base n s v z h in
    passes a.parse_v6 s a.pools (record { a = base.a; b = k.number; c = 0; d = 0 }) base n k.reads
      k.sixteen v k.inside
