-- ===== src/Asn/Allocate.antt =====
-- What AllocateASN returns, by what the broker lists.
use mcn.Prelude.{◌-◌, ◌≡◌, ◌≢◌, ap, ◌∙◌, ◌⊎◌, inl, inr, true, false, some, List, [], ◌∷◌, arith}
use mcn.Prelude.Int.{ℤ, pos, ◌≤ℤ◌, eqb_ℤ, eqb_ℤ_refl, max_int32, IsInt32}
use mcn.Kube.{Result, ok, err, Value, Converter}
use mcn.Crd.{Cluster, cluster_gvr}
use mcn.Pools.{Pools, validate_asn}
use mcn.Asn.{
  AsnAllocator, collect_asns, is_allocated, no_available_asn, find_next_asn, get_allocated_asns,
  allocate_asn,
}
use mcn.Asn.Least.{IsLeastAsn, ScanResult, find_next_asn-ScanResult}

-- Some listed object converts to the cluster `c`.
abbrev pub IsListed : Converter Cluster → Cluster → List Value → Type 0
IsListed conv c [] = ⊥
IsListed conv c (u ∷ us) = (conv.from_unstructured u ≡ ok c) ⊎ IsListed conv c us

is_allocated-collect_asns :
    (conv : Converter Cluster) (c : Cluster) (us : List Value)
    → IsListed conv c us
    → eqb_ℤ c.spec.asn (pos 0) ≡ false
    → is_allocated c.spec.asn (collect_asns conv us) ≡ true
unfolding is_allocated collect_asns
is_allocated-collect_asns conv c [] h k = elim h [ ]
is_allocated-collect_asns conv c (u ∷ us) (inl e) k = ground (arith, eqb_ℤ_refl c.spec.asn)
is_allocated-collect_asns conv c (u ∷ us) (inr h) k =
    ground (arith, is_allocated-collect_asns conv c us h k)

validate_asn-in_range :
    (v : ℤ) (p : Pools) → p.asn_min ≤ℤ v → v ≤ℤ p.asn_max → validate_asn v (some p) ≡ ok tt
unfolding validate_asn
validate_asn-in_range v p a b = ground arith

module _ {W : Type 0} (a : AsnAllocator W) (cluster : Cluster) (w : W) where
  abbrev pub listing : Result (List Value) × W
  listing = (a.broker_client.at cluster_gvr a.broker_ns).list "" w

  -- `v` passes the validation, and no listed cluster with an AS number carries it.
  pub record IsFreshAsn (us : List Value) (v : ℤ) : Type 0 where
    pub valid : validate_asn v (some a.pools) ≡ ok tt
    pub unused :
        (c : Cluster)
        → IsListed a.converter c us
        → eqb_ℤ c.spec.asn (pos 0) ≡ false
        → c.spec.asn ≢ v

  allocates :
      (us : List Value) (r : Result ℤ)
      → eqb_ℤ cluster.spec.asn (pos 0) ≡ true
      → listing.0 ≡ ok us
      → find_next_asn (collect_asns a.converter us) a.pools ≡ some r
      → allocate_asn a cluster w ≡ some (r, listing.1)
  unfolding allocate_asn get_allocated_asns
  allocates us r z l f = ground arith

  fresh_of_least :
      (us : List Value) (v : ℤ)
      → IsLeastAsn (collect_asns a.converter us) a.pools.asn_min a.pools.asn_max v
      → IsFreshAsn us v
  fresh_of_least us v h = record {
    valid = validate_asn-in_range v a.pools h.above h.below;
    unused = λ c l n e. cc (
      is_allocated-collect_asns a.converter c us l n,
      ap (λ x. is_allocated x (collect_asns a.converter us)) e,
      h.free,
    );
  }

  -- How an allocation ends, given the broker's listing.
  abbrev pub Allocation : List Value → Type 0
  Allocation us =
      ((v : ℤ) × (allocate_asn a cluster w ≡ some (ok v, listing.1)) × IsFreshAsn us v)
      ⊎ ((allocate_asn a cluster w ≡ some (err no_available_asn, listing.1))
          × ((u : ℤ)
              → a.pools.asn_min ≤ℤ u
              → u ≤ℤ a.pools.asn_max
              → is_allocated u (collect_asns a.converter us) ≡ true))

  Allocation-scanned :
      (us : List Value) (r : Result ℤ)
      → allocate_asn a cluster w ≡ some (r, listing.1)
      → ScanResult (collect_asns a.converter us) a.pools.asn_min a.pools.asn_max r
      → Allocation us
  Allocation-scanned us (ok v) run h = inl (v, run, fresh_of_least us v h)
  Allocation-scanned us (err e) run (h, b) = inr (run ∙ ap (λ x. some (err x, listing.1)) h, b)

  -- For a cluster without an AS number and a pool whose upper bound is below the largest int32,
  -- AllocateASN ends once the broker has listed its clusters: with a number that passes ValidateASN
  -- and that no listed cluster carries, or with the error, and then every number of the pool is
  -- taken.
  pub allocate_asn-Allocation :
      (us : List Value)
      → eqb_ℤ cluster.spec.asn (pos 0) ≡ true
      → IsInt32 a.pools.asn_min
      → a.pools.asn_max ≤ℤ pos (max_int32 - 1)
      → listing.0 ≡ ok us
      → Allocation us
  allocate_asn-Allocation us z fits top l =
      let (r, f, k) = find_next_asn-ScanResult (collect_asns a.converter us) a.pools fits top in
      Allocation-scanned us r (allocates us r z l f) k
