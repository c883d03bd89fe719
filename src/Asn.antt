-- ===== src/Asn.antt =====
-- The allocator of AS numbers: pkg/operator/alloc/asn.go.
pub mod Least
pub mod Allocate
use mcn.Prelude.{
  ℕ, zero, suc, ◌+◌, ◌^◌, String, Bool, true, false, not, Option, none, some, List, [], ◌∷◌, ◌||◌,
  if◌then◌else◌,
}
use mcn.Prelude.Int.{ℤ, pos, leb_ℤ, eqb_ℤ, suc_int32}
use mcn.Kube.{
  Result, ok, err, Error, message, Exec, wrapping, pure, ◌>>=◌, Value, Converter, DynamicClient,
  wrap,
}
use mcn.Crd.{Cluster, cluster_gvr}
use mcn.Pools.{Pools, or_default}

pub record AsnAllocator (W : Type 0) : Type 0 where
  pub broker_client : DynamicClient W
  pub broker_ns : String
  pub cluster_id : String
  pub pools : Pools
  pub converter : Converter Cluster

unfoldable pub new_asn_allocator :
    {W : Type 0}
    → DynamicClient W
    → String
    → String
    → Option Pools
    → Converter Cluster
    → AsnAllocator W
new_asn_allocator client ns id pools conv = record {
  broker_client = client;
  broker_ns = ns;
  cluster_id = id;
  pools = or_default pools;
  converter = conv;
}

-- The loop of getAllocatedASNs: what does not convert is skipped, and so is an AS number 0.
unfoldable pub collect_asns : Converter Cluster → List Value → List ℤ
collect_asns conv [] = []
collect_asns conv (u ∷ us) =
    let rest = collect_asns conv us in
    elim (conv.from_unstructured u) [
      | ok cluster ↦ if not (eqb_ℤ cluster.spec.asn (pos 0)) then cluster.spec.asn ∷ rest else rest
      | err e ↦ rest
    ]

unfoldable pub get_allocated_asns : {W : Type 0} → AsnAllocator W → Exec W (List ℤ)
get_allocated_asns a = do
  items ←
      wrapping "failed to list Clusters from broker"
        ((a.broker_client.at cluster_gvr a.broker_ns).list "")
  pure (collect_asns a.converter items)

-- allocatedASNs[asn]
unfoldable pub is_allocated : ℤ → List ℤ → Bool
is_allocated asn [] = false
is_allocated asn (x ∷ xs) = eqb_ℤ x asn || is_allocated asn xs

abbrev pub no_available_asn : Error
no_available_asn = message "no available ASN in configured range"

-- The loop of AllocateASN, which counts on an int32, by the rounds it may take; none if it is still
-- running after these.
unfoldable pub scan_asns : List ℤ → ℤ → ℕ → ℤ → Option (Result ℤ)
unfolding is_allocated
scan_asns allocated asn_max zero asn = none
scan_asns allocated asn_max (suc rounds) asn =
    let rest = scan_asns allocated asn_max rounds (suc_int32 asn) in
    if leb_ℤ asn asn_max
    then if not (is_allocated asn allocated) then some (ok asn) else rest
    else some (err no_available_asn)

-- An int32 has 2 ^ 32 values, so a loop that runs longer runs for ever.
unfoldable pub find_next_asn : List ℤ → Pools → Option (Result ℤ)
find_next_asn allocated p = scan_asns allocated p.asn_max (2 ^ 32 + 1) p.asn_min

-- none for a loop that runs for ever.
unfoldable pub allocate_asn : {W : Type 0} → AsnAllocator W → Cluster → W → Option (Result ℤ × W)
allocate_asn a cluster w =
    if not (eqb_ℤ cluster.spec.asn (pos 0))
    then some (ok cluster.spec.asn, w)
    else (let (allocated, w') = get_allocated_asns a w in
        elim allocated [
          | err e ↦ some (err (wrap "failed to get allocated ASNs" e), w')
          | ok asns ↦ elim (find_next_asn asns a.pools) [ none ↦ none | some r ↦ some (r, w') ]
        ])
