-- ===== src/VtepPool.antt =====
-- The allocator of VTEP subnets: pkg/operator/alloc/vtep.go, and ValidateVtepCIDR of
-- pkg/operator/alloc/validate.go.
pub mod Walk
pub mod Allocate
use mcn.Prelude.{
  ℕ, zero, suc, ◌+◌, ◌-◌, String, Bool, true, false, not, Option, none, some, List, [], ◌∷◌, ◌&&◌,
  ◌||◌, str_append, str_eq, ◌==◌, if◌then◌else◌,
}
use mcn.Prelude.Int.{ℤ, pos, eqb_ℤ}
use mcn.Prelude.Decimal.{print_nat}
use mcn.Prelude.Numerals.{print_int}
use mcn.Cidr.{V6, Quad, Cidr, v4, v6, parse_cidr, contains, print_cidr}
use mcn.Kube.{
  Result, ok, err, Error, message, wrap, wrap_err, Exec, lift, pure, wrapping, ◌>>=◌, Value,
  Converter, DynamicClient,
}
use mcn.Crd.{Cluster, cluster_gvr}
use mcn.Pools.{Pools, or_default}

-- `parse_v6` is net.ParseCIDR on IPv6 texts.
pub record VtepAllocator (W : Type 0) : Type 0 where
  pub broker_client : DynamicClient W
  pub broker_ns : String
  pub cluster_id : String
  pub pools : Pools
  pub converter : Converter Cluster
  pub parse_v6 : String → String → Option V6

unfoldable pub new_vtep_allocator :
    {W : Type 0}
    → DynamicClient W
    → String
    → String
    → Option Pools
    → Converter Cluster
    → (String → String → Option V6)
    → VtepAllocator W
new_vtep_allocator client ns id pools conv parse_v6 = record {
  broker_client = client;
  broker_ns = ns;
  cluster_id = id;
  pools = or_default pools;
  converter = conv;
  parse_v6 = parse_v6;
}

-- net's error on a text that is no CIDR, whose text nothing reads.
abbrev pub cidr_error : Error
cidr_error = message "invalid CIDR address"

-- The loop of getAllocatedVtepCIDRs.
unfoldable pub collect_cidrs : Converter Cluster → List Value → List String
collect_cidrs conv [] = []
collect_cidrs conv (u ∷ us) =
    let rest = collect_cidrs conv us in
    elim (conv.from_unstructured u) [
      | ok cluster ↦
          if not (str_eq cluster.spec.vtep_cidr "") then cluster.spec.vtep_cidr ∷ rest else rest
      | err e ↦ rest
    ]

-- allocatedNets[cidr]
unfoldable pub is_taken : String → List String → Bool
is_taken cidr [] = false
is_taken cidr (x ∷ xs) = str_eq x cidr || is_taken cidr xs

abbrev pub no_available_cidr : Error
no_available_cidr = message "no available VTEP CIDR in pool"

-- The /16 network number `i` of the /8 network at `base`, as IPNet.String writes it. The address of
-- an IPv6 pool with an IPv4 mask is no network, and is written "<nil>".
unfoldable pub subnet_text : Cidr → ℕ → String
subnet_text (v4 base n) i = print_cidr (record { a = base.a; b = i; c = 0; d = 0 }) 16
subnet_text (v6 n m) i = "<nil>"

-- The loop of findNextAvailableCIDR, by the rounds that are left.
unfoldable pub scan_cidrs : List String → Cidr → ℕ → ℕ → Result String
unfolding is_taken subnet_text
scan_cidrs allocated pool zero i = err no_available_cidr
scan_cidrs allocated pool (suc rounds) i =
    let rest = scan_cidrs allocated pool rounds (i + 1) in
    if not (is_taken (subnet_text pool i) allocated) then ok (subnet_text pool i) else rest

abbrev pub ones : Cidr → ℕ
ones (v4 q n) = n
ones (v6 n m) = n

module _ {W : Type 0} (a : VtepAllocator W) where
  unfoldable pub get_allocated_vtep_cidrs : Exec W (List String)
  get_allocated_vtep_cidrs = do
    items ←
        wrapping "failed to list Clusters from broker"
          ((a.broker_client.at cluster_gvr a.broker_ns).list "")
    pure (collect_cidrs a.converter items)

  unfoldable pub find_next_available_cidr : List String → Result String
  find_next_available_cidr allocated = elim (parse_cidr a.parse_v6 a.pools.vtep_pool_cidr) [
    | none ↦ err (wrap "failed to parse VTEP pool CIDR" cidr_error)
    | some pool ↦
        if not (ones pool == 8) || not (eqb_ℤ a.pools.vtep_prefix_len (pos 16))
        then err (
            message (
              str_append "VTEP allocator supports /8 pool with /16 subnets only (got pool /" (
                str_append (print_nat (ones pool))
                  (str_append ", prefix /" (str_append (print_int a.pools.vtep_prefix_len) ")")))))
        else scan_cidrs allocated pool 256 0
  ]

  unfoldable pub allocate_vtep_cidr : Cluster → Exec W String
  unfolding get_allocated_vtep_cidrs
  allocate_vtep_cidr cluster =
      if not (str_eq cluster.spec.vtep_cidr "") then pure cluster.spec.vtep_cidr else do
        allocated ← wrapping "failed to get allocated VTEP CIDRs" get_allocated_vtep_cidrs
        lift (wrap_err "failed to find available VTEP CIDR" (find_next_available_cidr allocated))

-- The end of ValidateVtepCIDR: the address lies in the pool. An IPv6 pool has IPv4 addresses if its
-- own address is IPv4-mapped, as 96 leading bits of it say.
unfoldable pub within_pool : Option Cidr → Quad → String → Pools → Result (Unit {0})
within_pool none ip cidr p = err (wrap "failed to parse VTEP pool CIDR" cidr_error)
within_pool (some pool) ip cidr p =
    let outside : Result (Unit {0}) = err (
      message (
        str_append "VTEP CIDR "
          (str_append cidr (str_append " is not within pool " p.vtep_pool_cidr)))) in
    elim pool [
      | v4 base n ↦ if contains base n ip then ok tt else outside
      | v6 n m ↦ elim m [
        | none ↦ outside
        | some base ↦ if contains base (n - 96) ip then ok tt else outside
      ]
    ]

abbrev pub wrong_length : Pools → ℕ → Error
wrong_length p n = message (
    str_append "VTEP CIDR must be /"
      (str_append (print_int p.vtep_prefix_len) (str_append ", got /" (print_nat n))))

unfoldable pub validate_vtep_cidr :
    (String → String → Option V6) → String → Option Pools → Result (Unit {0})
unfolding within_pool
validate_vtep_cidr parse_v6 cidr pools =
    let p = or_default pools in
    elim (parse_cidr parse_v6 cidr) [
      | none ↦ err (wrap "invalid CIDR format" cidr_error)
      | some network ↦ elim network [
        | v6 n m ↦ err (wrong_length p n)
        | v4 ip n ↦
            if not (eqb_ℤ (pos n) p.vtep_prefix_len)
            then err (wrong_length p n)
            else within_pool (parse_cidr parse_v6 p.vtep_pool_cidr) ip cidr p
      ]
    ]
