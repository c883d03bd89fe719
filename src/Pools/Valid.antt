-- ===== src/Pools/Valid.antt =====
-- The pools that the code accepts: non-empty ranges of values that fit their machine types.
use mcn.Prelude.{
  String, Option, some, List, ◌≤◌, ◌<◌, ◌^◌, ◌≡◌, arith, str_eq, Bool-cases, Option-cases, inl, inr,
}
use mathlib.Core.Path.{subst}
use mcn.Prelude.Int.{pos, ◌≤ℤ◌, IsInt32}
use mcn.Prelude.Numerals.{trim_space, parse_int, parse_uint, parse_int-IsInt32, parse_uint-bound}
use mcn.Kube.{Result, ok, err, Error, and_then-eq-ok, Exec, Result-cases}
use mcn.Pools.{
  Pools, default_pools, value_of, setting, checked, pools_from_config_map_data,
  load_pools_from_config_map,
}

pub record IsValid (p : Pools) : Type 0 where
  pub asn_range : p.asn_min ≤ℤ p.asn_max
  pub asn_min_fits : IsInt32 p.asn_min
  pub asn_max_fits : IsInt32 p.asn_max
  pub prefix_range : (pos 8 ≤ℤ p.vtep_prefix_len) × (p.vtep_prefix_len ≤ℤ pos 30)
  pub vni_range : p.vni_min ≤ p.vni_max
  pub vni_max_fits : p.vni_max < 2 ^ 32
  pub route_target_asn_fits : p.route_target_asn < 2 ^ 32

-- A setting is the default or what its text reads as.
setting-ok :
    {A : Type 0} (P : A → Type 0) (parse : String → Option A) (key : String) (default a : A)
    (entries : List (String × String))
    → P default
    → ((s : String) (b : A) → parse s ≡ some b → P b)
    → setting parse key default entries ≡ ok a
    → P a
unfolding setting
setting-ok P parse key default a entries d k h =
    elim (Bool-cases (str_eq (trim_space (value_of key entries)) "")) [
      | inl unset ↦ subst P (ground arith) d
      | inr set ↦ elim (Option-cases (parse (trim_space (value_of key entries)))) [
        | inl bad ↦ absurd (ground arith)
        | inr (b, good) ↦ k (trim_space (value_of key entries)) a (ground arith)
      ]
    ]

checked-same : (p q : Pools) → checked p ≡ ok q → p ≡ q
unfolding checked
checked-same p q h = ground arith

checked-ranges :
    (p q : Pools)
    → checked p ≡ ok q
    → (p.asn_min ≤ℤ p.asn_max)
      × ((pos 8 ≤ℤ p.vtep_prefix_len) × (p.vtep_prefix_len ≤ℤ pos 30))
      × (p.vni_min ≤ p.vni_max)
unfolding checked
checked-ranges p q h = (ground arith, (ground arith, ground arith), ground arith)

-- Pools read from a ConfigMap are valid, whatever its data are.
pub pools_from_config_map_data-IsValid :
    (entries : List (String × String)) (p : Pools)
    → pools_from_config_map_data entries ≡ ok p
    → IsValid p
unfolding pools_from_config_map_data
pools_from_config_map_data-IsValid entries p h0 =
    let d = default_pools in
    let (a, e1, h1) = and_then-eq-ok (setting (parse_int 32) "asnMin" d.asn_min entries) _ h0 in
    let (b, e2, h2) = and_then-eq-ok (setting (parse_int 32) "asnMax" d.asn_max entries) _ h1 in
    let (c, e3, h3) =
      and_then-eq-ok (setting (parse_int 64) "vtepPrefixLen" d.vtep_prefix_len entries) _ h2 in
    let (l, e4, h4) = and_then-eq-ok (setting (parse_uint 32) "vniMin" d.vni_min entries) _ h3 in
    let (u, e5, h5) = and_then-eq-ok (setting (parse_uint 32) "vniMax" d.vni_max entries) _ h4 in
    let (t, e6, h6) =
      and_then-eq-ok (setting (parse_uint 32) "routeTargetASN" d.route_target_asn entries) _ h5 in
    let (asns, prefix, vnis) = checked-ranges _ p h6 in
    subst IsValid (checked-same _ p h6) (record {
      asn_range = asns;
      asn_min_fits =
          setting-ok IsInt32 (parse_int 32) "asnMin" d.asn_min a entries (ground arith)
            parse_int-IsInt32 e1;
      asn_max_fits =
          setting-ok IsInt32 (parse_int 32) "asnMax" d.asn_max b entries (ground arith)
            parse_int-IsInt32 e2;
      prefix_range = prefix;
      vni_range = vnis;
      vni_max_fits =
          setting-ok (λ n. n < 2 ^ 32) (parse_uint 32) "vniMax" d.vni_max u entries (omega arith)
            parse_uint-bound e5;
      route_target_asn_fits =
          setting-ok (λ n. n < 2 ^ 32) (parse_uint 32) "routeTargetASN" d.route_target_asn t entries
            (omega arith) parse_uint-bound e6;
    })

default_pools-IsValid : IsValid default_pools
default_pools-IsValid = record {
  asn_range = omega arith;
  asn_min_fits = (omega arith, omega arith);
  asn_max_fits = (omega arith, omega arith);
  prefix_range = (omega arith, omega arith);
  vni_range = omega arith;
  vni_max_fits = omega arith;
  route_target_asn_fits = omega arith;
}

module _ {W : Type 0} (get_config_map : String → Exec W (List (String × String))) (w : W) where
  abbrev found : Result (List (String × String))
  found = (get_config_map "skynet-broker-pools" w).0

  loaded :
      (entries : List (String × String)) (p : Pools)
      → found ≡ ok entries
      → (load_pools_from_config_map get_config_map w).0 ≡ ok p
      → pools_from_config_map_data entries ≡ ok p
  unfolding load_pools_from_config_map
  loaded entries p f h = ground arith

  absent :
      (e : Error) (p : Pools)
      → found ≡ err e
      → (load_pools_from_config_map get_config_map w).0 ≡ ok p
      → default_pools ≡ p
  unfolding load_pools_from_config_map
  absent e p f h = ground arith

  -- The pools that LoadPoolsFromConfigMap returns are valid: no range is empty, the prefix length
  -- is one of 8..30, and the numbers fit their types. This holds for whatever the ConfigMap says
  -- and for a ConfigMap that is missing.
  pub load_pools_from_config_map-IsValid :
      (p : Pools) → (load_pools_from_config_map get_config_map w).0 ≡ ok p → IsValid p
  load_pools_from_config_map-IsValid p h = elim (Result-cases found) [
    | inl (entries, f) ↦ pools_from_config_map_data-IsValid entries p (loaded entries p f h)
    | inr (e, f) ↦ subst IsValid (absent e p f h) default_pools-IsValid
  ]
