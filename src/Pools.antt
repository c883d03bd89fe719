-- ===== src/Pools.antt =====
-- The broker's pools of AS numbers, VTEP subnets and VNIs: pkg/operator/alloc/poolconfig.go, and
-- ValidateASN of pkg/operator/alloc/validate.go.
pub mod Valid
use mcn.Prelude.{
  ℕ, String, Bool, true, false, Option, none, some, List, [], ◌∷◌, ◌||◌, str_append, str_eq, ltb,
  if◌then◌else◌,
}
use mcn.Prelude.Int.{ℤ, pos, ltb_ℤ}
use mcn.Prelude.Decimal.{print_nat}
use mcn.Prelude.Numerals.{trim_space, parse_int, parse_uint, print_int}
use mcn.Kube.{Result, ok, err, Error, message, wrap, and_then, refuse_if, is_not_found, Exec}

abbrev pub broker_pools_config_map : String
broker_pools_config_map = "skynet-broker-pools"

-- int32, int and uint32 fields.
pub record Pools : Type 0 where
  pub asn_min : ℤ
  pub asn_max : ℤ
  pub vtep_pool_cidr : String
  pub vtep_prefix_len : ℤ
  pub vni_min : ℕ
  pub vni_max : ℕ
  pub route_target_asn : ℕ

abbrev pub default_pools : Pools
default_pools = record {
  asn_min = pos 64512;
  asn_max = pos 65534;
  vtep_pool_cidr = "100.0.0.0/8";
  vtep_prefix_len = pos 16;
  vni_min = 5000;
  vni_max = 10000;
  route_target_asn = 65000;
}

-- data[key], "" for a missing key. A nil map is the empty one.
unfoldable pub value_of : String → List (String × String) → String
value_of key [] = ""
value_of key ((k, v) ∷ entries) =
    let rest = value_of key entries in if str_eq k key then v else rest

-- strconv's error, whose text nothing reads.
abbrev number_error : Error
number_error = message "strconv: not a number of this type"

abbrev parsed : {A : Type 0} → String → Option A → Result A
parsed key none = err (wrap (str_append "parse " key) number_error)
parsed key (some a) = ok a

-- One setting: the default if the trimmed text is empty, otherwise the number that it is.
unfoldable pub setting :
    {A : Type 0} → (String → Option A) → String → A → List (String × String) → Result A
unfolding value_of
setting parse key default entries =
    let v = trim_space (value_of key entries) in
    if str_eq v "" then ok default else parsed key (parse v)

unfoldable pub text_setting : String → String → List (String × String) → String
unfolding value_of
text_setting key default entries =
    let v = trim_space (value_of key entries) in if str_eq v "" then default else v

-- The tests at the end of poolsFromConfigMapData.
unfoldable pub checked : Pools → Result Pools
checked p =
    if ltb_ℤ p.asn_max p.asn_min
    then err (
        message (
          str_append "invalid ASN range: asnMin "
            (str_append (print_int p.asn_min) (str_append " > asnMax " (print_int p.asn_max)))))
    else if ltb_ℤ p.vtep_prefix_len (pos 8) || ltb_ℤ (pos 30) p.vtep_prefix_len
    then err (message (str_append "invalid vtepPrefixLen: " (print_int p.vtep_prefix_len)))
    else if ltb p.vni_max p.vni_min
    then err (
        message (
          str_append "invalid VNI range: vniMin "
            (str_append (print_nat p.vni_min) (str_append " > vniMax " (print_nat p.vni_max)))))
    else ok p

unfoldable pub pools_from_config_map_data : List (String × String) → Result Pools
pools_from_config_map_data entries =
    let d = default_pools in
    and_then (setting (parse_int 32) "asnMin" d.asn_min entries) (λ asn_min.
      and_then (setting (parse_int 32) "asnMax" d.asn_max entries) (λ asn_max.
        and_then (setting (parse_int 64) "vtepPrefixLen" d.vtep_prefix_len entries) (λ prefix.
          and_then (setting (parse_uint 32) "vniMin" d.vni_min entries) (λ vni_min.
            and_then (setting (parse_uint 32) "vniMax" d.vni_max entries) (λ vni_max.
              and_then (setting (parse_uint 32) "routeTargetASN" d.route_target_asn entries) (λ rt.
                checked (record {
                  asn_min = asn_min;
                  asn_max = asn_max;
                  vtep_pool_cidr = text_setting "vtepPoolCIDR" d.vtep_pool_cidr entries;
                  vtep_prefix_len = prefix;
                  vni_min = vni_min;
                  vni_max = vni_max;
                  route_target_asn = rt;
                })))))))

-- `get_config_map name` is the data of the ConfigMap on the broker.
unfoldable pub load_pools_from_config_map :
    {W : Type 0} → (String → Exec W (List (String × String))) → Exec W Pools
load_pools_from_config_map get_config_map w =
    let (found, w') = get_config_map broker_pools_config_map w in
    elim found [
      | ok entries ↦ (pools_from_config_map_data entries, w')
      | err e ↦
          if is_not_found e
          then (ok default_pools, w')
          else (err (wrap "get broker pools ConfigMap" e), w')
    ]

-- The VNI fields stay 0, as they are unset in the Go struct.
unfoldable pub pools_from_values : ℤ → ℤ → String → ℤ → Result Pools
pools_from_values asn_min asn_max vtep_pool vtep_prefix =
    if ltb_ℤ asn_max asn_min
    then err (
        message (
          str_append "invalid ASN range: min "
            (str_append (print_int asn_min) (str_append " > max " (print_int asn_max)))))
    else if str_eq vtep_pool ""
    then err (message "vtep pool CIDR is empty")
    else if ltb_ℤ vtep_prefix (pos 8) || ltb_ℤ (pos 30) vtep_prefix
    then err (message (str_append "invalid vtep prefix length: " (print_int vtep_prefix)))
    else ok (record {
      asn_min = asn_min;
      asn_max = asn_max;
      vtep_pool_cidr = vtep_pool;
      vtep_prefix_len = vtep_prefix;
      vni_min = 0;
      vni_max = 0;
      route_target_asn = 0;
    })

-- `if p == nil { p = DefaultPools() }`
abbrev pub or_default : Option Pools → Pools
or_default none = default_pools
or_default (some p) = p

unfoldable pub validate_asn : ℤ → Option Pools → Result (Unit {0})
validate_asn asn pools =
    let p = or_default pools in
    refuse_if (ltb_ℤ asn p.asn_min || ltb_ℤ p.asn_max asn) (
      message (
        str_append "ASN " (
          str_append (print_int asn) (
            str_append " is not in range [" (
              str_append (print_int p.asn_min)
                (str_append "-" (str_append (print_int p.asn_max) "]")))))))
