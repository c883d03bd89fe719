-- ===== src/Vtep.antt =====
-- The manager of the cluster's VTEP object: pkg/agent/vtep/vtep_manager.go.
pub mod Addresses
pub mod Ensured
use mcn.Prelude.{
  ℕ, ◌+◌, ◌*◌, ◌-◌, ◌/◌, ◌%◌, ◌^◌, String, Option, none, some, List, [], ◌∷◌, str_eq, str_append,
  if◌then◌else◌, not, ◌&&◌,
}
use mcn.Kube.{
  Result, ok, err, Error, message, wrap, is_not_found, Exec, pure, raise, attempt, wrapping, ◌>>=◌,
  ◌>>◌, Value, str, object, slice, text_map, Gvr, Resource, DynamicClient, Machinery,
}
use mcn.Cidr.{V6, Quad, Cidr, v4, v6, number, parse_cidr, print_quad}
use mcn.VtepPool.{cidr_error}

abbrev pub vtep_gvr : Gvr
vtep_gvr = record { group = "k8s.ovn.org"; version = "v1"; resource = "vteps" }

abbrev pub local_vtep_name : String
local_vtep_name = "skynet-local"

abbrev pub vtep_mode_unmanaged : String
vtep_mode_unmanaged = "Unmanaged"

-- `parse_v6` is net.ParseCIDR on an IPv6 text, and `v6_with_last s b` the text of the address of the
-- IPv6 network `s` with `b` for its last byte.
pub record VtepManager (W : Type 0) : Type 0 where
  pub local_client : DynamicClient W
  pub cluster_id : String
  pub vtep_cidr : String
  pub vtep_ip_index : ℕ
  pub machinery : Machinery
  pub parse_v6 : String → String → Option V6
  pub v6_with_last : String → ℕ → String

pub record VtepConfig (W : Type 0) : Type 0 where
  pub local_client : Option (DynamicClient W)
  pub cluster_id : String
  pub vtep_cidr : String

unfoldable pub new_vtep_manager :
    {W : Type 0}
    → Machinery
    → (String → String → Option V6)
    → (String → ℕ → String)
    → VtepConfig W
    → Result (VtepManager W)
new_vtep_manager lib parse_v6 v6_with_last c =
    if str_eq c.cluster_id "" then err (message "clusterID is required") else elim c.local_client [
      | none ↦ err (message "localClient is required")
      | some client ↦
          if str_eq c.vtep_cidr ""
          then err (message "vtepCIDR is required")
          else ok (record {
            local_client = client;
            cluster_id = c.cluster_id;
            vtep_cidr = c.vtep_cidr;
            vtep_ip_index = 1;
            machinery = lib;
            parse_v6 = parse_v6;
            v6_with_last = v6_with_last;
          })
    ]

-- The address of a network of `n` leading bits: the other bits are 0.
abbrev pub mask_number : Quad → ℕ → ℕ
mask_number q n = number q / 2 ^ (32 - n) * 2 ^ (32 - n)

unfoldable pub network_ip : Quad → ℕ → Quad
network_ip q n = record {
  a = mask_number q n / 16777216;
  b = mask_number q n / 65536 % 256;
  c = mask_number q n / 256 % 256;
  d = mask_number q n % 256;
}

-- `ip[len(ip)-1] = byte(index)`
abbrev pub with_last : Quad → ℕ → Quad
with_last q index = record q { d = index % 256 }

module _ {W : Type 0} (m : VtepManager W) where
  abbrev pub vteps : Resource W
  vteps = m.local_client.at vtep_gvr ""

  unfoldable pub local_vtep : Value
  local_vtep = object (
      ("apiVersion", str "k8s.ovn.org/v1")
      ∷ ("kind", str "VTEP")
      ∷ (
        "metadata",
        object (
            ("name", str local_vtep_name)
            ∷ (
              "labels",
              text_map (
                  ("skynet.io/managed-by", "skynet-agent")
                  ∷ ("skynet.io/cluster", m.cluster_id)
                  ∷ []),
            )
            ∷ []),
      )
      ∷ (
        "spec",
        object (("cidrs", slice (str m.vtep_cidr ∷ [])) ∷ ("mode", str vtep_mode_unmanaged) ∷ []),
      )
      ∷ [])

  unfoldable pub ensure_local_vtep : Exec W (Unit {0})
  ensure_local_vtep = do
    existing ← attempt (vteps.get local_vtep_name)
    elim existing [
      | ok u ↦ do
        wrapping "failed to update local VTEP" (
            vteps.update
              (m.machinery.set_resource_version (m.machinery.get_resource_version u) local_vtep))
        pure tt
      | err e ↦
          if is_not_found e
          then wrapping "failed to create local VTEP" (vteps.create local_vtep) >> pure tt
          else raise (wrap "failed to get local VTEP" e)
    ]

  abbrev pub address_text : Cidr → String
  address_text (v4 q n) = print_quad (with_last (network_ip q n) m.vtep_ip_index)
  address_text (v6 n mapped) = m.v6_with_last m.vtep_cidr (m.vtep_ip_index % 256)

  -- Returns the manager with its counter moved on.
  unfoldable pub allocate_vtep_ip : Result String × VtepManager W
  allocate_vtep_ip = elim (parse_cidr m.parse_v6 m.vtep_cidr) [
    | none ↦ (err (wrap (str_append "failed to parse VTEP CIDR " m.vtep_cidr) cidr_error), m)
    | some network ↦ (ok (address_text network), record m { vtep_ip_index = m.vtep_ip_index + 1 })
  ]

  unfoldable pub delete_local_vtep : Exec W (Unit {0})
  delete_local_vtep = do
    deleted ← attempt (vteps.delete local_vtep_name)
    elim deleted [
      | ok _ ↦ pure tt
      | err e ↦
          if not (is_not_found e) then raise (wrap "failed to delete local VTEP" e) else pure tt
    ]
