-- ===== src/Endpoint.antt =====
-- The report of a cluster's endpoints: pkg/agent/endpoint/endpoint_reporter.go.
pub mod First
pub mod Ready
use mcn.Prelude.{
  ℕ, String, Bool, true, false, not, Option, none, some, List, ◌&&◌, ◌||◌, length, take, min,
  str_eq, str_append, leb, ltb, ◌==◌, if◌then◌else◌,
}
use mcn.Prelude.Int.{ℤ, pos, negsuc}
use mcn.Prelude.Numerals.{trim_space}
use mcn.Kube.{Result, ok, err, Error, message, Exec, attempt, wrapping, pure, ◌>>=◌, ◌>>◌}
use mcn.Crd.{NodeEndpoint}
use Prim.Native.Char.{Char, code}
use Prim.Native.String.{[] as empty, ◌∷◌ as cons_char}
use mathlib.Core.List.{[], ◌∷◌, ◌++◌}

-- corev1.Node, the fields that the code reads or writes: conditions as type and status, addresses
-- as type and address.
pub record Node : Type 0 where
  pub name : String
  pub labels : List (String × String)
  pub conditions : List (String × String)
  pub addresses : List (String × String)

-- The calls on nodes.
pub record NodeClient (W : Type 0) : Type 0 where
  pub list : Exec W (List Node)
  pub get : String → Exec W Node
  pub update : Node → Exec W Node

pub record EndpointReporter (W : Type 0) : Type 0 where
  pub k8s_client : NodeClient W
  pub cluster_id : String
  pub route_reflector_sel : String

pub record ReporterConfig (W : Type 0) : Type 0 where
  pub k8s_client : Option (NodeClient W)
  pub cluster_id : String
  pub route_reflector_selector : String

unfoldable pub new_endpoint_reporter : {W : Type 0} → ReporterConfig W → Result (EndpointReporter W)
new_endpoint_reporter c = elim c.k8s_client [
  | none ↦ err (message "k8sClient is required")
  | some client ↦
      if str_eq c.cluster_id ""
      then err (message "clusterID is required")
      else ok (record {
        k8s_client = client;
        cluster_id = c.cluster_id;
        route_reflector_sel = c.route_reflector_selector;
      })
]

-- The first entry under the key says.
unfoldable pub first_of : String → List (String × String) → Option String
first_of key [] = none
first_of key ((k, v) ∷ rest) =
    let later = first_of key rest in if str_eq k key then some v else later

unfoldable pub is_node_ready : Node → Bool
unfolding first_of
is_node_ready node = elim (first_of "Ready" node.conditions) [
  | none ↦ false
  | some status ↦ str_eq status "True"
]

unfoldable pub get_node_internal_ip : Node → String
unfolding first_of
get_node_internal_ip node = elim (first_of "InternalIP" node.addresses) [
  | none ↦ ""
  | some address ↦ address
]

abbrev add_char : Char → List String → List String
add_char c [] = cons_char c empty ∷ []
add_char c (s ∷ ss) = cons_char c s ∷ ss

-- strings.Split by one character.
unfoldable pub split : ℕ → String → List String
split sep empty = empty ∷ []
split sep (cons_char c s) =
    let rest = split sep s in if code c == sep then empty ∷ rest else add_char c rest

-- One selector `key=value`; whatever has not two parts matches nothing.
abbrev matches_parts : Node → List String → Bool
matches_parts node (key ∷ (value ∷ [])) = elim (first_of (trim_space key) node.labels) [
  | none ↦ false
  | some v ↦ str_eq v (trim_space value)
]
matches_parts node _ = false

unfoldable pub matches_some : Node → List String → Bool
unfolding split first_of
matches_some node [] = false
matches_some node (sel ∷ sels) =
    matches_parts node (split 61 (trim_space sel)) || matches_some node sels

unfoldable pub ready_names : List Node → List String
unfolding is_node_ready
ready_names [] = []
ready_names (node ∷ nodes) =
    let rest = ready_names nodes in if is_node_ready node then node.name ∷ rest else rest

-- node.Labels[key] = value
unfoldable pub set_label : String → String → List (String × String) → List (String × String)
set_label key value [] = (key, value) ∷ []
set_label key value ((k, v) ∷ rest) =
    let later = set_label key value rest in
    if str_eq k key then (key, value) ∷ rest else (k, v) ∷ later

module _ {W : Type 0} (r : EndpointReporter W) where
  unfoldable pub is_route_reflector : Node → Bool
  unfolding matches_some split
  is_route_reflector node =
      if str_eq r.route_reflector_sel ""
      then false
      else matches_some node (split 44 r.route_reflector_sel)

  -- VTEP addresses are not reported yet.
  unfoldable pub endpoint_of : Node → NodeEndpoint
  unfolding is_route_reflector get_node_internal_ip
  endpoint_of node = record {
    node = node.name;
    bgp_peer_ip = get_node_internal_ip node;
    vtep_ips = [];
    route_reflector = is_route_reflector node;
  }

  -- The loop of CollectEndpoints.
  unfoldable pub endpoints_of : List Node → List NodeEndpoint
  unfolding is_node_ready get_node_internal_ip endpoint_of
  endpoints_of [] = []
  endpoints_of (node ∷ nodes) =
      let rest = endpoints_of nodes in
      if not (is_node_ready node)
      then rest
      else if str_eq (get_node_internal_ip node) ""
      then rest
      else endpoint_of node ∷ rest

  unfoldable pub collect_endpoints : Exec W (List NodeEndpoint)
  collect_endpoints = do
    nodes ← wrapping "failed to list nodes" r.k8s_client.list
    pure (endpoints_of nodes)

  abbrev select_from : ℕ → Exec W (List String)
  select_from count = do
    nodes ← wrapping "failed to list nodes" r.k8s_client.list
    let names = ready_names nodes
    pure (take (if ltb (length names) count then length names else count) names)

  unfoldable pub select_route_reflectors : ℤ → Exec W (List String)
  select_route_reflectors (negsuc n) = pure []
  select_route_reflectors (pos n) = if n == 0 then pure [] else select_from n

  -- A node that cannot be read or written is skipped.
  unfoldable pub label_route_reflectors : List String → Exec W (Unit {0})
  unfolding set_label
  label_route_reflectors [] = pure tt
  label_route_reflectors (name ∷ names) = do
    found ← attempt (r.k8s_client.get name)
    elim found [
      | err e ↦ label_route_reflectors names
      | ok node ↦ do
        attempt (
            r.k8s_client.update
              (record node { labels = set_label "skynet.io/route-reflector" "true" node.labels }))
        label_route_reflectors names
    ]
