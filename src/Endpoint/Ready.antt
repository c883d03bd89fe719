-- ===== src/Endpoint/Ready.antt =====
-- Which nodes are reported, and which are selected as route reflectors.
use mcn.Prelude.{
  ℕ, zero, suc, ◌≤◌, ◌≡◌, ◌↔◌, ◌⊎◌, inl, inr, refl, sym, ap, ◌∙◌, String, true, false, List, [],
  ◌∷◌, ◌≢◌, str_ne, ne_str, length, take, min, length-take, str_eq, ltb, ltb→lt, ◌==◌, ==_iff,
  arith, Bool-cases, if◌then◌else◌,
}
use mcn.Prelude.Among.{Among}
use mathlib.Core.Path.{subst}
use mcn.Prelude.Int.{pos}
use mcn.Kube.{ok}
use mcn.Crd.{NodeEndpoint}
use mcn.Endpoint.First.{IsFirst, is_node_ready_iff, get_node_internal_ip_iff}
use mcn.Endpoint.{
  is_route_reflector, Node, EndpointReporter, is_node_ready, get_node_internal_ip, endpoint_of,
  endpoints_of, collect_endpoints, ready_names, select_route_reflectors,
}

-- The node is ready and has an internal address.
abbrev pub IsReported : Node → Type 0
IsReported node = (is_node_ready node ≡ true) × (str_eq (get_node_internal_ip node) "" ≡ false)

module _ {W : Type 0} (r : EndpointReporter W) where
  kept :
      (node : Node) (nodes : List Node)
      → IsReported node
      → endpoints_of r (node ∷ nodes) ≡ endpoint_of r node ∷ endpoints_of r nodes
  unfolding endpoints_of
  kept node nodes (h, k) = ground arith

  dropped :
      (node : Node) (nodes : List Node)
      → (is_node_ready node ≡ false) ⊎ (str_eq (get_node_internal_ip node) "" ≡ true)
      → endpoints_of r (node ∷ nodes) ≡ endpoints_of r nodes
  unfolding endpoints_of
  dropped node nodes h = ground arith

  reported :
      (node : Node)
      → IsReported node
        ⊎ ((is_node_ready node ≡ false) ⊎ (str_eq (get_node_internal_ip node) "" ≡ true))
  reported node = elim (Bool-cases (is_node_ready node)) [
    | inr h ↦ inr (inl h)
    | inl h ↦ elim (Bool-cases (str_eq (get_node_internal_ip node) "")) [
      | inl k ↦ inr (inr k)
      | inr k ↦ inl (h, k)
    ]
  ]

  no_endpoints : endpoints_of r [] ≡ []
  unfolding endpoints_of
  no_endpoints = refl

  found :
      (e : NodeEndpoint) (nodes : List Node)
      → Among e (endpoints_of r nodes)
      → (node : Node) × Among node nodes × IsReported node × (endpoint_of r node ≡ e)
  found e [] h = absurd (subst (Among e) no_endpoints h)
  found e (node ∷ nodes) h = elim (reported node) [
    | inl yes_reported ↦ elim (subst (Among e) (kept node nodes yes_reported) h) [
      | inl same ↦ (node, inl refl, yes_reported, same)
      | inr later ↦ let (n, a, b, c) = found e nodes later in (n, inr a, b, c)
    ]
    | inr no_report ↦
        let (n, a, b, c) = found e nodes (subst (Among e) (dropped node nodes no_report) h) in
        (n, inr a, b, c)
  ]

  put :
      (node : Node) (nodes : List Node)
      → Among node nodes
      → IsReported node
      → Among (endpoint_of r node) (endpoints_of r nodes)
  put node [] h k = elim h [ ]
  put node (n ∷ nodes) (inl same) k =
      let k' : IsReported n = subst IsReported (sym same) k in
      subst (Among (endpoint_of r node)) (sym (kept n nodes k')) (inl (ap (endpoint_of r) same))
  put node (n ∷ nodes) (inr h) k = elim (reported n) [
    | inl yes_reported ↦
        subst (Among (endpoint_of r node)) (sym (kept n nodes yes_reported))
          (inr (put node nodes h k))
    | inr no_report ↦
        subst (Among (endpoint_of r node)) (sym (dropped n nodes no_report)) (put node nodes h k)
  ]

  collected :
      (w : W) (nodes : List Node)
      → (r.k8s_client.list w).0 ≡ ok nodes
      → (collect_endpoints r w).0 ≡ ok (endpoints_of r nodes)
  unfolding collect_endpoints
  collected w nodes h = ground arith

  -- A node that is reported as the endpoint: the first of its conditions of the type Ready has the
  -- status True, and the endpoint has its name and the first of its addresses of the type
  -- InternalIP, which is not empty, no VTEP addresses yet, and whether it is a route reflector.
  pub record IsEndpoint (node : Node) (e : NodeEndpoint) : Type 0 where
    pub ready : IsFirst "Ready" "True" node.conditions
    pub address : IsFirst "InternalIP" e.bgp_peer_ip node.addresses
    pub address_set : e.bgp_peer_ip ≢ ""
    pub name : e.node ≡ node.name
    pub vtep_ips : e.vtep_ips ≡ []
    pub reflector : e.route_reflector ≡ is_route_reflector r node

  of_reported :
      (node : Node) (e : NodeEndpoint)
      → IsReported node
      → endpoint_of r node ≡ e
      → IsEndpoint node e
  unfolding endpoint_of
  of_reported node e (h, k) same = subst (IsEndpoint node) same (record {
    ready = (is_node_ready_iff node).0 h;
    address = (get_node_internal_ip_iff node (get_node_internal_ip node) k).0 refl;
    address_set = str_ne (get_node_internal_ip node) "" k;
    name = refl;
    vtep_ips = refl;
    reflector = refl;
  })

  to_reported :
      (node : Node) (e : NodeEndpoint)
      → IsEndpoint node e
      → IsReported node × (endpoint_of r node ≡ e)
  unfolding endpoint_of
  to_reported node e i =
      let set = ne_str e.bgp_peer_ip "" i.address_set in
      let ip = (get_node_internal_ip_iff node e.bgp_peer_ip set).1 i.address in
      (
        ((is_node_ready_iff node).1 i.ready, ap (λ s. str_eq s "") ip ∙ set),
        λ j. record {
          node = sym i.name j;
          bgp_peer_ip = ip j;
          vtep_ips = sym i.vtep_ips j;
          route_reflector = sym i.reflector j;
        },
      )

  -- Once the nodes are listed, CollectEndpoints succeeds, and reports exactly the endpoints of
  -- the listed nodes that are ready by their first Ready condition and have an internal address, with
  -- the node's name and its first internal address.
  pub collect_endpoints-Among :
      (w : W) (nodes : List Node)
      → (r.k8s_client.list w).0 ≡ ok nodes
      → (es : List NodeEndpoint) × ((collect_endpoints r w).0 ≡ ok es)
        × ((e : NodeEndpoint) → Among e es ↔ ((node : Node) × Among node nodes × IsEndpoint node e))
  collect_endpoints-Among w nodes h = (
    endpoints_of r nodes,
    collected w nodes h,
    λ e. (
      λ k. let (node, a, b, c) = found e nodes k in (node, a, of_reported node e b c),
      λ (node, a, i).
          let (b, c) = to_reported node e i in
          subst (λ x. Among x (endpoints_of r nodes)) c (put node nodes a b),
    ),
  )

  take_all :
      (n : ℕ) (names : List String) → length names ≤ n → take (length names) names ≡ take n names
  take_all zero [] h = refl
  take_all (suc n) [] h = refl
  take_all zero (x ∷ xs) h = absurd (omega arith)
  take_all (suc n) (x ∷ xs) h = ap (λ l. x ∷ l) (take_all n xs (omega arith))

  selected :
      (w : W) (nodes : List Node) (n : ℕ)
      → (r.k8s_client.list w).0 ≡ ok nodes
      → (n == 0) ≡ false
      → (select_route_reflectors r (pos n) w).0
        ≡ ok (
            take
              (if ltb (length (ready_names nodes)) n then length (ready_names nodes) else n)
              (ready_names nodes))
  unfolding select_route_reflectors
  selected w nodes n h k = ground arith

  none_selected :
      (w : W) (n : ℕ) → (n == 0) ≡ true → (select_route_reflectors r (pos n) w).0 ≡ ok []
  unfolding select_route_reflectors
  none_selected w n h = ground arith

  -- Once the nodes are listed, SelectRouteReflectors with a count of 0 or more names the first
  -- ready nodes of the listing, as many as the count says or as there are.
  pub select_route_reflectors-take :
      (w : W) (nodes : List Node) (n : ℕ)
      → (r.k8s_client.list w).0 ≡ ok nodes
      → (names : List String) × ((select_route_reflectors r (pos n) w).0 ≡ ok names)
        × (names ≡ take n (ready_names nodes))
        × (length names ≡ min n (length (ready_names nodes)))
  select_route_reflectors-take w nodes n h =
      let names = take n (ready_names nodes) in
      (
        names,
        elim (Bool-cases (n == 0)) [
          | inl z ↦
              none_selected w n z
              ∙ ap (λ k. ok (take k (ready_names nodes))) (sym ((==_iff n 0).0 z))
          | inr z ↦
              selected w nodes n h z ∙ elim (Bool-cases (ltb (length (ready_names nodes)) n)) [
                | inl few ↦
                    rw few (ap ok (take_all n (ready_names nodes) (ground (arith, ltb→lt _ n few))))
                | inr enough ↦ rw enough refl
              ]
        ],
        refl,
        length-take n (ready_names nodes),
      )
