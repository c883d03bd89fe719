-- ===== src/Bgp/Written.antt =====
-- What a reconciliation leaves on the server: each local node has the configuration of its mesh.
use mcn.Prelude.{
  ◌⊎◌, ◌≢◌, true, map, if◌then◌else◌, str_append, String, false, Option, some, List, [], ◌∷◌, ◌++◌,
  ◌≡◌, refl, sym, ap, ◌∙◌, str_eq, eq_iff, arith, inl, inr, Bool-cases,
}
use mathlib.Core.Path.{subst}
use text.Mathlib.TextLemmas.{append_cancel_left}
use mcn.Prelude.Among.{Among}
use mcn.Paths.{path}
use mcn.Kube.{str, int, bool, object, slice, ok, err, Error, Value, Result-cases, Result}
use mcn.Crd.{Cluster, NodeEndpoint}
use mcn.Bgp.{BgpConfigurator, Neighbor, configurations, build_neighbors_for_node}
use mcn.Bgp.Config.{neighbor_values, build_node_frr_configuration_with_neighbors}
use mcn.Bgp.Reconcile.{
  config_name, reconcile_node_bgp_config_with_neighbors, reconcile_nodes, reconcile_bgp_config,
}

module _ {W : Type 0} (c : BgpConfigurator W) where
  abbrev frr : String
  frr = "frr-k8s-system"

  abbrev pub conf : String → List Neighbor → Value
  conf node ns = build_node_frr_configuration_with_neighbors c (config_name c node) node ns

  abbrev versioned : Value → Value → Value
  versioned u = c.machinery.set_resource_version (c.machinery.get_resource_version u)

  abbrev Named : String → Value → Type 0
  Named k v = path ("metadata" ∷ "name" ∷ []) v ≡ some (str k)

  -- What the API server documents of calls where no other client writes in between. `held k w` is the
  -- content of the configuration of the name k, that is the object but for the version and what else
  -- the server sets. A Create or an Update that is accepted leaves the submitted content under the
  -- name in the object's metadata, and no call changes an object that it does not name.
  pub record IsServed (held : String → W → Option Value) (content : Value → Value) : Type 0 where
    pub reads : (n k : String) (w : W) → held k ((configurations c frr).get n w).1 ≡ held k w
    pub updates :
        (v x : Value) (k rv : String) (w : W)
        → Named k v
        → ((configurations c frr).update (c.machinery.set_resource_version rv v) w).0 ≡ ok x
        → held k ((configurations c frr).update (c.machinery.set_resource_version rv v) w).1
          ≡ some (content v)
    pub creates :
        (v x : Value) (k : String) (w : W)
        → Named k v
        → ((configurations c frr).create v w).0 ≡ ok x
        → held k ((configurations c frr).create v w).1 ≡ some (content v)
    pub updates_only :
        (v : Value) (n k rv : String) (w : W)
        → Named n v
        → str_eq k n ≡ false
        → held k ((configurations c frr).update (c.machinery.set_resource_version rv v) w).1
          ≡ held k w
    pub creates_only :
        (v : Value) (n k : String) (w : W)
        → Named n v
        → str_eq k n ≡ false
        → held k ((configurations c frr).create v w).1 ≡ held k w
    pub deletes_only :
        (n k : String) (w : W)
        → str_eq k n ≡ false
        → held k ((configurations c frr).delete n w).1 ≡ held k w

  -- A neighbor as the configuration has it.
  abbrev neighbor_entry : Neighbor → Value
  neighbor_entry n = object (
      ("address", str n.address)
      ∷ ("asn", int n.asn)
      ∷ (if n.ebgp_multi_hop then ("ebgpMultiHop", bool true) ∷ [] else []))

  -- The configuration `v` is for the node: it has the node's name, selects the node by its host name,
  -- and has one router, with the local AS number and just these neighbors, in their order.
  pub record IsConfig (node : String) (ns : List Neighbor) (v : Value) : Type 0 where
    pub name : Named (str_append "skynet-node-" node) v
    pub selector :
        path ("spec" ∷ "nodeSelector" ∷ "matchLabels" ∷ "kubernetes.io/hostname" ∷ []) v
        ≡ some (str node)
    pub routers :
        path ("spec" ∷ "bgp" ∷ "routers" ∷ []) v
        ≡ some (
            slice (
              object (("asn", int c.local_asn) ∷ ("neighbors", slice (map neighbor_entry ns)) ∷ [])
              ∷ []))

  neighbor_values-map : (ns : List Neighbor) → neighbor_values ns ≡ map neighbor_entry ns
  unfolding neighbor_values
  neighbor_values-map [] = refl
  neighbor_values-map (n ∷ ns) = ap (λ vs. neighbor_entry n ∷ vs) (neighbor_values-map ns)

  conf-IsConfig : (node : String) (ns : List Neighbor) → IsConfig node ns (conf node ns)
  unfolding config_name build_node_frr_configuration_with_neighbors
  conf-IsConfig node ns = record {
    name = refl;
    selector = refl;
    routers =
        ap
          (λ vs.
            some (slice (object (("asn", int c.local_asn) ∷ ("neighbors", slice vs) ∷ []) ∷ [])))
          (neighbor_values-map ns);
  }

  conf-Named : (node : String) (ns : List Neighbor) → Named (config_name c node) (conf node ns)
  unfolding build_node_frr_configuration_with_neighbors
  conf-Named node ns = refl

  module _ (node : String) (ns : List Neighbor) (w : W) where
    abbrev getting : Result Value × W
    getting = (configurations c frr).get (config_name c node) w

    abbrev updating : Value → Result Value × W
    updating u = (configurations c frr).update (versioned u (conf node ns)) getting.1

    abbrev creating : Result Value × W
    creating = (configurations c frr).create (conf node ns) getting.1

    abbrev writing : Result (Unit {0}) × W
    writing = reconcile_node_bgp_config_with_neighbors c node ns w

    abbrev written : W
    written = writing.1

    updated : (u : Value) → getting.0 ≡ ok u → written ≡ (updating u).1
    unfolding reconcile_node_bgp_config_with_neighbors
    updated u h = elim (Result-cases (updating u).0) [
      | inl (x, k) ↦ ground arith
      | inr (e, k) ↦ ground arith
    ]

    created : (e : Error) → getting.0 ≡ err e → written ≡ creating.1
    unfolding reconcile_node_bgp_config_with_neighbors
    created e h = elim (Result-cases creating.0) [
      | inl (x, k) ↦ ground arith
      | inr (f, k) ↦ ground arith
    ]

    not_updated :
        (u : Value) (e : Error) → getting.0 ≡ ok u → (updating u).0 ≡ err e → writing.0 ≢ ok tt
    unfolding reconcile_node_bgp_config_with_neighbors
    not_updated u e h k = ground arith

    not_created : (b e : Error) → getting.0 ≡ err b → creating.0 ≡ err e → writing.0 ≢ ok tt
    unfolding reconcile_node_bgp_config_with_neighbors
    not_created b e h k = ground arith

  config_name-other :
      (d e : String) → str_eq d e ≡ false → str_eq (config_name c e) (config_name c d) ≡ false
  unfolding config_name
  config_name-other d e n = elim (Bool-cases (str_eq (config_name c e) (config_name c d))) [
    | inr other ↦ other
    | inl same ↦
        let names : e ≡ d =
          append_cancel_left "skynet-node-" e d
            ((eq_iff (config_name c e) (config_name c d)).0 same) in
        absurd (ground (arith, names, eq_iff d e))
  ]

  module _ (held : String → W → Option Value) (content : Value → Value)
      (s : IsServed held content) where
    written_holds :
        (node : String) (ns : List Neighbor) (w : W)
        → (writing node ns w).0 ≡ ok tt
        → held (config_name c node) (written node ns w) ≡ some (content (conf node ns))
    written_holds node ns w done = elim (Result-cases (getting node ns w).0) [
      | inl (u, h) ↦ elim (Result-cases (updating node ns w u).0) [
        | inl (x, k) ↦
            ap (held (config_name c node)) (updated node ns w u h)
            ∙ s.updates (conf node ns) x (config_name c node) _ _ (conf-Named node ns) k
        | inr (e, k) ↦ absurd (not_updated node ns w u e h k done)
      ]
      | inr (b, h) ↦ elim (Result-cases (creating node ns w).0) [
        | inl (x, k) ↦
            ap (held (config_name c node)) (created node ns w b h)
            ∙ s.creates (conf node ns) x (config_name c node) _ (conf-Named node ns) k
        | inr (e, k) ↦ absurd (not_created node ns w b e h k done)
      ]
    ]

    written_only :
        (node k : String) (ns : List Neighbor) (w : W)
        → str_eq k (config_name c node) ≡ false
        → held k (written node ns w) ≡ held k w
    written_only node k ns w n = elim (Result-cases (getting node ns w).0) [
      | inl (u, h) ↦
          ap (held k) (updated node ns w u h)
          ∙ s.updates_only (conf node ns) (config_name c node) k _ _ (conf-Named node ns) n
          ∙ s.reads _ k w
      | inr (e, h) ↦
          ap (held k) (created node ns w e h)
          ∙ s.creates_only (conf node ns) (config_name c node) k _ (conf-Named node ns) n
          ∙ s.reads _ k w
    ]

    module _ (local : Cluster) (remotes : List Cluster) where
      abbrev mesh : NodeEndpoint → Value
      mesh e = conf e.node (build_neighbors_for_node c e.bgp_peer_ip local remotes)

      abbrev after_nodes : List NodeEndpoint → W → W
      after_nodes es w = (reconcile_nodes c local remotes es w).1

      abbrev after_node : NodeEndpoint → W → W
      after_node e = written e.node (build_neighbors_for_node c e.bgp_peer_ip local remotes)

      after-cons :
          (e : NodeEndpoint) (es : List NodeEndpoint) (w : W)
          → after_nodes (e ∷ es) w ≡ after_nodes es (after_node e w)
      unfolding reconcile_nodes
      after-cons e es w = refl

      nodes_ok : (es : List NodeEndpoint) (w : W) → (reconcile_nodes c local remotes es w).0 ≡ ok tt
      unfolding reconcile_nodes
      nodes_ok [] w = refl
      nodes_ok (e ∷ es) w = nodes_ok es (after_node e w)

      nodes_only :
          (k : String) (es : List NodeEndpoint) (w : W)
          → ((e : NodeEndpoint) → Among e es → str_eq k (config_name c e.node) ≡ false)
          → held k (after_nodes es w) ≡ held k w
      unfolding reconcile_nodes
      nodes_only k [] w n = refl
      nodes_only k (e ∷ es) w n =
          nodes_only k es (after_node e w) (λ d m. n d (inr m))
          ∙ written_only e.node k _ w (n e (inl refl))

      -- The write of a node, at its turn.
      abbrev turn : NodeEndpoint → W → Result (Unit {0}) × W
      turn e = writing e.node (build_neighbors_for_node c e.bgp_peer_ip local remotes)

      nodes_hold :
          (before after : List NodeEndpoint) (e : NodeEndpoint) (w : W)
          → ((d : NodeEndpoint) → Among d after → str_eq d.node e.node ≡ false)
          → (turn e (after_nodes before w)).0 ≡ ok tt
          → held (config_name c e.node) (after_nodes (before ++ e ∷ after) w)
            ≡ some (content (mesh e))
      unfolding reconcile_nodes
      nodes_hold [] after e w n done =
          nodes_only (config_name c e.node) after (after_node e w)
            (λ d m. config_name-other d.node e.node (n d m))
          ∙ written_holds e.node _ w done
      nodes_hold (d ∷ before) after e w n done = nodes_hold before after e (after_node d w) n done

      abbrev after_delete : W → W
      after_delete w = ((configurations c frr).delete "skynet-bgp-config" w).1

      -- What a run leaves: each local node that no later one has the name of has the configuration
      -- with the neighbors of its mesh, or the write of its configuration failed at its turn; and all
      -- other configurations are as they were, but for the generic one, which is deleted.
      pub record IsWritten (w w' : W) : Type 0 where
        pub nodes :
            (before after : List NodeEndpoint) (e : NodeEndpoint)
            → local.status.endpoints ≡ before ++ e ∷ after
            → ((d : NodeEndpoint) → Among d after → str_eq d.node e.node ≡ false)
            → ((v : Value) × IsConfig e.node
                  (build_neighbors_for_node c e.bgp_peer_ip local remotes)
                  v
                × (held (str_append "skynet-node-" e.node) w' ≡ some (content v)))
              ⊎ ((b : Error) × ((turn e (after_nodes before (after_delete w))).0 ≡ err b))
        pub others :
            (k : String)
            → str_eq k "skynet-bgp-config" ≡ false
            → ((e : NodeEndpoint)
                → Among e local.status.endpoints
                → str_eq k (str_append "skynet-node-" e.node) ≡ false)
            → held k w' ≡ held k w

      -- ReconcileBGPConfig, on a server that behaves as `IsServed` says and has no other writer
      -- meanwhile, succeeds, and leaves for each local node the configuration that selects the node
      -- and has one router with the local AS number and exactly the neighbors of the node's mesh,
      -- unless the write for that node failed, whatever happened to the other nodes and whether the
      -- generic configuration could be deleted or not. It changes no configuration of another name,
      -- also not that of a node that has left. Of two endpoints of one name the later one counts.
      pub reconcile_bgp_config-IsWritten :
          (w : W)
          → ((reconcile_bgp_config c local remotes w).0 ≡ ok tt)
            × IsWritten w (reconcile_bgp_config c local remotes w).1
      unfolding reconcile_bgp_config config_name
      reconcile_bgp_config-IsWritten w = (
        nodes_ok local.status.endpoints (after_delete w),
        record {
          nodes = λ before after e es n.
              elim (Result-cases (turn e (after_nodes before (after_delete w))).0) [
                | inr (b, failed) ↦ inr (b, failed)
                | inl (_, done) ↦ inl (
                  mesh e,
                  conf-IsConfig e.node (build_neighbors_for_node c e.bgp_peer_ip local remotes),
                  subst
                      (λ xs.
                        held (config_name c e.node) (after_nodes xs (after_delete w))
                        ≡ some (content (mesh e)))
                      (sym es) (nodes_hold before after e (after_delete w) n done),
                )
              ];
          others = λ k g n.
              nodes_only k local.status.endpoints (after_delete w) n
              ∙ s.deletes_only "skynet-bgp-config" k w g;
        },
      )
