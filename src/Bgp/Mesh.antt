-- ===== src/Bgp/Mesh.antt =====
-- Who peers with whom.
use mcn.Prelude.{
  String, true, false, not, List, [], ◌∷◌, ◌++◌, ◌≡◌, ◌↔◌, ◌⊎◌, inl, inr, refl, sym, ap, ◌&&◌,
  str_eq, arith, Bool-cases,
}
use mathlib.Core.Path.{subst}
use mcn.Prelude.Among.{Among, append-Among}
use mcn.Crd.{Cluster, NodeEndpoint}
use mcn.Bgp.{
  BgpConfigurator, Neighbor, intra, inter, route_reflector, intra_neighbors, inter_neighbors,
  remote_neighbors, build_neighbors_for_node,
}

-- A remote node is peered with, unless the topology asks for route reflectors and it is none.
abbrev pub IsAdmitted : String → NodeEndpoint → Type 0
IsAdmitted topology e = (str_eq topology route_reflector && not e.route_reflector) ≡ false

module _ (node_ip : String) (local : Cluster) where
  abbrev IsIntra : Neighbor → List NodeEndpoint → Type 0
  IsIntra n es =
      (e : NodeEndpoint) × Among e es × (str_eq e.bgp_peer_ip node_ip ≡ false) × (intra local e ≡ n)

  self_out :
      (e : NodeEndpoint) (es : List NodeEndpoint)
      → str_eq e.bgp_peer_ip node_ip ≡ true
      → intra_neighbors node_ip local (e ∷ es) ≡ intra_neighbors node_ip local es
  unfolding intra_neighbors
  self_out e es h = ground arith

  other_in :
      (e : NodeEndpoint) (es : List NodeEndpoint)
      → str_eq e.bgp_peer_ip node_ip ≡ false
      → intra_neighbors node_ip local (e ∷ es) ≡ intra local e ∷ intra_neighbors node_ip local es
  unfolding intra_neighbors
  other_in e es h = ground arith

  nobody : intra_neighbors node_ip local [] ≡ []
  unfolding intra_neighbors
  nobody = refl

  IsIntra-found :
      (n : Neighbor) (es : List NodeEndpoint)
      → Among n (intra_neighbors node_ip local es)
      → IsIntra n es
  IsIntra-found n [] h = absurd (subst (Among n) nobody h)
  IsIntra-found n (e ∷ es) h = elim (Bool-cases (str_eq e.bgp_peer_ip node_ip)) [
    | inl self ↦
        let (f, a, b, c) = IsIntra-found n es (subst (Among n) (self_out e es self) h) in
        (f, inr a, b, c)
    | inr other ↦ elim (subst (Among n) (other_in e es other) h) [
      | inl same ↦ (e, inl refl, other, same)
      | inr later ↦ let (f, a, b, c) = IsIntra-found n es later in (f, inr a, b, c)
    ]
  ]

  intra_put :
      (e : NodeEndpoint) (es : List NodeEndpoint)
      → Among e es
      → str_eq e.bgp_peer_ip node_ip ≡ false
      → Among (intra local e) (intra_neighbors node_ip local es)
  intra_put e [] h k = elim h [ ]
  intra_put e (f ∷ es) (inl same) k =
      let k' : str_eq f.bgp_peer_ip node_ip ≡ false =
        subst (λ (x : NodeEndpoint). str_eq x.bgp_peer_ip node_ip ≡ false) (sym same) k in
      subst (Among (intra local e)) (sym (other_in f es k')) (inl (ap (intra local) same))
  intra_put e (f ∷ es) (inr h) k = elim (Bool-cases (str_eq f.bgp_peer_ip node_ip)) [
    | inl self ↦ subst (Among (intra local e)) (sym (self_out f es self)) (intra_put e es h k)
    | inr other ↦
        subst (Among (intra local e)) (sym (other_in f es other)) (inr (intra_put e es h k))
  ]

module _ (topology : String) where
  module _ (cluster : Cluster) where
    abbrev IsInter : Neighbor → List NodeEndpoint → Type 0
    IsInter n es = (e : NodeEndpoint) × Among e es × IsAdmitted topology e × (inter cluster e ≡ n)

    kept_out :
        (e : NodeEndpoint) (es : List NodeEndpoint)
        → (str_eq topology route_reflector && not e.route_reflector) ≡ true
        → inter_neighbors topology cluster (e ∷ es) ≡ inter_neighbors topology cluster es
    unfolding inter_neighbors
    kept_out e es h = ground arith

    let_in :
        (e : NodeEndpoint) (es : List NodeEndpoint)
        → IsAdmitted topology e
        → inter_neighbors topology cluster (e ∷ es)
          ≡ inter cluster e ∷ inter_neighbors topology cluster es
    unfolding inter_neighbors
    let_in e es h = ground arith

    none_in : inter_neighbors topology cluster [] ≡ []
    unfolding inter_neighbors
    none_in = refl

    IsInter-found :
        (n : Neighbor) (es : List NodeEndpoint)
        → Among n (inter_neighbors topology cluster es)
        → IsInter n es
    IsInter-found n [] h = absurd (subst (Among n) none_in h)
    IsInter-found n (e ∷ es) h =
        elim (Bool-cases (str_eq topology route_reflector && not e.route_reflector)) [
          | inl out ↦
              let (f, a, b, c) = IsInter-found n es (subst (Among n) (kept_out e es out) h) in
              (f, inr a, b, c)
          | inr admitted ↦ elim (subst (Among n) (let_in e es admitted) h) [
            | inl same ↦ (e, inl refl, admitted, same)
            | inr later ↦ let (f, a, b, c) = IsInter-found n es later in (f, inr a, b, c)
          ]
        ]

    inter_put :
        (e : NodeEndpoint) (es : List NodeEndpoint)
        → Among e es
        → IsAdmitted topology e
        → Among (inter cluster e) (inter_neighbors topology cluster es)
    inter_put e [] h k = elim h [ ]
    inter_put e (f ∷ es) (inl same) k =
        let k' : IsAdmitted topology f = subst (IsAdmitted topology) (sym same) k in
        subst (Among (inter cluster e)) (sym (let_in f es k')) (inl (ap (inter cluster) same))
    inter_put e (f ∷ es) (inr h) k =
        elim (Bool-cases (str_eq topology route_reflector && not f.route_reflector)) [
          | inl out ↦ subst (Among (inter cluster e)) (sym (kept_out f es out)) (inter_put e es h k)
          | inr admitted ↦
              subst (Among (inter cluster e)) (sym (let_in f es admitted))
                (inr (inter_put e es h k))
        ]

  -- `n` is a node of a remote cluster that is peered with.
  abbrev pub IsRemote : Neighbor → List Cluster → Type 0
  IsRemote n cs = (c : Cluster) × Among c cs × IsInter c n c.status.endpoints

  IsRemote-found :
      (n : Neighbor) (cs : List Cluster) → Among n (remote_neighbors topology cs) → IsRemote n cs
  unfolding remote_neighbors
  IsRemote-found n [] h = elim h [ ]
  IsRemote-found n (c ∷ cs) h =
      elim ((append-Among n (inter_neighbors topology c c.status.endpoints)
          (remote_neighbors topology cs)).0
        h) [
          | inl here ↦ (c, inl refl, IsInter-found c n c.status.endpoints here)
          | inr later ↦ let (d, a, b) = IsRemote-found n cs later in (d, inr a, b)
        ]

  remote_put :
      (c : Cluster) (cs : List Cluster) (e : NodeEndpoint)
      → Among c cs
      → Among e c.status.endpoints
      → IsAdmitted topology e
      → Among (inter c e) (remote_neighbors topology cs)
  unfolding remote_neighbors
  remote_put c [] e h k l = elim h [ ]
  remote_put c (d ∷ cs) e (inl same) k l =
      subst
        (λ x.
          Among (inter c e)
            (inter_neighbors topology x x.status.endpoints ++ remote_neighbors topology cs))
        (sym same)
        ((append-Among (inter c e) (inter_neighbors topology c c.status.endpoints)
            (remote_neighbors topology cs)).1
          (inl (inter_put c e c.status.endpoints k l)))
  remote_put c (d ∷ cs) e (inr h) k l =
      (append-Among (inter c e) (inter_neighbors topology d d.status.endpoints)
          (remote_neighbors topology cs)).1
        (inr (remote_put c cs e h k l))

module _ {W : Type 0} (c : BgpConfigurator W) (node_ip : String) (local : Cluster)
    (remotes : List Cluster) where
  -- The neighbors of a node are exactly the nodes of its own cluster at other addresses, with the
  -- cluster's AS number, and the admitted nodes of the remote clusters, with theirs.
  pub build_neighbors_for_node_iff :
      (n : Neighbor)
      → Among n (build_neighbors_for_node c node_ip local remotes) ↔ (
          ((e : NodeEndpoint) × Among e local.status.endpoints
            × (str_eq e.bgp_peer_ip node_ip ≡ false)
            × (intra local e ≡ n))
          ⊎ IsRemote c.topology n remotes)
  unfolding build_neighbors_for_node
  build_neighbors_for_node_iff n =
      let both =
        append-Among n (intra_neighbors node_ip local local.status.endpoints)
          (remote_neighbors c.topology remotes) in
      (
        λ h. elim (both.0 h) [
          | inl a ↦ inl (IsIntra-found node_ip local n local.status.endpoints a)
          | inr b ↦ inr (IsRemote-found c.topology n remotes b)
        ],
        λ h. elim h [
          | inl (e, a, b, same) ↦ both.1 (
              inl (
                subst (λ x. Among x (intra_neighbors node_ip local local.status.endpoints)) same
                  (intra_put node_ip local e local.status.endpoints a b)))
          | inr (d, a, (e, b, k, same)) ↦ both.1 (
              inr (
                subst (λ x. Among x (remote_neighbors c.topology remotes)) same
                  (remote_put c.topology d remotes e a b k)))
        ],
      )
