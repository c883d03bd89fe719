-- ===== src/Mcn/Membership/Atomic.antt =====
-- CreateOrJoinMCN as a whole: it joins the network of the name, or creates it with a fresh VNI, or
-- changes nothing on the broker.
use mcn.Prelude.{
  ℕ, String, false, List, [], ◌∷◌, ◌++◌, ◌≡◌, ◌≤◌, inl, inr, refl, ap, sym, ◌∙◌, has, Bool-cases,
  none, some,
}
use mathlib.Core.Path.{subst}
use mcn.Kube.{Result, ok, err, Error, is_not_found, is_already_exists, Result-cases, Value}
use mcn.Crd.{MultiClusterNetwork, NetworkTopology}
use mcn.Vni.{vni_min, vni_max, generate_route_target}
use mcn.Vni.Allocate.{allocate_vni-IsFresh, allocate_vni-world}
use mcn.Mcn.{
  McnManager, networks, get_finalizer_name, new_mcn, get_mcn, join_existing_mcn, after_create_error,
  create_new_mcn, create_or_join_mcn,
}
use mcn.Mcn.Stored.{find, vnis, has-vnis}
use mcn.Mcn.Server.{IsServer, Read, get_mcn-Read, get_mcn-keeps}
use mcn.Mcn.Membership.{JoinOutcome, join_existing_mcn-JoinOutcome}
use mcn.Mcn.Membership.Create.{
  IsCreated, Outcome, allotted, allocation, no_vni, unconverted, created_ok, created_err, found_ok,
  found_err, found_none, conflict_ok, conflict_err, no_conflict,
}

Outcome-of_join :
    (f name : String) (topology : NetworkTopology) (n : MultiClusterNetwork)
    (before after : List MultiClusterNetwork) (res : Result MultiClusterNetwork)
    → find name before ≡ some n
    → JoinOutcome f n before after res
    → Outcome f name topology before after res
Outcome-of_join f name topology n before after (ok r) e h = inl (n, e, h)
Outcome-of_join f name topology n before after (err b) e h = h

module _ {W : Type 0} (m : McnManager W) (stored : W → List MultiClusterNetwork)
    (s : IsServer m stored) (name : String) (topology : NetworkTopology) where
  -- The outcome of a run that ended with `x`, where `before` was stored.
  abbrev Ends : List MultiClusterNetwork → Result MultiClusterNetwork × W → Type 0
  Ends before x = Outcome (get_finalizer_name m) name topology before (stored x.1) x.0

  allocation-keeps : (w : W) → stored (allocation m name topology w).1 ≡ stored w
  unfolding new_mcn
  allocation-keeps w = ap stored (allocate_vni-world m.vni_allocator _ w refl) ∙ s.list_keeps w

  allocation-fresh :
      (w : W) (v : ℕ)
      → (allocation m name topology w).0 ≡ ok v
      → (has v (vnis (stored w)) ≡ false) × (vni_min ≤ v) × (v ≤ vni_max)
  unfolding new_mcn
  allocation-fresh w v e =
      let (us, l, fresh, above, below) = allocate_vni-IsFresh m.vni_allocator _ w v refl e in
      (has-vnis v (stored w) (λ n h. fresh n (s.list_shows w us n l h)), above, below)

  -- Reading the network and joining it, from a state that stores what `before` lists.
  join-Ends :
      (before : List MultiClusterNetwork) (n : MultiClusterNetwork) (w : W)
      → stored w ≡ before
      → (get_mcn m name w).0 ≡ ok n
      → Ends before (join_existing_mcn m n (get_mcn m name w).1)
  join-Ends before n w same e =
      let kept : stored (get_mcn m name w).1 ≡ before = get_mcn-keeps m stored s name w ∙ same in
      let found : find name (stored w) ≡ some n =
        subst (Read name (stored w)) e (get_mcn-Read m stored s name w) in
      Outcome-of_join _ name topology n before _ _ (ap (find name) (sym same) ∙ found) (
        subst
          (λ b.
            JoinOutcome (get_finalizer_name m) n b
              (stored (join_existing_mcn m n (get_mcn m name w).1).1)
              (join_existing_mcn m n (get_mcn m name w).1).0)
          kept (join_existing_mcn-JoinOutcome m stored s n (get_mcn m name w).1))

  after_create_error-Ends :
      (before : List MultiClusterNetwork) (b : Error) (w : W)
      → stored w ≡ before
      → Ends before (after_create_error m name b w)
  after_create_error-Ends before b w same = elim (Bool-cases (is_already_exists b)) [
    | inl taken ↦ elim (Result-cases (get_mcn m name w).0) [
      | inl (n, e) ↦
          subst (Ends before) (sym (conflict_ok m name topology w b n taken e))
            (join-Ends before n w same e)
      | inr (c, e) ↦
          subst (Ends before) (sym (conflict_err m name topology w b c taken e))
            (get_mcn-keeps m stored s name w ∙ same)
    ]
    | inr other ↦ subst (Ends before) (sym (no_conflict m name topology w b other)) same
  ]

  IsCreated_lem :
      (w : W) (v : ℕ) (u c : Value)
      → find name (stored w) ≡ none
      → (allocation m name topology w).0 ≡ ok v
      → m.converter.to_unstructured (allotted m name topology v) ≡ ok u
      → ((networks m).create u (allocation m name topology w).1).0 ≡ ok c
      → (r : MultiClusterNetwork) × (m.converter.from_unstructured c ≡ ok r)
        × IsCreated
            (get_finalizer_name m)
            name
            topology
            r
            (stored w)
            (stored ((networks m).create u (allocation m name topology w).1).1)
  unfolding new_mcn
  IsCreated_lem w v u c free e d f =
      let (r, conv, same, _, adds) =
        s.create_adds (allotted m name topology v) (allocation m name topology w).1 u c d f in
      let (fresh, above, below) = allocation-fresh w v e in
      (
        r,
        conv,
        record {
          named = sym same.name;
          new = free;
          above = subst (λ k. vni_min ≤ k) same.vni above;
          below = subst (λ k. k ≤ vni_max) same.vni below;
          fresh = subst (λ k. has k (vnis (stored w)) ≡ false) same.vni fresh;
          route_target = sym same.route_target ∙ ap generate_route_target same.vni;
          topology_kept = sym same.topology;
          finalizers = sym same.finalizers;
          stores = adds ∙ ap (λ ns. ns ++ r ∷ []) (allocation-keeps w);
        },
      )

  create_new_mcn-Ends :
      (w : W) → find name (stored w) ≡ none → Ends (stored w) (create_new_mcn m name topology w)
  create_new_mcn-Ends w free = elim (Result-cases (allocation m name topology w).0) [
    | inr (b, e) ↦ subst (Ends (stored w)) (sym (no_vni m name topology w b e)) (allocation-keeps w)
    | inl (v, e) ↦ elim (Result-cases (m.converter.to_unstructured (allotted m name topology v))) [
      | inr (b, d) ↦
          subst (Ends (stored w)) (sym (unconverted m name topology w v b e d)) (allocation-keeps w)
      | inl (u, d) ↦
          elim (Result-cases ((networks m).create u (allocation m name topology w).1).0) [
            | inl (c, f) ↦
                let (r, conv, made) = IsCreated_lem w v u c free e d f in
                subst (Ends (stored w)) (sym (created_ok m name topology w v u c r e d f conv))
                  (inr made)
            | inr (b, f) ↦
                subst (Ends (stored w)) (sym (created_err m name topology w v u b e d f)) (
                  after_create_error-Ends (stored w) b _
                    (s.create_fails u _ b f ∙ allocation-keeps w))
          ]
    ]
  ]

  -- On a server that behaves as `IsServer` says and that no other client writes to meanwhile,
  -- CreateOrJoinMCN ends in one of three ways: it returns the network that was stored under the
  -- name with this cluster's finalizer on it and the VNI, route target, topology and other
  -- clusters' finalizers as they were; it returns a new network, stored under a name that was
  -- free, with a VNI of 5000..10000 that no stored network carries; or it returns an error and the
  -- stored networks are what they were.
  pub create_or_join_mcn-Outcome :
      (w : W)
      → Outcome
          (get_finalizer_name m)
          name
          topology
          (stored w)
          (stored (create_or_join_mcn m name topology w).1)
          (create_or_join_mcn m name topology w).0
  create_or_join_mcn-Outcome w = elim (Result-cases (get_mcn m name w).0) [
    | inl (n, e) ↦
        subst (Ends (stored w)) (sym (found_ok m name topology w n e)) (join-Ends _ n w refl e)
    | inr (b, e) ↦ elim (Bool-cases (is_not_found b)) [
      | inr other ↦
          subst (Ends (stored w)) (sym (found_err m name topology w b e other))
            (get_mcn-keeps m stored s name w)
      | inl missing ↦
          let kept : stored (get_mcn m name w).1 ≡ stored w = get_mcn-keeps m stored s name w in
          let free : find name (stored w) ≡ none =
            subst (Read name (stored w)) e (get_mcn-Read m stored s name w) missing in
          subst (Ends (stored w)) (sym (found_none m name topology w b e missing)) (
            subst (λ before. Ends before (create_new_mcn m name topology (get_mcn m name w).1)) kept
              (create_new_mcn-Ends _ (ap (find name) kept ∙ free)))
    ]
  ]
