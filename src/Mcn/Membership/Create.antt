-- ===== src/Mcn/Membership/Create.antt =====
-- createNewMCN and CreateOrJoinMCN: the network that a success leaves on the broker, and that a
-- failure leaves the broker's networks as they were.
use mcn.Prelude.{
  ℕ, String, true, false, List, [], ◌∷◌, ◌++◌, ◌≡◌, ◌≤◌, ◌⊎◌, str_append, arith, has, none, some,
}
use mcn.Kube.{Result, ok, err, Error, wrap, is_not_found, is_already_exists, Value}
use mcn.Crd.{MultiClusterNetwork, NetworkTopology}
use mcn.Vni.{vni_min, vni_max, allocate_vni, generate_route_target}
use mcn.Mcn.{
  McnManager, networks, new_mcn, get_mcn, join_existing_mcn, after_create_error, create_new_mcn,
  create_or_join_mcn,
}
use mcn.Mcn.Stored.{find, vnis}
use mcn.Mcn.Membership.{IsJoined}

-- `r` is a new network under a free name: its VNI is of the range and no stored network carries
-- it, its route target is made from the VNI, and the cluster's finalizer is its only one.
pub record IsCreated (f name : String) (topology : NetworkTopology) (r : MultiClusterNetwork)
    (before after : List MultiClusterNetwork) : Type 0 where
  pub named : r.meta.name ≡ name
  pub new : find name before ≡ none
  pub above : vni_min ≤ r.spec.vni
  pub below : r.spec.vni ≤ vni_max
  pub fresh : has r.spec.vni (vnis before) ≡ false
  pub route_target : r.spec.route_target ≡ generate_route_target r.spec.vni
  pub topology_kept : r.spec.topology ≡ topology
  pub finalizers : r.meta.finalizers ≡ f ∷ []
  pub stores : after ≡ before ++ r ∷ []

-- How creating or joining under a name may end.
abbrev pub Outcome :
    String
    → String
    → NetworkTopology
    → List MultiClusterNetwork
    → List MultiClusterNetwork
    → Result MultiClusterNetwork
    → Type 0
Outcome f name topology before after (ok r) =
    ((old : MultiClusterNetwork) × (find name before ≡ some old) × IsJoined f old r before after)
    ⊎ IsCreated f name topology r before after
Outcome f name topology before after (err e) = after ≡ before

-- The object that createNewMCN submits, once it has a VNI.
abbrev pub allotted :
    {W : Type 0} → McnManager W → String → NetworkTopology → ℕ → MultiClusterNetwork
allotted m name topology v = record (new_mcn m name topology) {
  spec = record { vni = v; route_target = generate_route_target v; topology = topology };
}

-- createNewMCN and CreateOrJoinMCN, by how their calls end.
module _ {W : Type 0} (m : McnManager W) (name : String) (topology : NetworkTopology) (w : W) where
  abbrev pub allocation : Result ℕ × W
  allocation = allocate_vni m.vni_allocator (new_mcn m name topology) w

  pub no_vni :
      (b : Error)
      → allocation.0 ≡ err b
      → create_new_mcn m name topology w ≡ (err (wrap "failed to allocate VNI" b), allocation.1)
  unfolding create_new_mcn
  no_vni b e = ground arith

  pub unconverted :
      (v : ℕ) (b : Error)
      → allocation.0 ≡ ok v
      → m.converter.to_unstructured (allotted m name topology v) ≡ err b
      → create_new_mcn m name topology w
        ≡ (err (wrap "failed to convert MCN to unstructured" b), allocation.1)
  unfolding create_new_mcn
  unconverted v b e d = ground arith

  pub created_ok :
      (v : ℕ) (u c : Value) (r : MultiClusterNetwork)
      → allocation.0 ≡ ok v
      → m.converter.to_unstructured (allotted m name topology v) ≡ ok u
      → ((networks m).create u allocation.1).0 ≡ ok c
      → m.converter.from_unstructured c ≡ ok r
      → create_new_mcn m name topology w ≡ (ok r, ((networks m).create u allocation.1).1)
  unfolding create_new_mcn
  created_ok v u c r e d f g = ground arith

  pub created_err :
      (v : ℕ) (u : Value) (b : Error)
      → allocation.0 ≡ ok v
      → m.converter.to_unstructured (allotted m name topology v) ≡ ok u
      → ((networks m).create u allocation.1).0 ≡ err b
      → create_new_mcn m name topology w
        ≡ after_create_error m name b ((networks m).create u allocation.1).1
  unfolding create_new_mcn
  created_err v u b e d f = ground arith

  pub found_ok :
      (n : MultiClusterNetwork)
      → (get_mcn m name w).0 ≡ ok n
      → create_or_join_mcn m name topology w ≡ join_existing_mcn m n (get_mcn m name w).1
  unfolding create_or_join_mcn
  found_ok n e = ground arith

  pub found_err :
      (b : Error)
      → (get_mcn m name w).0 ≡ err b
      → is_not_found b ≡ false
      → create_or_join_mcn m name topology w
        ≡ (err (wrap (str_append "failed to get MCN " name) b), (get_mcn m name w).1)
  unfolding create_or_join_mcn
  found_err b e d = ground arith

  pub found_none :
      (b : Error)
      → (get_mcn m name w).0 ≡ err b
      → is_not_found b ≡ true
      → create_or_join_mcn m name topology w ≡ create_new_mcn m name topology (get_mcn m name w).1
  unfolding create_or_join_mcn
  found_none b e d = ground arith

  pub conflict_ok :
      (b : Error) (n : MultiClusterNetwork)
      → is_already_exists b ≡ true
      → (get_mcn m name w).0 ≡ ok n
      → after_create_error m name b w ≡ join_existing_mcn m n (get_mcn m name w).1
  unfolding after_create_error
  conflict_ok b n e d = ground arith

  pub conflict_err :
      (b c : Error)
      → is_already_exists b ≡ true
      → (get_mcn m name w).0 ≡ err c
      → after_create_error m name b w
        ≡ (err (wrap "failed to get MCN after create conflict" c), (get_mcn m name w).1)
  unfolding after_create_error
  conflict_err b c e d = ground arith

  pub no_conflict :
      (b : Error)
      → is_already_exists b ≡ false
      → after_create_error m name b w
        ≡ (err (wrap (str_append "failed to create MCN " (str_append name " on broker")) b), w)
  unfolding after_create_error
  no_conflict b e = ground arith
