-- ===== src/Mcn/Membership/Race.antt =====
-- Two clusters that create different networks at once: the allocation only reads, so both may take
-- the same VNI.
use mcn.Prelude.{
  ℕ, String, Bool, true, false, List, [], ◌∷◌, ◌++◌, ◌≡◌, ◌≤◌, refl, ap, sym, ◌∙◌, has, arith,
}
use mathlib.Core.Path.{subst}
use mcn.Kube.{Result, ok, Value}
use mcn.Crd.{MultiClusterNetwork, NetworkTopology}
use mcn.Vni.{vni_min, collect_vnis}
use mcn.Vni.Least.{least_agrees}
use mcn.Vni.Allocate.{
  listing, has-collect_vnis, Listed-of_has, allocate_vni-least, allocate_vni-world,
}
use mcn.Mcn.{McnManager, networks, new_mcn}
use mcn.Mcn.Stored.{vnis, vnis-append, IsDistinct, Stored-of_has, has_of_Stored}
use mcn.Mcn.Server.{IsServer}
use mcn.Mcn.Membership.Create.{allotted, allocation}

both_true : (x y : Bool) → (x ≡ true → y ≡ true) → (y ≡ true → x ≡ true) → x ≡ y
both_true true y f g = sym (f refl)
both_true false true f g = g refl
both_true false false f g = refl

-- From the smallest VNI on, the set that the allocator builds is that of the stored networks.
collected-has :
    {W : Type 0} (m : McnManager W) (stored : W → List MultiClusterNetwork)
    → IsServer m stored
    → (w : W) (us : List Value) (x : ℕ) → (listing m.vni_allocator w).0 ≡ ok us
    → vni_min ≤ x
    → has x (collect_vnis m.vni_allocator.converter us) ≡ has x (vnis (stored w))
collected-has m stored s w us x l above =
    both_true _ _
      (λ h.
        let (n, k, e) = Listed-of_has m.vni_allocator.converter x us h in
        subst (λ y. has y (vnis (stored w)) ≡ true) e
          (has_of_Stored n (stored w) (s.list_only w us n l k)))
      (λ h.
        let (n, k, e) = Stored-of_has x (stored w) h in
        subst (λ y. has y (collect_vnis m.vni_allocator.converter us) ≡ true) e
          (has-collect_vnis m.vni_allocator.converter n us (s.list_shows w us n l k)
            (λ z. absurd (omega arith))))

-- Appending two networks of one VNI leaves no list of distinct VNIs.
has_twice : (xs : List ℕ) (v : ℕ) → ¬ IsDistinct ((xs ++ v ∷ []) ++ v ∷ [])
has_twice [] v h = ground arith
has_twice (x ∷ xs) v h = has_twice xs v h.1

module _ {W : Type 0} (a b : McnManager W) (stored : W → List MultiClusterNetwork)
    (sa : IsServer a stored) (sb : IsServer b stored) (na nb : String) (ta tb : NetworkTopology)
    (w : W) where
  -- `a` allocates, then `b` does, then both create.
  abbrev pub first : Result ℕ × W
  first = allocation a na ta w

  abbrev pub second : Result ℕ × W
  second = allocation b nb tb first.1

  first-keeps : stored first.1 ≡ stored w
  unfolding new_mcn
  first-keeps = ap stored (allocate_vni-world a.vni_allocator _ w refl) ∙ sa.list_keeps w

  second-keeps : stored second.1 ≡ stored w
  unfolding new_mcn
  second-keeps =
      ap stored (allocate_vni-world b.vni_allocator _ first.1 refl)
      ∙ sb.list_keeps first.1
      ∙ first-keeps

  race_same_vni : (v u : ℕ) → first.0 ≡ ok v → second.0 ≡ ok u → v ≡ u
  unfolding new_mcn
  race_same_vni v u e d =
      let (us, l, h) = allocate_vni-least a.vni_allocator _ w v refl e in
      let (ks, k, j) = allocate_vni-least b.vni_allocator _ first.1 u refl d in
      least_agrees _ _ vni_min v u
        (λ x above.
          collected-has a stored sa w us x l above
          ∙ ap (λ ns. has x (vnis ns)) (sym first-keeps)
          ∙ sym (collected-has b stored sb first.1 ks x k above))
        h j

  -- On a broker that behaves as `IsServer` says to both, if two clusters allocate a VNI before
  -- either creates its network, they allocate the same one; and if both creations then succeed,
  -- two stored networks share it.
  pub race_shares_vni :
      (v u : ℕ) (ua ca ub cb : Value)
      → first.0 ≡ ok v
      → second.0 ≡ ok u
      → a.converter.to_unstructured (allotted a na ta v) ≡ ok ua
      → ((networks a).create ua second.1).0 ≡ ok ca
      → b.converter.to_unstructured (allotted b nb tb u) ≡ ok ub
      → ((networks b).create ub ((networks a).create ua second.1).1).0 ≡ ok cb
      → (v ≡ u)
        × ¬ IsDistinct
            (vnis (stored ((networks b).create ub ((networks a).create ua second.1).1).1))
  race_shares_vni v u ua ca ub cb e d f g h i =
      let same = race_same_vni v u e d in
      let (ra, _, sameA, _, addsA) = sa.create_adds (allotted a na ta v) second.1 ua ca f g in
      let (rb, _, sameB, _, addsB) =
        sb.create_adds (allotted b nb tb u) ((networks a).create ua second.1).1 ub cb h i in
      (
        same,
        λ distinct. has_twice (vnis (stored second.1)) v (
            subst IsDistinct
              (ap vnis addsB
                ∙ vnis-append _ rb
                ∙ ap (λ vs. vs ++ rb.spec.vni ∷ []) (ap vnis addsA ∙ vnis-append _ ra)
                ∙ ap (λ x. (vnis (stored second.1) ++ x ∷ []) ++ rb.spec.vni ∷ []) (sym sameA.vni)
                ∙ ap (λ x. (vnis (stored second.1) ++ v ∷ []) ++ x ∷ []) (sym sameB.vni ∙ sym same))
              distinct),
      )
