-- ===== src/Mcn/Keeps.antt =====
-- What the manager of networks keeps of the world: whatever the calls on the broker keep.
use mcn.Prelude.{String, not, ◌≡◌, refl, sym}
use mathlib.Core.Path.{subst}
use mcn.Kube.{Error, is_not_found, is_already_exists, Value}
use mcn.Kube.Keeps.{Keeps, Keeps-bind, Keeps-pure, Keeps-wrapping, Keeps-either, Keeps-if}
use mcn.Crd.{MultiClusterNetwork, NetworkTopology}
use mcn.Vni.{allocate_vni}
use mcn.Vni.Allocate.{listing, allocate_vni-world}
use mcn.Mcn.{
  McnManager, networks, get_mcn, update_mcn, join_existing_mcn, create_new_mcn, new_mcn,
  after_create_error, create_or_join_mcn, leave_existing_mcn, leave_mcn, contains_string,
  get_finalizer_name,
}

-- A predicate that the calls on the broker keep.
module _ {W : Type 0} (P : W → Type 0) (m : McnManager W) where
  pub record BrokerKeeps : Type 0 where
    pub get : (name : String) → Keeps P ((networks m).get name)
    pub create : (u : Value) → Keeps P ((networks m).create u)
    pub update : (u : Value) → Keeps P ((networks m).update u)
    pub list : Keeps P (listing m.vni_allocator)

  module _ (h : BrokerKeeps) where
    get_mcn-Keeps : (name : String) → Keeps P (get_mcn m name)
    unfolding get_mcn
    get_mcn-Keeps name = Keeps-bind P _ _ (h.get name) (λ u. Keeps-pure P _)

    update_mcn-Keeps : (mcn : MultiClusterNetwork) → Keeps P (update_mcn m mcn)
    unfolding update_mcn
    update_mcn-Keeps mcn =
        Keeps-bind P _ _ (Keeps-pure P _) (λ u. Keeps-bind P _ _ (h.update u) (λ v. Keeps-pure P _))

    join_existing_mcn-Keeps : (mcn : MultiClusterNetwork) → Keeps P (join_existing_mcn m mcn)
    unfolding join_existing_mcn
    join_existing_mcn-Keeps mcn =
        Keeps-if P (contains_string mcn.meta.finalizers (get_finalizer_name m)) _ _ (Keeps-pure P _)
          (Keeps-wrapping P _ _ (update_mcn-Keeps _))

    allocate_vni-Keeps :
        (mcn : MultiClusterNetwork) → mcn.spec.vni ≡ 0 → Keeps P (allocate_vni m.vni_allocator mcn)
    unfolding Keeps
    allocate_vni-Keeps mcn z w p =
        subst P (sym (allocate_vni-world m.vni_allocator mcn w z)) (h.list w p)

    after_create_error-Keeps : (name : String) (e : Error) → Keeps P (after_create_error m name e)
    unfolding after_create_error
    after_create_error-Keeps name e =
        Keeps-if P (is_already_exists e) _ _
          (Keeps-bind P _ _ (Keeps-wrapping P _ _ (get_mcn-Keeps name))
            (λ mcn. join_existing_mcn-Keeps mcn))
          (Keeps-pure P _)

    create_new_mcn-Keeps : (name : String) (t : NetworkTopology) → Keeps P (create_new_mcn m name t)
    unfolding create_new_mcn new_mcn
    create_new_mcn-Keeps name t =
        Keeps-bind P _ _ (Keeps-wrapping P _ _ (allocate_vni-Keeps _ refl)) (λ vni.
          Keeps-bind P _ _ (Keeps-pure P _) (λ u.
            Keeps-either P _ _ _ (h.create u) (λ c. Keeps-pure P _)
              (λ e. after_create_error-Keeps name e)))

    pub create_or_join_mcn-Keeps :
        (name : String) (t : NetworkTopology) → Keeps P (create_or_join_mcn m name t)
    unfolding create_or_join_mcn
    create_or_join_mcn-Keeps name t =
        Keeps-either P _ _ _ (get_mcn-Keeps name) (λ mcn. join_existing_mcn-Keeps mcn)
          (λ e.
            Keeps-if P (not (is_not_found e)) _ _ (Keeps-pure P _) (create_new_mcn-Keeps name t))

    leave_existing_mcn-Keeps : (mcn : MultiClusterNetwork) → Keeps P (leave_existing_mcn m mcn)
    unfolding leave_existing_mcn
    leave_existing_mcn-Keeps mcn =
        Keeps-if P (not (contains_string mcn.meta.finalizers (get_finalizer_name m))) _ _
          (Keeps-pure P _)
          (Keeps-bind P _ _ (Keeps-wrapping P _ _ (update_mcn-Keeps _)) (λ u. Keeps-pure P _))

    pub leave_mcn-Keeps : (name : String) → Keeps P (leave_mcn m name)
    unfolding leave_mcn
    leave_mcn-Keeps name =
        Keeps-either P _ _ _ (get_mcn-Keeps name) (λ mcn. leave_existing_mcn-Keeps mcn)
          (λ e. Keeps-if P (is_not_found e) _ _ (Keeps-pure P _) (Keeps-pure P _))
