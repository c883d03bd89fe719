-- ===== src/Mcn/Membership.antt =====
-- What CreateOrJoinMCN and LeaveMCN do to the networks on the broker, on every branch.
pub mod Create
pub mod Atomic
pub mod Leave
pub mod Unique
pub mod Race
use mcn.Prelude.{
  ℕ, String, Bool, true, false, List, [], ◌∷◌, ◌++◌, ◌≡◌, ◌⊎◌, inl, inr, refl, ap, sym, ◌∙◌, str_eq,
  str_append, eq_refl, arith, Bool-cases, if◌then◌else◌, Option, none, some,
}
use mcn.Kube.{Result, ok, err, Error, wrap_err}
use mcn.Crd.{MultiClusterNetwork}
use mcn.Mcn.{
  McnManager, get_finalizer_name, contains_string, with_finalizers, update_mcn, join_existing_mcn,
}
use mcn.Mcn.Finalizers.{contains_string-append}
use mcn.Mcn.Stored.{find, find-name, replace, without, SameNetwork}
use mcn.Mcn.Server.{IsServer, IsWritten, Written, update_mcn-Written}

-- `r` is the network `old` with the finalizer `f` added if it was not there, and `after` holds it.
pub record IsJoined (f : String) (old r : MultiClusterNetwork)
    (before after : List MultiClusterNetwork) : Type 0 where
  pub name : r.meta.name ≡ old.meta.name
  pub vni : r.spec.vni ≡ old.spec.vni
  pub route_target : r.spec.route_target ≡ old.spec.route_target
  pub topology : r.spec.topology ≡ old.spec.topology
  pub member : contains_string r.meta.finalizers f ≡ true
  pub others :
      (t : String)
      → str_eq f t ≡ false
      → contains_string r.meta.finalizers t ≡ contains_string old.meta.finalizers t
  pub stores : ((r ≡ old) × (after ≡ before)) ⊎ (after ≡ replace r before)

abbrev pub JoinOutcome :
    String
    → MultiClusterNetwork
    → List MultiClusterNetwork
    → List MultiClusterNetwork
    → Result MultiClusterNetwork
    → Type 0
JoinOutcome f old before after (ok r) = IsJoined f old r before after
JoinOutcome f old before after (err e) = after ≡ before

append-ne-nil : (fs : List String) (f : String) → ¬ (fs ++ f ∷ [] ≡ [])
append-ne-nil [] f h = cc
append-ne-nil (x ∷ xs) f h = cc

join_of_Written :
    (f msg : String) (old : MultiClusterNetwork) (before after : List MultiClusterNetwork)
    (res : Result MultiClusterNetwork)
    → Written (with_finalizers (old.meta.finalizers ++ f ∷ []) old) before after res
    → JoinOutcome f old before after (wrap_err msg res)
join_of_Written f msg old before after (ok r) h = record {
  name = sym h.same.name;
  vni = sym h.same.vni;
  route_target = sym h.same.route_target;
  topology = sym h.same.topology;
  member =
      ap (λ fs. contains_string fs f) (sym h.same.finalizers)
      ∙ contains_string-append old.meta.finalizers f f
      ∙ simp (eq_refl f);
  others = λ t ne.
      ap (λ fs. contains_string fs t) (sym h.same.finalizers)
      ∙ contains_string-append old.meta.finalizers f t
      ∙ simp ne;
  stores = elim h.stores [
    | inl e ↦ inr e
    | inr (d, n, e) ↦ absurd (append-ne-nil old.meta.finalizers f n)
  ];
}
join_of_Written f msg old before after (err e) h = h

module _ {W : Type 0} (m : McnManager W) (stored : W → List MultiClusterNetwork)
    (s : IsServer m stored) where
  pub join_existing_mcn-JoinOutcome :
      (old : MultiClusterNetwork) (w : W)
      → JoinOutcome
          (get_finalizer_name m)
          old
          (stored w)
          (stored (join_existing_mcn m old w).1)
          (join_existing_mcn m old w).0
  unfolding join_existing_mcn
  join_existing_mcn-JoinOutcome old w =
      elim (Bool-cases (contains_string old.meta.finalizers (get_finalizer_name m))) [
        | inl here ↦ rw here (record {
          name = refl;
          vni = refl;
          route_target = refl;
          topology = refl;
          member = here;
          others = λ t ne. refl;
          stores = inl (refl, refl);
        })
        | inr absent ↦
            rw absent (
              join_of_Written (get_finalizer_name m) _ old _ _ _
                (update_mcn-Written m stored s _ w))
      ]
