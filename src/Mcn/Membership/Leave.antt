-- ===== src/Mcn/Membership/Leave.antt =====
-- LeaveMCN: the cluster's finalizer goes, everything else about the network stays, and the VNI
-- stays in use as long as the network is stored.
use mcn.Prelude.{
  String, true, false, List, [], ◌≡◌, ◌⊎◌, inl, inr, refl, ap, sym, ◌∙◌, str_eq, str_append,
  eq_refl, arith, Bool-cases, none, some,
}
use mathlib.Core.Path.{subst}
use mcn.Kube.{Result, ok, err, Error, wrap, is_not_found, Result-cases}
use mcn.Crd.{MultiClusterNetwork}
use mcn.Mcn.{
  McnManager, get_finalizer_name, contains_string, remove_string, with_finalizers, get_mcn,
  update_mcn, leave_existing_mcn, leave_mcn,
}
use mcn.Mcn.Finalizers.{contains_string-remove_string}
use mcn.Mcn.Stored.{find, replace, without}
use mcn.Mcn.Server.{IsServer, Read, Written, update_mcn-Written, get_mcn-Read, get_mcn-keeps}

-- `r` is the network `old` without the finalizer `f`, and `after` holds it, unless the network was
-- being deleted and that was its last finalizer.
pub record IsLeft (f : String) (old r : MultiClusterNetwork)
    (before after : List MultiClusterNetwork) : Type 0 where
  pub name : r.meta.name ≡ old.meta.name
  pub vni : r.spec.vni ≡ old.spec.vni
  pub route_target : r.spec.route_target ≡ old.spec.route_target
  pub topology : r.spec.topology ≡ old.spec.topology
  pub gone : contains_string r.meta.finalizers f ≡ false
  pub others :
      (t : String)
      → str_eq f t ≡ false
      → contains_string r.meta.finalizers t ≡ contains_string old.meta.finalizers t
  pub stores :
      (after ≡ replace r before)
      ⊎ ((old.meta.deleting ≡ true)
          × (remove_string old.meta.finalizers f ≡ [])
          × (after ≡ without r.meta.name before))

-- How leaving the network that is stored may end.
abbrev pub LeaveOutcome :
    String
    → MultiClusterNetwork
    → List MultiClusterNetwork
    → List MultiClusterNetwork
    → Result (Unit {0})
    → Type 0
LeaveOutcome f old before after (ok _) =
    ((contains_string old.meta.finalizers f ≡ false) × (after ≡ before))
    ⊎ ((r : MultiClusterNetwork) × IsLeft f old r before after)
LeaveOutcome f old before after (err e) = after ≡ before

-- How leaving under a name may end.
abbrev pub Leaves :
    String
    → String
    → List MultiClusterNetwork
    → List MultiClusterNetwork
    → Result (Unit {0})
    → Type 0
Leaves f name before after (ok _) =
    ((find name before ≡ none) × (after ≡ before))
    ⊎ ((old : MultiClusterNetwork) × (find name before ≡ some old)
        × LeaveOutcome f old before after (ok tt))
Leaves f name before after (err e) = after ≡ before

IsLeft-of_Written :
    (f : String) (old : MultiClusterNetwork) (before after : List MultiClusterNetwork)
    (r : MultiClusterNetwork)
    → Written (with_finalizers (remove_string old.meta.finalizers f) old) before after (ok r)
    → IsLeft f old r before after
IsLeft-of_Written f old before after r h = record {
  name = sym h.same.name;
  vni = sym h.same.vni;
  route_target = sym h.same.route_target;
  topology = sym h.same.topology;
  gone =
      ap (λ fs. contains_string fs f) (sym h.same.finalizers)
      ∙ contains_string-remove_string old.meta.finalizers f f
      ∙ simp (eq_refl f);
  others = λ t ne.
      ap (λ fs. contains_string fs t) (sym h.same.finalizers)
      ∙ contains_string-remove_string old.meta.finalizers f t
      ∙ simp ne;
  stores = h.stores;
}

module _ {W : Type 0} (m : McnManager W) (w : W) where
  abbrev removal : MultiClusterNetwork → Result MultiClusterNetwork × W
  removal old =
      update_mcn m (with_finalizers (remove_string old.meta.finalizers (get_finalizer_name m)) old)
        w

  removed_ok :
      (old r : MultiClusterNetwork)
      → contains_string old.meta.finalizers (get_finalizer_name m) ≡ true
      → (removal old).0 ≡ ok r
      → leave_existing_mcn m old w ≡ (ok tt, (removal old).1)
  unfolding leave_existing_mcn
  removed_ok old r h e = ground arith

  removed_err :
      (old : MultiClusterNetwork) (b : Error)
      → contains_string old.meta.finalizers (get_finalizer_name m) ≡ true
      → (removal old).0 ≡ err b
      → leave_existing_mcn m old w ≡ (
        err (wrap (str_append "failed to remove finalizer from MCN " old.meta.name) b),
        (removal old).1,
      )
  unfolding leave_existing_mcn
  removed_err old b h e = ground arith

  not_joined :
      (old : MultiClusterNetwork)
      → contains_string old.meta.finalizers (get_finalizer_name m) ≡ false
      → leave_existing_mcn m old w ≡ (ok tt, w)
  unfolding leave_existing_mcn
  not_joined old h = ground arith

  leave_found :
      (name : String) (n : MultiClusterNetwork)
      → (get_mcn m name w).0 ≡ ok n
      → leave_mcn m name w ≡ leave_existing_mcn m n (get_mcn m name w).1
  unfolding leave_mcn
  leave_found name n e = ground arith

  leave_missing :
      (name : String) (b : Error)
      → (get_mcn m name w).0 ≡ err b
      → is_not_found b ≡ true
      → leave_mcn m name w ≡ (ok tt, (get_mcn m name w).1)
  unfolding leave_mcn
  leave_missing name b e d = ground arith

  leave_failed :
      (name : String) (b : Error)
      → (get_mcn m name w).0 ≡ err b
      → is_not_found b ≡ false
      → leave_mcn m name w
        ≡ (err (wrap (str_append "failed to get MCN " name) b), (get_mcn m name w).1)
  unfolding leave_mcn
  leave_failed name b e d = ground arith

module _ {W : Type 0} (m : McnManager W) (stored : W → List MultiClusterNetwork)
    (s : IsServer m stored) where
  abbrev Left : MultiClusterNetwork → List MultiClusterNetwork → Result (Unit {0}) × W → Type 0
  Left old before x = LeaveOutcome (get_finalizer_name m) old before (stored x.1) x.0

  leave_existing_mcn-Left :
      (old : MultiClusterNetwork) (w : W) → Left old (stored w) (leave_existing_mcn m old w)
  leave_existing_mcn-Left old w =
      elim (Bool-cases (contains_string old.meta.finalizers (get_finalizer_name m))) [
        | inr absent ↦
            subst (Left old (stored w)) (sym (not_joined m w old absent)) (inl (absent, refl))
        | inl here ↦ elim (Result-cases (removal m w old).0) [
          | inl (r, e) ↦ subst (Left old (stored w)) (sym (removed_ok m w old r here e)) (
              inr (
                r,
                IsLeft-of_Written _ old _ _ r (
                    subst (Written _ (stored w) (stored (removal m w old).1)) e
                      (update_mcn-Written m stored s _ w)),
              ))
          | inr (b, e) ↦ subst (Left old (stored w)) (sym (removed_err m w old b here e)) (
              subst (Written _ (stored w) (stored (removal m w old).1)) e
                (update_mcn-Written m stored s _ w))
        ]
      ]

  Leaves-of_Left :
      (name : String) (old : MultiClusterNetwork) (before : List MultiClusterNetwork)
      (x : Result (Unit {0}) × W)
      → find name before ≡ some old
      → Left old before x
      → Leaves (get_finalizer_name m) name before (stored x.1) x.0
  Leaves-of_Left name old before (ok _, w) e h = inr (old, e, h)
  Leaves-of_Left name old before (err b, w) e h = h

  abbrev LeavesEnd : String → List MultiClusterNetwork → Result (Unit {0}) × W → Type 0
  LeavesEnd name before x = Leaves (get_finalizer_name m) name before (stored x.1) x.0

  -- On a server that behaves as `IsServer` says and that no other client writes to meanwhile,
  -- LeaveMCN reports success if there is no such network or the cluster is not joined to it, and
  -- then changes nothing; or after it took the cluster's finalizer off, with the VNI, route target,
  -- topology and other clusters' finalizers as they were and the network still stored, unless it
  -- was being deleted and has no finalizer left. It changes nothing on an error.
  pub leave_mcn-Leaves :
      (name : String) (w : W)
      → Leaves
          (get_finalizer_name m)
          name
          (stored w)
          (stored (leave_mcn m name w).1)
          (leave_mcn m name w).0
  leave_mcn-Leaves name w = elim (Result-cases (get_mcn m name w).0) [
    | inl (n, e) ↦
        let kept : stored (get_mcn m name w).1 ≡ stored w = get_mcn-keeps m stored s name w in
        let found : find name (stored w) ≡ some n =
          subst (Read name (stored w)) e (get_mcn-Read m stored s name w) in
        subst (LeavesEnd name (stored w)) (sym (leave_found m w name n e)) (
          Leaves-of_Left name n (stored w) _ found (
            subst (λ before. Left n before (leave_existing_mcn m n (get_mcn m name w).1)) kept
              (leave_existing_mcn-Left n (get_mcn m name w).1)))
    | inr (b, e) ↦ elim (Bool-cases (is_not_found b)) [
      | inl missing ↦ subst (LeavesEnd name (stored w)) (sym (leave_missing m w name b e missing)) (
          inl (
            subst (Read name (stored w)) e (get_mcn-Read m stored s name w) missing,
            get_mcn-keeps m stored s name w,
          ))
      | inr other ↦
          subst (LeavesEnd name (stored w)) (sym (leave_failed m w name b e other))
            (get_mcn-keeps m stored s name w)
    ]
  ]
