-- ===== src/Mcn/Membership/Unique.antt =====
-- No two networks on the broker share a VNI, as long as each CreateOrJoinMCN and LeaveMCN runs
-- with no other client's write in between; and what happens otherwise.
use mcn.Prelude.{String, List, ◌≡◌, inl, inr, ap, sym, ◌∙◌, some}
use mathlib.Core.Path.{subst}
use mcn.Kube.{Result, ok, err}
use mcn.Crd.{MultiClusterNetwork, NetworkTopology}
use mcn.Mcn.{McnManager, create_or_join_mcn, leave_mcn}
use mcn.Mcn.Stored.{
  find, find-name, replace, vnis, vnis-replace, vnis-append, vnis-without-IsDistinct, IsDistinct,
  append-IsDistinct,
}
use mcn.Mcn.Server.{IsServer}
use mcn.Mcn.Membership.{IsJoined}
use mcn.Mcn.Membership.Create.{Outcome}
use mcn.Mcn.Membership.Atomic.{create_or_join_mcn-Outcome}
use mcn.Mcn.Membership.Leave.{IsLeft, Leaves, leave_mcn-Leaves}

-- The VNIs are the same after a network was replaced by one of its name and VNI.
replaced_vnis :
    (name : String) (old r : MultiClusterNetwork) (before after : List MultiClusterNetwork)
    → find name before ≡ some old
    → r.meta.name ≡ old.meta.name
    → r.spec.vni ≡ old.spec.vni
    → after ≡ replace r before
    → vnis after ≡ vnis before
replaced_vnis name old r before after e n v h =
    ap vnis h
    ∙ vnis-replace before old r (ap (λ k. find k before) (n ∙ find-name name before old e) ∙ e)
        (sym v)

joined_vnis :
    (f name : String) (old r : MultiClusterNetwork) (before after : List MultiClusterNetwork)
    → find name before ≡ some old
    → IsJoined f old r before after
    → vnis after ≡ vnis before
joined_vnis f name old r before after e h = elim h.stores [
  | inl (_, same) ↦ ap vnis same
  | inr put ↦ replaced_vnis name old r before after e h.name h.vni put
]

Outcome-IsDistinct :
    (f name : String) (topology : NetworkTopology) (before after : List MultiClusterNetwork)
    (res : Result MultiClusterNetwork)
    → Outcome f name topology before after res
    → IsDistinct (vnis before)
    → IsDistinct (vnis after)
Outcome-IsDistinct f name topology before after (ok r) (inl (old, e, h)) d =
    subst IsDistinct (sym (joined_vnis f name old r before after e h)) d
Outcome-IsDistinct f name topology before after (ok r) (inr h) d =
    subst IsDistinct (sym (ap vnis h.stores ∙ vnis-append before r))
      (append-IsDistinct (vnis before) r.spec.vni d h.fresh)
Outcome-IsDistinct f name topology before after (err b) h d = subst IsDistinct (ap vnis (sym h)) d

left-IsDistinct :
    (f name : String) (old r : MultiClusterNetwork) (before after : List MultiClusterNetwork)
    → find name before ≡ some old
    → IsLeft f old r before after
    → IsDistinct (vnis before)
    → IsDistinct (vnis after)
left-IsDistinct f name old r before after e h d = elim h.stores [
  | inl put ↦ subst IsDistinct (sym (replaced_vnis name old r before after e h.name h.vni put)) d
  | inr (_, _, removed) ↦
      subst IsDistinct (ap vnis (sym removed)) (vnis-without-IsDistinct r.meta.name before d)
]

Leaves-IsDistinct :
    (f name : String) (before after : List MultiClusterNetwork) (res : Result (Unit {0}))
    → Leaves f name before after res
    → IsDistinct (vnis before)
    → IsDistinct (vnis after)
Leaves-IsDistinct f name before after (ok _) (inl (_, same)) d =
    subst IsDistinct (ap vnis (sym same)) d
Leaves-IsDistinct f name before after (ok _) (inr (old, e, inl (_, same))) d =
    subst IsDistinct (ap vnis (sym same)) d
Leaves-IsDistinct f name before after (ok _) (inr (old, e, inr (r, h))) d =
    left-IsDistinct f name old r before after e h d
Leaves-IsDistinct f name before after (err b) same d = subst IsDistinct (ap vnis (sym same)) d

-- The agents of several clusters, named by `I`, at work on one broker, one operation at a time.
pub data Step {I W : Type 0} (m : I → McnManager W) : W → W → Type 0 where
  join :
      (i : I) (name : String) (topology : NetworkTopology) (w : W)
      → Step m w (create_or_join_mcn (m i) name topology w).1
  leave : (i : I) (name : String) (w : W) → Step m w (leave_mcn (m i) name w).1

pub data Reach {I W : Type 0} (m : I → McnManager W) (w : W) : W → Type 0 where
  here : Reach m w w
  next : {v u : W} → Reach m w v → Step m v u → Reach m w u

module _ {I W : Type 0} (m : I → McnManager W) (stored : W → List MultiClusterNetwork)
    (s : (i : I) → IsServer (m i) stored) where
  Step-IsDistinct :
      {v u : W} → Step m v u → IsDistinct (vnis (stored v)) → IsDistinct (vnis (stored u))
  Step-IsDistinct (join i name topology w) d =
      Outcome-IsDistinct _ name topology _ _ _
        (create_or_join_mcn-Outcome (m i) stored (s i) name topology w) d
  Step-IsDistinct (leave i name w) d =
      Leaves-IsDistinct _ name _ _ _ (leave_mcn-Leaves (m i) stored (s i) name w) d

  -- From a broker that behaves as `IsServer` says and where no two networks share a VNI, any
  -- sequence of joins and leaves by any clusters, each running undisturbed and successful or not,
  -- ends in a broker where no two networks share a VNI.
  pub Reach-IsDistinct :
      {w u : W} → IsDistinct (vnis (stored w)) → Reach m w u → IsDistinct (vnis (stored u))
  Reach-IsDistinct d here = d
  Reach-IsDistinct d (next r st) = Step-IsDistinct st (Reach-IsDistinct d r)
