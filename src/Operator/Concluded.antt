-- ===== src/Operator/Concluded.antt =====
-- The status at the end of a reconciliation, and when it is the one that was read.
use mcn.Prelude.{
  Bool, Option, if◌then◌else◌, ◌↔◌, refl, eq_iff, String, true, false, none, some, ◌&&◌, ◌≡◌, ◌≢◌,
  inl, inr, ◌∙◌, ap, arith, Bool-cases,
}
use mcn.Prelude.Int.{ℤ, pos, eqb_ℤ, eqb_ℤ→eq, eqb_ℤ_refl}
use mcn.Kube.Workloads.{Deployment}
use mcn.Crd.{Skynet, SkynetStatus, SkynetPhase}
use mcn.Operator.{or_one, deployment_rollout_complete}
use mcn.Operator.Reconcile.{same_phase, same_bool, same_status, concluded}

same_phase-eq : (p q : SkynetPhase) → same_phase p q ≡ true → p ≡ q
same_phase-eq SkynetPhase.unset SkynetPhase.unset h = refl
same_phase-eq SkynetPhase.unset SkynetPhase.pending h = cc
same_phase-eq SkynetPhase.unset SkynetPhase.active h = cc
same_phase-eq SkynetPhase.unset SkynetPhase.error h = cc
same_phase-eq SkynetPhase.pending SkynetPhase.unset h = cc
same_phase-eq SkynetPhase.pending SkynetPhase.pending h = refl
same_phase-eq SkynetPhase.pending SkynetPhase.active h = cc
same_phase-eq SkynetPhase.pending SkynetPhase.error h = cc
same_phase-eq SkynetPhase.active SkynetPhase.unset h = cc
same_phase-eq SkynetPhase.active SkynetPhase.pending h = cc
same_phase-eq SkynetPhase.active SkynetPhase.active h = refl
same_phase-eq SkynetPhase.active SkynetPhase.error h = cc
same_phase-eq SkynetPhase.error SkynetPhase.unset h = cc
same_phase-eq SkynetPhase.error SkynetPhase.pending h = cc
same_phase-eq SkynetPhase.error SkynetPhase.active h = cc
same_phase-eq SkynetPhase.error SkynetPhase.error h = refl

same_bool-eq : (a b : Bool) → same_bool a b ≡ true → a ≡ b
same_bool-eq true true h = refl
same_bool-eq true false h = cc
same_bool-eq false true h = cc
same_bool-eq false false h = refl

-- reflect.DeepEqual says that two statuses are equal only if they are.
pub same_status-eq : (a b : SkynetStatus) → same_status a b ≡ true → a ≡ b
unfolding same_status
same_status-eq a b h =
    let phase = same_phase-eq a.phase b.phase (ground arith) in
    let vtep = (eq_iff a.vtep_cidr b.vtep_cidr).0 (ground arith) in
    let asn = eqb_ℤ→eq a.asn b.asn (ground arith) in
    let ready = same_bool-eq a.agent_ready b.agent_ready (ground arith) in
    let generation = eqb_ℤ→eq a.observed_generation b.observed_generation (ground arith) in
    λ i. record {
      phase = phase i;
      vtep_cidr = vtep i;
      asn = asn i;
      agent_ready = ready i;
      observed_generation = generation i;
    }

-- All replicas that the Deployment wants, one where it does not say, are updated, ready and
-- available, and it wants some.
abbrev wanted : Option ℤ → ℤ
wanted none = pos 1
wanted (some n) = n

pub record IsRolledOut (dep : Deployment) : Type 0 where
  pub some_wanted : wanted dep.replicas ≢ pos 0
  pub updated : dep.updated_replicas ≡ wanted dep.replicas
  pub ready : dep.ready_replicas ≡ wanted dep.replicas
  pub available : dep.available_replicas ≡ wanted dep.replicas

eqb_ℤ-other : (y z : ℤ) → y ≢ z → eqb_ℤ y z ≡ false
eqb_ℤ-other y z n = elim (Bool-cases (eqb_ℤ y z)) [
  | inl same ↦ absurd (n (eqb_ℤ→eq y z same))
  | inr other ↦ other
]

or_one-wanted : (o : Option ℤ) → or_one o ≡ wanted o
or_one-wanted none = refl
or_one-wanted (some n) = refl

all_true :
    (z a b c : Bool)
    → z ≡ false
    → a ≡ true
    → b ≡ true
    → c ≡ true
    → (if z then false else (a && b && c)) ≡ true
all_true z a b c h k l m = ground arith

abbrev rolled : ℤ → Deployment → Bool
rolled want dep =
    if eqb_ℤ want (pos 0)
    then false
    else eqb_ℤ dep.updated_replicas want
      && eqb_ℤ dep.ready_replicas want
      && eqb_ℤ dep.available_replicas want

deployment_rollout_complete_iff :
    (dep : Deployment) → (deployment_rollout_complete (some dep) ≡ true) ↔ IsRolledOut dep
unfolding deployment_rollout_complete
deployment_rollout_complete_iff dep = (
  λ h. record {
    some_wanted = λ e. ground (arith, eqb_ℤ_refl (pos 0));
    updated = eqb_ℤ→eq dep.updated_replicas (wanted dep.replicas) (ground arith);
    ready = eqb_ℤ→eq dep.ready_replicas (wanted dep.replicas) (ground arith);
    available = eqb_ℤ→eq dep.available_replicas (wanted dep.replicas) (ground arith);
  },
  λ i.
      let want = wanted dep.replicas in
      let same = λ (x : ℤ) (e : x ≡ want). ap (λ y. eqb_ℤ y want) e ∙ eqb_ℤ_refl want in
      ap (λ n. rolled n dep) (or_one-wanted dep.replicas)
      ∙ all_true (eqb_ℤ want (pos 0)) (eqb_ℤ dep.updated_replicas want)
          (eqb_ℤ dep.ready_replicas want) (eqb_ℤ dep.available_replicas want)
          (eqb_ℤ-other want (pos 0) i.some_wanted) (same dep.updated_replicas i.updated)
          (same dep.ready_replicas i.ready) (same dep.available_replicas i.available),
)

-- The status that a finished run leaves.
pub record IsStatus (sk : Skynet) (vtep : String) (asn : ℤ) (dep : Deployment) (st : SkynetStatus)
    : Type 0 where
  pub phase : st.phase ≡ SkynetPhase.active
  pub vtep_cidr : st.vtep_cidr ≡ vtep
  pub asn_allocated : st.asn ≡ asn
  pub observed_generation : st.observed_generation ≡ sk.meta.generation
  pub agent_ready : (st.agent_ready ≡ true) ↔ IsRolledOut dep

pub concluded-IsStatus :
    (sk : Skynet) (vtep : String) (asn : ℤ) (dep : Deployment)
    → IsStatus sk vtep asn dep (concluded sk vtep asn dep).status
concluded-IsStatus sk vtep asn dep = record {
  phase = refl;
  vtep_cidr = refl;
  asn_allocated = refl;
  observed_generation = refl;
  agent_ready = deployment_rollout_complete_iff dep;
}
