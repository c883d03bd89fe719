-- ===== src/AgentPod/Applied.antt =====
-- What a successful reconciliation of the agent's Deployment has written.
use mcn.Prelude.{String, true, false, Option, ◌≡◌, ◌≢◌, ◌⊎◌, inl, inr, sym, ◌∙◌, arith, Bool-cases}
use mcn.Kube.{Result, ok, err, Error, is_not_found, Result-cases}
use mcn.Kube.Workloads.{WorkloadMeta, Deployment, TypedClient}
use mcn.Names.{agent_component}
use mcn.Crd.{Skynet}
use mcn.Pools.{Pools}
use mcn.AgentPod.{
  SetController, updated, new_skynet_agent_deployment, create_deployment, update_deployment,
  reconcile_skynet_agent_deployment,
}

module _ {W : Type 0} (set_controller : SetController) (c : TypedClient W Deployment) (sk : Skynet)
    (desired : Deployment) where
  -- The server accepted a new Deployment that is `desired` with its owner, and `dep` is what it had
  -- when it was read afterwards.
  pub record IsCreated (dep : Deployment) (later : W) : Type 0 where
    pub owned : WorkloadMeta
    pub w : W
    pub accepted : Deployment
    pub owns : set_controller sk desired.meta ≡ ok owned
    pub creates : (c.create (record desired { meta = owned }) w).0 ≡ ok accepted
    pub reads :
        c.get sk.meta.namespace agent_component (c.create (record desired { meta = owned }) w).1
        ≡ (ok dep, later)

  -- The server accepted the Deployment that it had, with its owner and the labels, replicas,
  -- selector and template of `desired`, as `dep`.
  pub record IsUpdated (dep : Deployment) (later : W) : Type 0 where
    pub old : Deployment
    pub owned : WorkloadMeta
    pub w : W
    pub reads : (c.get sk.meta.namespace agent_component w).0 ≡ ok old
    pub owns : set_controller sk old.meta ≡ ok owned
    pub writes :
        c.update (updated desired owned old) (c.get sk.meta.namespace agent_component w).1
        ≡ (ok dep, later)

  create_deployment-IsCreated :
      (dep : Deployment) (w w' : W)
      → create_deployment set_controller c sk desired w ≡ (ok dep, w')
      → IsCreated dep w'
  unfolding create_deployment
  create_deployment-IsCreated dep w w' h = elim (Result-cases (set_controller sk desired.meta)) [
    | inr (e, k) ↦ absurd (ground arith)
    | inl (owned, k) ↦ elim (Result-cases (c.create (record desired { meta = owned }) w).0) [
      | inr (e, l) ↦ absurd (ground arith)
      | inl (x, l) ↦
          elim (Result-cases
            (c.get sk.meta.namespace agent_component
              (c.create (record desired { meta = owned }) w).1).0) [
                | inr (e, m) ↦ absurd (ground arith)
                | inl (y, m) ↦ record {
                  owned = owned;
                  w = w;
                  accepted = x;
                  owns = k;
                  creates = l;
                  reads = ground arith;
                }
              ]
    ]
  ]

  update_deployment-writes :
      (dep old : Deployment) (w w' : W)
      → update_deployment set_controller c sk desired old w ≡ (ok dep, w')
      → (owned : WorkloadMeta) × (set_controller sk old.meta ≡ ok owned)
        × (c.update (updated desired owned old) w ≡ (ok dep, w'))
  unfolding update_deployment
  update_deployment-writes dep old w w' h = elim (Result-cases (set_controller sk old.meta)) [
    | inr (e, k) ↦ absurd (ground arith)
    | inl (owned, k) ↦ elim (Result-cases (c.update (updated desired owned old) w).0) [
      | inr (e, l) ↦ absurd (ground arith)
      | inl (x, l) ↦ (owned, k, ground arith)
    ]
  ]

module _ {W : Type 0} (set_controller : SetController) (c : TypedClient W Deployment) (sk : Skynet)
    (image : String) (pools : Option Pools) where
  abbrev desired_deployment : Deployment
  desired_deployment = new_skynet_agent_deployment sk image pools

  abbrev reading : W → Result Deployment × W
  reading w = c.get sk.meta.namespace agent_component w

  abbrev running : W → Result Deployment × W
  running = reconcile_skynet_agent_deployment set_controller c sk image pools

  -- How a run ends in the Deployment `dep`.
  abbrev pub IsApplied : Deployment → W → Type 0
  IsApplied dep later =
      IsCreated set_controller c sk desired_deployment dep later
      ⊎ IsUpdated set_controller c sk desired_deployment dep later

  on_found :
      (old : Deployment) (w : W)
      → (reading w).0 ≡ ok old
      → running w ≡ update_deployment set_controller c sk desired_deployment old (reading w).1
  unfolding reconcile_skynet_agent_deployment
  on_found old w h = ground arith

  on_missing :
      (e : Error) (w : W)
      → (reading w).0 ≡ err e
      → is_not_found e ≡ true
      → running w ≡ create_deployment set_controller c sk desired_deployment (reading w).1
  unfolding reconcile_skynet_agent_deployment
  on_missing e w h k = ground arith

  on_failure :
      (e : Error) (w w' : W) (dep : Deployment)
      → (reading w).0 ≡ err e
      → is_not_found e ≡ false
      → running w ≢ (ok dep, w')
  unfolding reconcile_skynet_agent_deployment
  on_failure e w w' dep h k = ground arith

  -- If reconcileSkynetAgentDeployment succeeds, then the server accepted the Deployment that the
  -- operator wants: a new one, controlled by the object and then read back; or, if there was one,
  -- that one with its status kept, the object as its controller, and the labels, replicas, selector
  -- and template that the operator wants. The Deployment returned is the server's.
  pub reconcile_skynet_agent_deployment-IsApplied :
      (dep : Deployment) (w w' : W) → running w ≡ (ok dep, w') → IsApplied dep w'
  reconcile_skynet_agent_deployment-IsApplied dep w w' h = elim (Result-cases (reading w).0) [
    | inl (old, k) ↦
        let (owned, o, u) =
          update_deployment-writes set_controller c sk desired_deployment dep old (reading w).1 w'
            (sym (on_found old w k) ∙ h) in
        inr (record { old = old; owned = owned; w = w; reads = k; owns = o; writes = u })
    | inr (e, k) ↦ elim (Bool-cases (is_not_found e)) [
      | inr other ↦ absurd (on_failure e w w' dep k other h)
      | inl missing ↦ inl (
          create_deployment-IsCreated set_controller c sk desired_deployment dep (reading w).1 w'
            (sym (on_missing e w k missing) ∙ h))
    ]
  ]
