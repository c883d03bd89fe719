-- ===== src/Agent/Writes.antt =====
-- The changes that the two loops of the agent make to its cluster's object.
use mcn.Prelude.{ℕ, String, List, ◌≡◌, ◌≢◌, refl, sym}
use mathlib.Core.Path.{subst}
use mcn.Prelude.Int.{ℤ}
use mcn.Crd.{Cluster, ClusterPhase, NodeEndpoint}
use mcn.Agent.{beating, with_endpoints, with_heartbeat}

-- The object with the metadata that the server sets on a write: the version and, because the CRD
-- has no status subresource, so that a change of the status counts too, the generation.
abbrev pub with_version : String → ℤ → Cluster → Cluster
with_version v g c = record c { meta = record c.meta { resource_version = v; generation = g } }

-- A change of the object that leaves the spec and the metadata but for what the server sets.
pub record IsKept (c d : Cluster) : Type 0 where
  pub spec : d.spec ≡ c.spec
  pub meta :
      d.meta
      ≡ record c.meta { resource_version = d.meta.resource_version; generation = d.meta.generation }

-- A heartbeat at the time t: a pending cluster becomes ready, and any other phase stays.
pub record IsBeaten (t : ℕ) (c d : Cluster) : Type 0 where
  pub kept : IsKept c d
  pub last_heartbeat : d.status.last_heartbeat ≡ t
  pub ready : c.status.phase ≡ ClusterPhase.pending → d.status.phase ≡ ClusterPhase.ready
  pub phase : c.status.phase ≢ ClusterPhase.pending → d.status.phase ≡ c.status.phase
  pub endpoints : d.status.endpoints ≡ c.status.endpoints

-- A report of the endpoints.
pub record IsReportedOn (es : List NodeEndpoint) (c d : Cluster) : Type 0 where
  pub kept : IsKept c d
  pub last_heartbeat : d.status.last_heartbeat ≡ c.status.last_heartbeat
  pub phase : d.status.phase ≡ c.status.phase
  pub endpoints : d.status.endpoints ≡ es

beating-ready : (p : ClusterPhase) → p ≡ ClusterPhase.pending → beating p ≡ ClusterPhase.ready
beating-ready ClusterPhase.unset h = cc
beating-ready ClusterPhase.pending h = refl
beating-ready ClusterPhase.ready h = refl
beating-ready ClusterPhase.degraded h = cc

beating_other : (p : ClusterPhase) → p ≢ ClusterPhase.pending → beating p ≡ p
beating_other ClusterPhase.unset h = refl
beating_other ClusterPhase.pending h = absurd (h refl)
beating_other ClusterPhase.ready h = refl
beating_other ClusterPhase.degraded h = refl

pub with_heartbeat-IsBeaten :
    (c d : Cluster) (t : ℕ) (n : String) (g : ℤ)
    → d ≡ with_version n g (with_heartbeat t c)
    → IsBeaten t c d
with_heartbeat-IsBeaten c d t n g e = subst (IsBeaten t c) (sym e) (record {
  kept = record { spec = refl; meta = refl };
  last_heartbeat = refl;
  ready = beating-ready c.status.phase;
  phase = beating_other c.status.phase;
  endpoints = refl;
})

pub with_endpoints-IsReportedOn :
    (c d : Cluster) (es : List NodeEndpoint) (n : String) (g : ℤ)
    → d ≡ with_version n g (with_endpoints es c)
    → IsReportedOn es c d
with_endpoints-IsReportedOn c d es n g e = subst (IsReportedOn es c) (sym e) (record {
  kept = record { spec = refl; meta = refl };
  last_heartbeat = refl;
  phase = refl;
  endpoints = refl;
})
