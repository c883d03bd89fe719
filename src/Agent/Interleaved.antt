-- ===== src/Agent/Interleaved.antt =====
-- The heartbeat and the status report of the agent run in two loops and write the same object. On a
-- server with optimistic concurrency control each success is one atomic change of that object.
use mcn.Prelude.{String, false, some, List, ◌≡◌, ◌≢◌, inl, inr, refl, sym, ap, ◌∙◌, str_eq, arith}
use mathlib.Core.Path.{subst}
use mcn.Kube.{ok_inj, Result, ok, err, Error, Result-cases, Value}
use mcn.Crd.{Cluster, NodeEndpoint}
use mcn.Agent.{
  Agent, clusters, with_endpoints, with_heartbeat, update_cluster_status, update_heartbeat,
}
use mcn.Prelude.Int.{ℤ}
use mcn.Agent.Writes.{
  with_version, IsBeaten, with_heartbeat-IsBeaten, IsReportedOn, with_endpoints-IsReportedOn,
}
use mcn.Agent.Status.{update_cluster_status-IsReported}

-- What the API server documents of the agent's object: `seen w` is the object at the moment when the
-- server handles a call that was made in the world `w`, whatever other clients did until then, and
-- `stored w` the object when a call that ended in `w` was answered. A resource version is not empty,
-- and an object that has the same one when it is read and at the next call has not changed between;
-- an update is accepted only with the version of the object as it is, and then the object is the
-- submitted one with the version and the generation that the server gives it.
pub record IsVersioned {W S : Type 0} (a : Agent W S) (seen stored : W → Cluster) : Type 0 where
  pub reads :
      (w : W) (u : Value)
      → ((clusters a).get a.cluster_id w).0 ≡ ok u
      → a.converter.from_unstructured u ≡ ok (seen w)
  pub versions :
      (w : W)
      → (seen w).meta.resource_version
        ≡ (seen ((clusters a).get a.cluster_id w).1).meta.resource_version
      → seen w ≡ seen ((clusters a).get a.cluster_id w).1
  pub named : (w : W) → str_eq (seen w).meta.resource_version "" ≡ false
  pub accepts :
      (c : Cluster) (v x : Value) (w : W)
      → a.converter.to_unstructured c ≡ ok v
      → ((clusters a).update v w).0 ≡ ok x
      → str_eq c.meta.resource_version "" ≡ false
      → (c.meta.resource_version ≡ (seen w).meta.resource_version)
        × ((n : String) × (g : ℤ) × (stored ((clusters a).update v w).1 ≡ with_version n g c))

module _ {W S : Type 0} (a : Agent W S) (seen stored : W → Cluster)
    (s : IsVersioned a seen stored) where
  abbrev reading : W → Result Value × W
  reading w = (clusters a).get a.cluster_id w

  -- An update of what was read, changed but for its version, is one of the object as it is.
  atomic :
      (f : Cluster → Cluster) (w : W) (x y : Value)
      → ((c : Cluster) → (f c).meta.resource_version ≡ c.meta.resource_version)
      → a.converter.to_unstructured (f (seen w)) ≡ ok x
      → ((clusters a).update x (reading w).1).0 ≡ ok y
      → (n : String) × (g : ℤ) × (stored ((clusters a).update x (reading w).1).1
          ≡ with_version n g (f (seen (reading w).1)))
  atomic f w x y keeps e u =
      let v = (reading w).1 in
      let named = ap (λ t. str_eq t "") (keeps (seen w)) ∙ s.named w in
      let (version, (n, g, stores)) = s.accepts (f (seen w)) x y v e u named in
      let same = s.versions w (sym (keeps (seen w)) ∙ version) in
      (n, g, stores ∙ ap (λ c. with_version n g (f c)) same)

  module _ (w w' : W) (kept : Cluster) where
    abbrev beaten : Cluster → Cluster
    beaten = with_heartbeat (a.now (reading w).1)

    unread : (e : Error) → (reading w).0 ≡ err e → update_heartbeat a (some kept) w ≢ (ok tt, w')
    unfolding update_heartbeat
    unread e h = ground arith

    unencoded :
        (u : Value) (e : Error)
        → (reading w).0 ≡ ok u
        → a.converter.from_unstructured u ≡ ok (seen w)
        → a.converter.to_unstructured (beaten (seen w)) ≡ err e
        → update_heartbeat a (some kept) w ≢ (ok tt, w')
    unfolding update_heartbeat
    unencoded u e h k l = ground arith

    unwritten :
        (u v : Value) (e : Error)
        → (reading w).0 ≡ ok u
        → a.converter.from_unstructured u ≡ ok (seen w)
        → a.converter.to_unstructured (beaten (seen w)) ≡ ok v
        → ((clusters a).update v (reading w).1).0 ≡ err e
        → update_heartbeat a (some kept) w ≢ (ok tt, w')
    unfolding update_heartbeat
    unwritten u v e h k l m = ground arith

    written :
        (u v x : Value)
        → (reading w).0 ≡ ok u
        → a.converter.from_unstructured u ≡ ok (seen w)
        → a.converter.to_unstructured (beaten (seen w)) ≡ ok v
        → ((clusters a).update v (reading w).1).0 ≡ ok x
        → update_heartbeat a (some kept) w ≡ (ok tt, w')
        → ((clusters a).update v (reading w).1).1 ≡ w'
    unfolding update_heartbeat
    written u v x h k l m r = ground arith

    -- A heartbeat that succeeds is one atomic write. On a server that behaves as `IsVersioned` says,
    -- and whatever other clients write between the calls, it has changed the object as it was when
    -- the write came, which is after the read, by the time and the step from pending to ready alone, but for what the server sets:
    -- the endpoints that a status report wrote in between are kept, or the heartbeat fails.
    pub update_heartbeat-Write :
        update_heartbeat a (some kept) w ≡ (ok tt, w')
        → IsBeaten (a.now (reading w).1) (seen (reading w).1) (stored w')
    update_heartbeat-Write r = elim (Result-cases (reading w).0) [
      | inr (e, h) ↦ absurd (unread e h r)
      | inl (u, h) ↦
          let k = s.reads w u h in
          elim (Result-cases (a.converter.to_unstructured (beaten (seen w)))) [
            | inr (e, l) ↦ absurd (unencoded u e h k l r)
            | inl (v, l) ↦ elim (Result-cases ((clusters a).update v (reading w).1).0) [
              | inr (e, m) ↦ absurd (unwritten u v e h k l m r)
              | inl (x, m) ↦
                  let now = a.now (reading w).1 in
                  let c = seen (reading w).1 in
                  let (n, g, stores) = atomic beaten w v x (λ c. refl) l m in
                  let e = ap stored (sym (written u v x h k l m r)) ∙ stores in
                  with_heartbeat-IsBeaten c (stored w') now n g e
            ]
          ]
    ]

  -- A status report that succeeds is one atomic write too, at whichever attempt, under the same
  -- conditions: its last call wrote the object as it was when that call came, with the endpoints
  -- changed alone but for what the server sets, and keeps the time and the phase that a heartbeat
  -- wrote in between.
  pub update_cluster_status-Write :
      (es : List NodeEndpoint) (w w' : W)
      → update_cluster_status a es w ≡ (ok tt, w')
      → (u : W) × (x : Value) × (w' ≡ ((clusters a).update x (reading u).1).1)
        × IsReportedOn es (seen (reading u).1) (stored w')
  update_cluster_status-Write es w w' r =
      let i = update_cluster_status-IsReported a es w w' r in
      let same : ok i.cluster ≡ ok (seen i.w) =
        sym i.converts ∙ s.reads i.w i.object_read i.reads in
      let encodes : a.converter.to_unstructured (with_endpoints es (seen i.w))
          ≡ ok i.object_written =
        subst (λ c. a.converter.to_unstructured (with_endpoints es c) ≡ ok i.object_written)
          (ok_inj same) i.encodes in
      let (n, g, stores) =
        atomic (with_endpoints es) i.w i.object_written i.accepted (λ c. refl) encodes i.writes in
      let c = seen (reading i.w).1 in
      let e = ap stored (sym i.last) ∙ stores in
      (i.w, i.object_written, sym i.last, with_endpoints-IsReportedOn c (stored w') es n g e)
