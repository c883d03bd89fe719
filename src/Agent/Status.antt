-- ===== src/Agent/Status.antt =====
-- What a successful status update and a successful registration have done.
use mcn.Prelude.{ℕ, zero, suc, ◌*◌, ◌==◌, List, ◌≡◌, ◌≢◌, inl, inr, arith, if◌then◌else◌}
use mcn.Kube.{Result, ok, err, Error, Result-cases, Value}
use mcn.Crd.{Cluster, NodeEndpoint}
use mcn.Agent.{Agent, clusters, with_endpoints, update_attempts, update_cluster_status}

module _ {W S : Type 0} (a : Agent W S) (endpoints : List NodeEndpoint) where
  abbrev reading : W → Result Value × W
  reading w = (clusters a).get a.cluster_id w

  -- The run that ended in the world `w'` read the cluster's object, put the endpoints in its
  -- status, and had the result accepted as its last call.
  pub record IsReported (w' : W) : Type 0 where
    pub w : W
    pub object_read : Value
    pub cluster : Cluster
    pub object_written : Value
    pub accepted : Value
    pub reads : (reading w).0 ≡ ok object_read
    pub converts : a.converter.from_unstructured object_read ≡ ok cluster
    pub encodes : a.converter.to_unstructured (with_endpoints endpoints cluster) ≡ ok object_written
    pub writes : ((clusters a).update object_written (reading w).1).0 ≡ ok accepted
    pub last : ((clusters a).update object_written (reading w).1).1 ≡ w'

  unread :
      (n backoff : ℕ) (w w' : W) (e : Error)
      → (reading w).0 ≡ err e
      → update_attempts a (suc n) backoff endpoints w ≢ (ok tt, w')
  unfolding update_attempts
  unread n backoff w w' e h = ground arith

  unconverted :
      (n backoff : ℕ) (w w' : W) (u : Value) (e : Error)
      → (reading w).0 ≡ ok u
      → a.converter.from_unstructured u ≡ err e
      → update_attempts a (suc n) backoff endpoints w ≢ (ok tt, w')
  unfolding update_attempts
  unconverted n backoff w w' u e h k = ground arith

  unencoded :
      (n backoff : ℕ) (w w' : W) (u : Value) (c : Cluster) (e : Error)
      → (reading w).0 ≡ ok u
      → a.converter.from_unstructured u ≡ ok c
      → a.converter.to_unstructured (with_endpoints endpoints c) ≡ err e
      → update_attempts a (suc n) backoff endpoints w ≢ (ok tt, w')
  unfolding update_attempts
  unencoded n backoff w w' u c e h k l = ground arith

  writes_once :
      (n backoff : ℕ) (w w' : W) (u v x : Value) (c : Cluster)
      → (reading w).0 ≡ ok u
      → a.converter.from_unstructured u ≡ ok c
      → a.converter.to_unstructured (with_endpoints endpoints c) ≡ ok v
      → ((clusters a).update v (reading w).1).0 ≡ ok x
      → update_attempts a (suc n) backoff endpoints w ≡ (ok tt, w')
      → ((clusters a).update v (reading w).1).1 ≡ w'
  unfolding update_attempts
  writes_once n backoff w w' u v x c h k l m r = ground arith

  retries :
      (n backoff : ℕ) (w w' : W) (u v : Value) (c : Cluster) (e : Error)
      → (reading w).0 ≡ ok u
      → a.converter.from_unstructured u ≡ ok c
      → a.converter.to_unstructured (with_endpoints endpoints c) ≡ ok v
      → ((clusters a).update v (reading w).1).0 ≡ err e
      → update_attempts a (suc n) backoff endpoints w ≡ (ok tt, w')
      → (w1 : W) × (update_attempts a n (backoff * 2) endpoints w1 ≡ (ok tt, w'))
  unfolding update_attempts
  retries n backoff w w' u v c e h k l m r =
      let failed = ((clusters a).update v (reading w).1).1 in
      (if n == 0 then failed else a.sleep backoff failed, ground arith)

  given_up : (backoff : ℕ) (w w' : W) → update_attempts a 0 backoff endpoints w ≢ (ok tt, w')
  unfolding update_attempts
  given_up backoff w w' = ground arith

  update_attempts-IsReported :
      (n backoff : ℕ) (w w' : W)
      → update_attempts a n backoff endpoints w ≡ (ok tt, w')
      → IsReported w'
  update_attempts-IsReported zero backoff w w' r = absurd (given_up backoff w w' r)
  update_attempts-IsReported (suc n) backoff w w' r = elim (Result-cases (reading w).0) [
    | inr (e, h) ↦ absurd (unread n backoff w w' e h r)
    | inl (u, h) ↦ elim (Result-cases (a.converter.from_unstructured u)) [
      | inr (e, k) ↦ absurd (unconverted n backoff w w' u e h k r)
      | inl (c, k) ↦
          elim (Result-cases (a.converter.to_unstructured (with_endpoints endpoints c))) [
            | inr (e, l) ↦ absurd (unencoded n backoff w w' u c e h k l r)
            | inl (v, l) ↦ elim (Result-cases ((clusters a).update v (reading w).1).0) [
              | inl (x, m) ↦ record {
                w = w;
                object_read = u;
                cluster = c;
                object_written = v;
                accepted = x;
                reads = h;
                converts = k;
                encodes = l;
                writes = m;
                last = writes_once n backoff w w' u v x c h k l m r;
              }
              | inr (e, m) ↦
                  let (w1, again) = retries n backoff w w' u v c e h k l m r in
                  update_attempts-IsReported n (backoff * 2) w1 w' again
            ]
          ]
    ]
  ]

  -- If updateClusterStatus succeeds, at whichever attempt, then its last call was an accepted update
  -- of the cluster's object as it had just read it, with the endpoints in its status.
  pub update_cluster_status-IsReported :
      (w w' : W) → update_cluster_status a endpoints w ≡ (ok tt, w') → IsReported w'
  unfolding update_cluster_status
  update_cluster_status-IsReported w w' r = update_attempts-IsReported 3 1 w w' r
