-- ===== src/Registration/Registered.antt =====
-- What a successful registration has done.
use mcn.Prelude.{
  true, false, ◌⊎◌, Bool, if◌then◌else◌, ◌≡◌, ◌≢◌, inl, inr, sym, ap, ◌∙◌, arith, Bool-cases,
}
use mcn.Kube.{is_not_found, Result, ok, err, Error, Result-cases, Value, Exec}
use mcn.Crd.{Cluster}
use mcn.Registration.{
  NewAgent, clusters, find_local_cluster, check_allocation, with_allocation, register_cluster,
}

module _ {W S : Type 0} (a : NewAgent W S) where
  abbrev finding : W → Result (Bool × Cluster) × W
  finding = find_local_cluster a

  -- The write at the end: an update if the object was there, otherwise a creation.
  abbrev pub writing : Bool → Value → Exec W Value
  writing exists v = if exists then (clusters a).update v else (clusters a).create v

  -- The cluster `c` is the object that was there, or a new one, with the allocation that passed the
  -- tests; and the server accepted it.
  pub record IsRegistered (c : Cluster) (later : W) : Type 0 where
    pub w : W
    pub exists : Bool
    pub old : Cluster
    pub encoded : Value
    pub accepted : Value
    pub finds : (finding w).0 ≡ ok (exists, old)
    pub passes : check_allocation a ≡ ok tt
    pub vtep_cidr : c.spec.vtep_cidr ≡ a.operator_vtep_cidr
    pub asn : c.spec.asn ≡ a.operator_asn
    pub last_heartbeat : c.status.last_heartbeat ≡ a.now (finding w).1
    pub kept :
        (c.meta ≡ old.meta)
        × (c.spec.cluster_id ≡ old.spec.cluster_id)
        × (c.status.endpoints ≡ old.status.endpoints)
    pub origin :
        ((exists ≡ true)
          × ((u : Value) × (((clusters a).get a.cluster_id w).0 ≡ ok u)
              × (a.converter.from_unstructured u ≡ ok old)))
        ⊎ ((exists ≡ false)
            × ((e : Error) × (((clusters a).get a.cluster_id w).0 ≡ err e)
                × (is_not_found e ≡ true))
            × (old.meta.name ≡ a.cluster_id)
            × (old.spec.cluster_id ≡ a.cluster_id))
    pub encodes : a.converter.to_unstructured c ≡ ok encoded
    pub writes : writing exists encoded (finding w).1 ≡ (ok accepted, later)

  found :
      (w : W) (exists : Bool) (old : Cluster)
      → (finding w).0 ≡ ok (exists, old)
      → ((exists ≡ true)
          × ((u : Value) × (((clusters a).get a.cluster_id w).0 ≡ ok u)
              × (a.converter.from_unstructured u ≡ ok old)))
        ⊎ ((exists ≡ false)
            × ((e : Error) × (((clusters a).get a.cluster_id w).0 ≡ err e)
                × (is_not_found e ≡ true))
            × (old.meta.name ≡ a.cluster_id)
            × (old.spec.cluster_id ≡ a.cluster_id))
  unfolding find_local_cluster
  found w exists old h = elim (Result-cases ((clusters a).get a.cluster_id w).0) [
    | inl (u, g) ↦ elim (Result-cases (a.converter.from_unstructured u)) [
      | inr (e, k) ↦ absurd (ground arith)
      | inl (d, k) ↦ inl (ground arith, (u, g, ground arith))
    ]
    | inr (e, g) ↦ elim (Bool-cases (is_not_found e)) [
      | inr other ↦ absurd (ground arith)
      | inl missing ↦ inr (ground arith, (e, g, missing), ground arith, ground arith)
    ]
  ]

  unfound :
      (w w' : W) (c : Cluster) (e : Error)
      → (finding w).0 ≡ err e
      → register_cluster a w ≢ (ok c, w')
  unfolding register_cluster
  unfound w w' c e h = ground arith

  refused :
      (w w' : W) (c : Cluster) (x : Bool × Cluster) (e : Error)
      → (finding w).0 ≡ ok x
      → check_allocation a ≡ err e
      → register_cluster a w ≢ (ok c, w')
  unfolding register_cluster
  refused w w' c x e h k = ground arith

  module _ (w w' : W) (c : Cluster) (exists : Bool) (old : Cluster)
      (finds : (finding w).0 ≡ ok (exists, old)) (passes : check_allocation a ≡ ok tt) where
    abbrev submitted : Cluster
    submitted = with_allocation a (a.now (finding w).1) old

    unencoded :
        (e : Error)
        → a.converter.to_unstructured submitted ≡ err e
        → register_cluster a w ≢ (ok c, w')
    unfolding register_cluster
    unencoded e h = ground arith

    unwritten :
        (v : Value) (e : Error)
        → a.converter.to_unstructured submitted ≡ ok v
        → (writing exists v (finding w).1).0 ≡ err e
        → register_cluster a w ≢ (ok c, w')
    unfolding register_cluster
    unwritten v e h k = elim (Bool-cases exists) [
      | inl there ↦ ground arith
      | inr missing ↦ ground arith
    ]

    written :
        (v x : Value)
        → a.converter.to_unstructured submitted ≡ ok v
        → (writing exists v (finding w).1).0 ≡ ok x
        → register_cluster a w ≡ (ok submitted, (writing exists v (finding w).1).1)
    unfolding register_cluster
    written v x h k = elim (Bool-cases exists) [
      | inl there ↦ ground arith
      | inr missing ↦ ground arith
    ]

  pub register_cluster-IsRegistered :
      (w w' : W) (c : Cluster) → register_cluster a w ≡ (ok c, w') → IsRegistered c w'
  register_cluster-IsRegistered w w' c r = elim (Result-cases (finding w).0) [
    | inr (e, h) ↦ absurd (unfound w w' c e h r)
    | inl ((exists, old), h) ↦ elim (Result-cases (check_allocation a)) [
      | inr (e, k) ↦ absurd (refused w w' c (exists, old) e h k r)
      | inl (_, k) ↦
          let c' = with_allocation a (a.now (finding w).1) old in
          elim (Result-cases (a.converter.to_unstructured c')) [
            | inr (e, l) ↦ absurd (unencoded w w' c exists old h k e l r)
            | inl (v, l) ↦ elim (Result-cases (writing exists v (finding w).1).0) [
              | inr (e, m) ↦ absurd (unwritten w w' c exists old h k v e l m r)
              | inl (x, m) ↦
                  let run = written w w' c exists old h k v x l m in
                  let same : c' ≡ c = cc (run, r) in
                  let last : (writing exists v (finding w).1).1 ≡ w' = cc (run, r) in
                  record {
                    w = w;
                    exists = exists;
                    old = old;
                    encoded = v;
                    accepted = x;
                    finds = h;
                    passes = k;
                    vtep_cidr = ap (λ x. x.spec.vtep_cidr) (sym same);
                    asn = ap (λ x. x.spec.asn) (sym same);
                    last_heartbeat = ap (λ x. x.status.last_heartbeat) (sym same);
                    kept = (
                      ap (λ x. x.meta) (sym same),
                      ap (λ x. x.spec.cluster_id) (sym same),
                      ap (λ x. x.status.endpoints) (sym same),
                    );
                    origin = found w exists old h;
                    encodes = ap a.converter.to_unstructured (sym same) ∙ l;
                    writes = λ i. (m i, last i);
                  }
            ]
          ]
    ]
  ]
