-- ===== src/Install/Present.antt =====
-- A start of the operator puts in place what is missing, and changes nothing of what is there.
use mcn.Prelude.{
  String, true, false, Option, none, some, ◌≡◌, ◌⊎◌, refl, sym, ap, ◌∙◌, str_eq, arith, inl, inr,
  Bool-cases, str_append, ℕ, zero, suc,
}
use mathlib.Core.Path.{subst}
use mcn.Kube.{Exec, ok, err, Error, is_already_exists, wrap, Result-cases, then-eq-ok, ◌>>◌}
use mcn.Kube.Workloads.{Object, path}
use mcn.Names.{broker_component, broker_service_account, agent_service_account}
use mcn.Install.{
  the_namespace, the_service_account, the_deployment, broker_image, ensure, ensure_namespace,
  ensure_service_account, ensure_deployment, install, ticks,
}

-- What the API server documents of Create where no other client writes in between: `held k w` is
-- the object at the path k, and `defaulted x` is x with the fields that the server adds.
pub record IsServed {W : Type 0} (create : Object → Exec W Object) (defaulted : Object → Object)
    (held : String → W → Option Object) : Type 0 where
  pub creates :
      (x y : Object) (w : W)
      → (create x w).0 ≡ ok y
      → (held (path x) w ≡ none) × (held (path x) (create x w).1 ≡ some (defaulted x))
  pub meets :
      (x : Object) (e : Error) (w : W)
      → (create x w).0 ≡ err e
      → is_already_exists e ≡ true
      → (z : Object) × (held (path x) w ≡ some z) × (held (path x) (create x w).1 ≡ some z)
  pub others :
      (x : Object) (k : String) (w : W)
      → str_eq k (path x) ≡ false
      → held k (create x w).1 ≡ held k w

-- The object that is there, or the one that is put there.
abbrev pub kept_or : Option Object → Object → Object
kept_or none x = x
kept_or (some z) x = z

module _ {W : Type 0} (create : Object → Exec W Object) (what : String) (x : Object) (w : W) where
  -- The world is the one after the call of Create, however ensure ends.
  ensure_world : (ensure create what x w).1 ≡ (create x w).1
  unfolding ensure
  ensure_world = elim (Result-cases (create x w).0) [
    | inl (y, h) ↦ ground arith
    | inr (e, h) ↦ ground arith
  ]

  unmade :
      (e : Error)
      → (create x w).0 ≡ err e
      → is_already_exists e ≡ false
      → ensure create what x w ≡ (err (wrap what e), (create x w).1)
  unfolding ensure
  unmade e h a = ground arith

-- The state after a successful ensure: the object is there, as it was or as put, and at the other
-- paths nothing has changed.
pub record IsEnsured {W : Type 0} (defaulted : Object → Object) (held : String → W → Option Object)
    (x : Object) (w w' : W) : Type 0 where
  pub present : held (path x) w' ≡ some (kept_or (held (path x) w) (defaulted x))
  pub others : (k : String) → str_eq k (path x) ≡ false → held k w' ≡ held k w

module _ {W : Type 0} (create : Object → Exec W Object) (defaulted : Object → Object)
    (held : String → W → Option Object) (s : IsServed create defaulted held) where
  created-IsEnsured :
      (x : Object) (w : W)
      → ((y : Object) × ((create x w).0 ≡ ok y))
        ⊎ ((e : Error) × ((create x w).0 ≡ err e) × (is_already_exists e ≡ true))
      → IsEnsured defaulted held x w (create x w).1
  created-IsEnsured x w (inl (y, h)) =
      let (free, put) = s.creates x y w h in
      record { present = rw (free, put) refl; others = λ k. s.others x k w }
  created-IsEnsured x w (inr (e, h, a)) =
      let (z, there, still) = s.meets x e w h a in
      record { present = rw (there, still) refl; others = λ k. s.others x k w }

  ensure-IsEnsured :
      (what : String) (x : Object) (w w' : W)
      → ensure create what x w ≡ (ok tt, w')
      → IsEnsured defaulted held x w w'
  ensure-IsEnsured what x w w' r =
      let last = sym (ensure_world create what x w) ∙ ap (λ p. p.1) r in
      subst (IsEnsured defaulted held x w) last (elim (Result-cases (create x w).0) [
        | inl (y, h) ↦ created-IsEnsured x w (inl (y, h))
        | inr (e, h) ↦ elim (Bool-cases (is_already_exists e)) [
          | inl a ↦ created-IsEnsured x w (inr (e, h, a))
          | inr a ↦ absurd (ground (arith, sym (unmade create what x w e h a) ∙ r))
        ]
      ])

  -- At the path of x the world w' has what w had there, and x where w had nothing.
  abbrev IsPut : W → W → Object → Type 0
  IsPut w w' x = held (path x) w' ≡ some (kept_or (held (path x) w) (defaulted x))

  put_between :
      (x : Object) (w u u' w' : W)
      → held (path x) u ≡ held (path x) w
      → IsEnsured defaulted held x u u'
      → held (path x) w' ≡ held (path x) u'
      → IsPut w w' x
  put_between x w u u' w' before i after =
      after ∙ i.present ∙ ap (λ o. some (kept_or o (defaulted x))) before

  -- What a successful start has done.
  pub record IsInstalled (image : String) (w w' : W) : Type 0 where
    pub namespace : IsPut w w' the_namespace
    pub broker_account : IsPut w w' (the_service_account broker_service_account)
    pub agent_account : IsPut w w' (the_service_account agent_service_account)
    pub broker : IsPut w w' (the_deployment broker_component image)
    pub others :
        (k : String)
        → str_eq k (path the_namespace) ≡ false
        → str_eq k (path (the_service_account broker_service_account)) ≡ false
        → str_eq k (path (the_service_account agent_service_account)) ≡ false
        → str_eq k (path (the_deployment broker_component image)) ≡ false
        → held k w' ≡ held k w

  -- If the operator gets through its start, on a server that behaves as `IsServed` says and on which
  -- nobody else writes meanwhile, then the server has the namespace, the two service accounts and
  -- the broker's Deployment. What it had of these before is as it was, so that a Deployment of an
  -- older image stays as it is, and the server's other objects are as they were.
  pub install-IsInstalled :
      (getenv : String → String) (w w' : W)
      → install create getenv w ≡ (ok tt, w')
      → IsInstalled (broker_image getenv) w w'
  unfolding install
  install-IsInstalled getenv w w' r =
      let x1 = the_namespace in
      let x2 = the_service_account broker_service_account in
      let x3 = the_service_account agent_service_account in
      let x4 = the_deployment broker_component (broker_image getenv) in
      let m2 = ensure_service_account create broker_service_account in
      let m3 = ensure_service_account create agent_service_account in
      let m4 = ensure_deployment create broker_component (broker_image getenv) in
      let (_, w1, e1, r1) = then-eq-ok (ensure_namespace create) (m2 >> (m3 >> m4)) w w' r in
      let (_, w2, e2, r2) = then-eq-ok m2 (m3 >> m4) w1 w' r1 in
      let (_, w3, e3, e4) = then-eq-ok m3 m4 w2 w' r2 in
      let i1 = ensure-IsEnsured _ x1 w w1 e1 in
      let i2 = ensure-IsEnsured _ x2 w1 w2 e2 in
      let i3 = ensure-IsEnsured _ x3 w2 w3 e3 in
      let i4 = ensure-IsEnsured (str_append "creating Deployment " broker_component) x4 w3 w' e4 in
      record {
        namespace =
            put_between x1 w w w1 w' refl i1
              (i4.others (path x1) refl ∙ i3.others (path x1) refl ∙ i2.others (path x1) refl);
        broker_account =
            put_between x2 w w1 w2 w' (i1.others (path x2) refl) i2
              (i4.others (path x2) refl ∙ i3.others (path x2) refl);
        agent_account =
            put_between x3 w w2 w3 w' (i2.others (path x3) refl ∙ i1.others (path x3) refl) i3
              (i4.others (path x3) refl);
        broker =
            put_between x4 w w3 w' w'
              (i3.others (path x4) refl ∙ i2.others (path x4) refl ∙ i1.others (path x4) refl) i4
              refl;
        others = λ k n1 n2 n3 n4. i4.others k n4 ∙ i3.others k n3 ∙ i2.others k n2 ∙ i1.others k n1;
      }

  -- On a server that always answers Create with the object or with "already exists", the broker's
  -- Deployment is there after any tick, whatever happened between the ticks.
  ticks_restore :
      ((x : Object) (w : W)
        → ((y : Object) × ((create x w).0 ≡ ok y))
          ⊎ ((e : Error) × ((create x w).0 ≡ err e) × (is_already_exists e ≡ true)))
      → (wait : W → W) (getenv : String → String) (n : ℕ) (w : W)
      → (z : Object) × (held
            (path (the_deployment broker_component (broker_image getenv)))
            (ticks create wait getenv (suc n) w)
          ≡ some z)
  unfolding ticks
  ticks_restore answers wait getenv zero w =
      let x = the_deployment broker_component (broker_image getenv) in
      let i = created-IsEnsured x (wait w) (answers x (wait w)) in
      (
        kept_or (held (path x) (wait w)) (defaulted x),
        ap (held (path x))
              (ensure_world create (str_append "creating Deployment " broker_component) x (wait w))
            ∙ i.present,
      )
  ticks_restore answers wait getenv (suc n) w = ticks_restore answers wait getenv n _
