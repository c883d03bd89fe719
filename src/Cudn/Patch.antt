-- ===== src/Cudn/Patch.antt =====
-- PatchCUDNWithEVPN: what a success says of the CUDN, and that for a Layer2 network it patches
-- again whatever it finds.
use mcn.Prelude.{
  ==_iff, refl, sym, some, Option, eq_iff, Option-cases, ◌<◌, String, true, false, none, [], ◌∷◌,
  ◌≡◌, ◌≢◌, ◌↔◌, ◌⊎◌, inl, inr, ap, ◌∙◌, str_eq, ◌&&◌, arith, Bool-cases,
}
use mcn.Kube.{Result, ok, err, Error, wrap, Value, str, int, Result-cases}
use mcn.Crd.{MultiClusterNetwork}
use mcn.Paths.{FollowsPaths, path, as_string, as_int, as_map}
use mcn.Prelude.Int.{pos}
use mcn.Cudn.{
  to_uint32, or_zero, or_empty, CudnIntegrator, cudns, transport, found_eq, has_matching_config,
  validate_cudn, evpn_patch, patch_cudn_with_evpn,
}

module _ {W : Type 0} (ci : CudnIntegrator W) (name : String) (mcn : MultiClusterNetwork)
    (w : W) where
  -- What a successful run has seen and done.
  record IsRun (cudn : Value) : Type 0 where
    pub found : ((cudns ci).get name w).0 ≡ ok cudn
    pub compatible : validate_cudn ci cudn mcn ≡ ok tt
    pub settled :
        ((found_eq (transport ci cudn) "EVPN" ≡ true)
          × (has_matching_config ci cudn mcn ≡ true)
          × ((patch_cudn_with_evpn ci name mcn w).1 ≡ ((cudns ci).get name w).1))
        ⊎ ((patched : Value) × (((cudns ci).patch name
                (evpn_patch ci mcn)
                ((cudns ci).get name w).1).0
              ≡ ok patched)
            × ((patch_cudn_with_evpn ci name mcn w).1
                ≡ ((cudns ci).patch name (evpn_patch ci mcn) ((cudns ci).get name w).1).1))

  abbrev pub patching : Result Value × W
  patching = (cudns ci).patch name (evpn_patch ci mcn) ((cudns ci).get name w).1

  missing :
      (b : Error)
      → ((cudns ci).get name w).0 ≡ err b
      → (patch_cudn_with_evpn ci name mcn w).0 ≢ ok tt
  unfolding patch_cudn_with_evpn
  missing b e = ground arith

  incompatible :
      (cudn : Value) (b : Error)
      → ((cudns ci).get name w).0 ≡ ok cudn
      → validate_cudn ci cudn mcn ≡ err b
      → (patch_cudn_with_evpn ci name mcn w).0 ≢ ok tt
  unfolding patch_cudn_with_evpn
  incompatible cudn b e d = ground arith

  unchanged :
      (cudn : Value)
      → ((cudns ci).get name w).0 ≡ ok cudn
      → validate_cudn ci cudn mcn ≡ ok tt
      → (found_eq (transport ci cudn) "EVPN" && has_matching_config ci cudn mcn) ≡ true
      → patch_cudn_with_evpn ci name mcn w ≡ (ok tt, ((cudns ci).get name w).1)
  unfolding patch_cudn_with_evpn
  unchanged cudn e d h = ground arith

  patches :
      (cudn v : Value)
      → ((cudns ci).get name w).0 ≡ ok cudn
      → validate_cudn ci cudn mcn ≡ ok tt
      → (found_eq (transport ci cudn) "EVPN" && has_matching_config ci cudn mcn) ≡ false
      → patching.0 ≡ ok v
      → patch_cudn_with_evpn ci name mcn w ≡ (ok tt, patching.1)
  unfolding patch_cudn_with_evpn
  patches cudn v e d h k = ground arith

  patch_fails :
      (cudn : Value) (b : Error)
      → ((cudns ci).get name w).0 ≡ ok cudn
      → validate_cudn ci cudn mcn ≡ ok tt
      → (found_eq (transport ci cudn) "EVPN" && has_matching_config ci cudn mcn) ≡ false
      → patching.0 ≡ err b
      → patch_cudn_with_evpn ci name mcn w ≡ (err (wrap "failed to patch CUDN" b), patching.1)
  unfolding patch_cudn_with_evpn
  patch_fails cudn b e d h k = ground arith

  settle :
      (cudn : Value)
      → ((cudns ci).get name w).0 ≡ ok cudn
      → validate_cudn ci cudn mcn ≡ ok tt
      → (patch_cudn_with_evpn ci name mcn w).0 ≡ ok tt
      → IsRun cudn
  settle cudn e d h =
      elim (Bool-cases (found_eq (transport ci cudn) "EVPN" && has_matching_config ci cudn mcn)) [
        | inl same ↦ record {
          found = e;
          compatible = d;
          settled = inl (
            ground arith,
            ground arith,
            ap (λ (x : Result (Unit {0}) × W). x.1) (unchanged cudn e d same),
          );
        }
        | inr other ↦ elim (Result-cases patching.0) [
          | inl (v, k) ↦ record {
            found = e;
            compatible = d;
            settled =
                inr (v, k, ap (λ (x : Result (Unit {0}) × W). x.1) (patches cudn v e d other k));
          }
          | inr (b, k) ↦
              cc (h, ap (λ (x : Result (Unit {0}) × W). x.0) (patch_fails cudn b e d other k))
        ]
      ]

  succeeded : (patch_cudn_with_evpn ci name mcn w).0 ≡ ok tt → (cudn : Value) × IsRun cudn
  succeeded h = elim (Result-cases ((cudns ci).get name w).0) [
    | inl (cudn, e) ↦ elim (Result-cases (validate_cudn ci cudn mcn)) [
      | inl (_, d) ↦ (cudn, settle cudn e d h)
      | inr (b, d) ↦ absurd (incompatible cudn b e d h)
    ]
    | inr (b, e) ↦ absurd (missing b e h)
  ]

  -- The CUDN has no transport or EVPN, and the network's topology.
  pub record IsCompatible (cudn : Value) : Type 0 where
    pub transport :
        (or_empty (as_string (path ("spec" ∷ "network" ∷ "transport" ∷ []) cudn)) ≡ "")
        ⊎ (as_string (path ("spec" ∷ "network" ∷ "transport" ∷ []) cudn) ≡ some "EVPN")
    pub network : Value
    pub found : as_map (path ("spec" ∷ "network" ∷ []) cudn) ≡ some network
    pub topology : as_string (path ("topology" ∷ []) network) ≡ some mcn.spec.topology

  -- The CUDN has the EVPN transport and, in its ipVRF, the network's VNI and route target. A number
  -- that is not there is read as 0, and a text as the empty one.
  pub record HasConfig (cudn : Value) : Type 0 where
    pub transport : as_string (path ("spec" ∷ "network" ∷ "transport" ∷ []) cudn) ≡ some "EVPN"
    pub vni :
        to_uint32
          (or_zero (as_int (path ("spec" ∷ "network" ∷ "evpn" ∷ "ipVRF" ∷ "vni" ∷ []) cudn)))
        ≡ mcn.spec.vni
    pub route_target :
        or_empty
          (as_string (path ("spec" ∷ "network" ∷ "evpn" ∷ "ipVRF" ∷ "routeTarget" ∷ []) cudn))
        ≡ mcn.spec.route_target

  abbrev vrf_path : String → String → Value → Option Value
  vrf_path vrf key x = path ("spec" ∷ "network" ∷ "evpn" ∷ vrf ∷ key ∷ []) x

  -- A patch that sets the EVPN transport, the VTEP of the integrator, and the network's VNI and route
  -- target in the VRF of its topology.
  pub record IsEvpnPatch (x : Value) : Type 0 where
    pub transport : path ("spec" ∷ "network" ∷ "transport" ∷ []) x ≡ some (str "EVPN")
    pub vtep : path ("spec" ∷ "network" ∷ "evpn" ∷ "vtep" ∷ []) x ≡ some (str ci.vtep_name)
    pub ip_vrf :
        mcn.spec.topology ≡ "Layer3"
        → (vrf_path "ipVRF" "vni" x ≡ some (int (pos mcn.spec.vni)))
          × (vrf_path "ipVRF" "routeTarget" x ≡ some (str mcn.spec.route_target))
    pub mac_vrf :
        mcn.spec.topology ≡ "Layer2"
        → (vrf_path "macVRF" "vni" x ≡ some (int (pos mcn.spec.vni)))
          × (vrf_path "macVRF" "routeTarget" x ≡ some (str mcn.spec.route_target))

  evpn_patch-IsEvpnPatch : IsEvpnPatch (evpn_patch ci mcn)
  unfolding evpn_patch
  evpn_patch-IsEvpnPatch = record {
    transport = refl;
    vtep = refl;
    ip_vrf = λ h. rw ((eq_iff mcn.spec.topology "Layer3").1 h) (refl, refl);
    mac_vrf = λ h. rw h (refl, refl);
  }

  found_eq-eq : (o : Option String) (t : String) → found_eq o t ≡ true → o ≡ some t
  found_eq-eq none t h = cc
  found_eq-eq (some s) t h = ap some ((eq_iff s t).0 h)

  -- What the validation says in terms of the accessors.
  validated :
      (cudn : Value)
      → validate_cudn ci cudn mcn ≡ ok tt
      → ((or_empty (transport ci cudn) ≡ "") ⊎ (transport ci cudn ≡ some "EVPN"))
        × ((v : Value) × (ci.machinery.nested_map cudn ("spec" ∷ "network" ∷ []) ≡ some v)
            × (ci.machinery.nested_string v ("topology" ∷ []) ≡ some mcn.spec.topology))
  unfolding validate_cudn
  validated cudn h = elim (Option-cases (ci.machinery.nested_map cudn ("spec" ∷ "network" ∷ []))) [
    | inl e ↦ absurd (ground arith)
    | inr (v, e) ↦ elim (Option-cases (ci.machinery.nested_string v ("topology" ∷ []))) [
      | inl k ↦ absurd (ground arith)
      | inr (t, k) ↦ (
        elim (Bool-cases (str_eq (or_empty (transport ci cudn)) "")) [
          | inl unset ↦ inl ((eq_iff (or_empty (transport ci cudn)) "").0 unset)
          | inr set ↦ inr (found_eq-eq (transport ci cudn) "EVPN" (ground arith))
        ],
        (v, e, k ∙ ap some ((eq_iff t mcn.spec.topology).0 (ground arith))),
      )
    ]
  ]

  validate_cudn-IsCompatible :
      (cudn : Value)
      → FollowsPaths ci.machinery
      → validate_cudn ci cudn mcn ≡ ok tt
      → IsCompatible cudn
  validate_cudn-IsCompatible cudn p h =
      let (t, network) = validated cudn h in
      let (v, e, k) = network in
      let reads = p.strings cudn ("spec" ∷ "network" ∷ "transport" ∷ []) in
      record {
        transport = elim t [
          | inl unset ↦ inl (ap or_empty (sym reads) ∙ unset)
          | inr evpn ↦ inr (sym reads ∙ evpn)
        ];
        network = v;
        found = sym (p.maps _ _) ∙ e;
        topology = sym (p.strings _ _) ∙ k;
      }

  has_matching_config-HasConfig :
      (cudn : Value)
      → FollowsPaths ci.machinery
      → found_eq (transport ci cudn) "EVPN" ≡ true
      → has_matching_config ci cudn mcn ≡ true
      → HasConfig cudn
  unfolding has_matching_config
  has_matching_config-HasConfig cudn p e h =
      let vni = "spec" ∷ "network" ∷ "evpn" ∷ "ipVRF" ∷ "vni" ∷ [] in
      let target = "spec" ∷ "network" ∷ "evpn" ∷ "ipVRF" ∷ "routeTarget" ∷ [] in
      record {
        transport = sym (p.strings _ _) ∙ found_eq-eq (transport ci cudn) "EVPN" e;
        vni =
            ap (λ o. to_uint32 (or_zero o)) (sym (p.ints cudn vni))
            ∙ (==_iff (to_uint32 (or_zero (ci.machinery.nested_int64 cudn vni))) mcn.spec.vni).0
                (ground arith);
        route_target =
            ap or_empty (sym (p.strings cudn target))
            ∙ (eq_iff (or_empty (ci.machinery.nested_string cudn target)) mcn.spec.route_target).0
                (ground arith);
      }

  -- What a successful run has seen and done: nothing but the Get, where the CUDN had the
  -- configuration, and else an accepted patch with it as the last call.
  pub record IsPatched (cudn : Value) : Type 0 where
    pub found : ((cudns ci).get name w).0 ≡ ok cudn
    pub compatible : IsCompatible cudn
    pub settled :
        (HasConfig cudn × ((patch_cudn_with_evpn ci name mcn w).1 ≡ ((cudns ci).get name w).1))
        ⊎ ((x : Value) × (patched : Value) × IsEvpnPatch x
            × ((cudns ci).patch name x ((cudns ci).get name w).1
                ≡ (ok patched, (patch_cudn_with_evpn ci name mcn w).1)))

  -- If PatchCUDNWithEVPN succeeds, then Get found the CUDN, which had no transport or EVPN and the
  -- network's topology, and either it had the EVPN transport with the network's VNI and route target
  -- in its ipVRF and nothing else was called, or the server accepted, as the last call, a patch that
  -- sets the transport, the VTEP and the network's VNI and route target in the VRF of its topology.
  -- The nested accessors follow the paths.
  pub patch_cudn_with_evpn-IsPatched :
      FollowsPaths ci.machinery
      → (patch_cudn_with_evpn ci name mcn w).0 ≡ ok tt
      → (cudn : Value) × IsPatched cudn
  patch_cudn_with_evpn-IsPatched p h =
      let (cudn, run) = succeeded h in
      (
        cudn,
        record {
          found = run.found;
          compatible = validate_cudn-IsCompatible cudn p run.compatible;
          settled = elim run.settled [
            | inl (e, m, last) ↦ inl (has_matching_config-HasConfig cudn p e m, last)
            | inr (v, k, last) ↦
                inr (evpn_patch ci mcn, v, evpn_patch-IsEvpnPatch, λ i. (k i, sym last i))
          ];
        },
      )

  no_match :
      (cudn : Value)
      → 0 < mcn.spec.vni
      → ci.machinery.nested_int64 cudn ("spec" ∷ "network" ∷ "evpn" ∷ "ipVRF" ∷ "vni" ∷ []) ≡ none
      → has_matching_config ci cudn mcn ≡ false
  unfolding has_matching_config
  no_match cudn low e = rw e (ground arith)

  -- A CUDN that passes the validation and has no ipVRF, which is how a Layer2 network's
  -- configuration is written, is patched on every call, whatever its macVRF says: the call leaves
  -- the server as the patch left it, and succeeds exactly if the patch does.
  pub patch_cudn_with_evpn_again :
      (cudn : Value)
      → 0 < mcn.spec.vni
      → ((cudns ci).get name w).0 ≡ ok cudn
      → validate_cudn ci cudn mcn ≡ ok tt
      → ci.machinery.nested_int64 cudn ("spec" ∷ "network" ∷ "evpn" ∷ "ipVRF" ∷ "vni" ∷ []) ≡ none
      → ((patch_cudn_with_evpn ci name mcn w).1 ≡ patching.1)
        × (((patch_cudn_with_evpn ci name mcn w).0 ≡ ok tt) ↔ ((v : Value) × (patching.0 ≡ ok v)))
  patch_cudn_with_evpn_again cudn low e d none_there =
      let other : (found_eq (transport ci cudn) "EVPN" && has_matching_config ci cudn mcn) ≡ false =
        ground (arith, no_match cudn low none_there) in
      elim (Result-cases patching.0) [
        | inl (v, k) ↦
            let run = patches cudn v e d other k in
            (
              ap (λ (x : Result (Unit {0}) × W). x.1) run,
              (λ _. (v, k), λ _. ap (λ (x : Result (Unit {0}) × W). x.0) run),
            )
        | inr (b, k) ↦
            let run = patch_fails cudn b e d other k in
            (
              ap (λ (x : Result (Unit {0}) × W). x.1) run,
              (λ h. cc (h, ap (λ (x : Result (Unit {0}) × W). x.0) run), λ h. cc (k, h.1)),
            )
      ]
