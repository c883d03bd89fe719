-- ===== src/Connect/Success.antt =====
-- reconcileMCNC: what has been done when it succeeds, and that a failed step is reported in the
-- object's status.
use mcn.Prelude.{String, ◌≡◌, inl, inr, ap, str_append, arith}
use mcn.Kube.{Result, ok, err, Error, wrap, Result-cases}
use mcn.Crd.{MultiClusterNetwork, MultiClusterNetworkConnect, ConnectPhase}
use mcn.RouteAdv.{create_for_cudn}
use mcn.Connect.{
  McncReconciler, ReconcileResult, settled, with_phase, reconcile_mcn, reconcile_local_network,
  report_error, reconcile_mcnc,
}

module _ {W : Type 0} (r : McncReconciler W) (mcnc : MultiClusterNetworkConnect) (w : W) where
  -- The steps, one after the other.
  abbrev pub looking : Result String × W
  looking = r.get_namespace mcnc.meta.namespace w

  abbrev pub joining : Result MultiClusterNetwork × W
  joining = reconcile_mcn r mcnc looking.1

  abbrev pub configuring : MultiClusterNetwork → Result String × W
  configuring mcn = reconcile_local_network r mcnc mcn joining.1

  abbrev pub advertising : MultiClusterNetwork → String → Result (Unit {0}) × W
  advertising mcn c = create_for_cudn r.route_adv_creator c mcn (configuring mcn).1

  abbrev pub marking :
      ConnectPhase → MultiClusterNetwork → String → Result MultiClusterNetworkConnect × W
  marking p mcn c = r.update_status (with_phase p mcnc) (advertising mcn c).1

  -- Every step succeeded, and the status write of the Connected phase is the last call.
  pub record IsConnected (mcn : MultiClusterNetwork) (c : String) : Type 0 where
    pub present : (ns : String) × (looking.0 ≡ ok ns)
    pub joined : joining.0 ≡ ok mcn
    pub configured : (configuring mcn).0 ≡ ok c
    pub advertised : (advertising mcn c).0 ≡ ok tt
    pub marked :
        (u : MultiClusterNetworkConnect) × ((marking ConnectPhase.connected mcn c).0 ≡ ok u)
    pub last : (reconcile_mcnc r mcnc w).1 ≡ (marking ConnectPhase.connected mcn c).1

  -- The end of a run that submitted the Error phase in the world `v` and returned the error.
  abbrev pub failing : String → Error → W → Result ReconcileResult × W
  failing msg e v = (err (wrap msg e), (r.update_status (with_phase ConnectPhase.error mcnc) v).1)

  -- The step that failed, after the earlier ones had succeeded: its error, the world it ended in and
  -- the text that its error is wrapped in.
  pub data FailedAt : Error → W → String → Type 0 where
    no_namespace :
        (e : Error)
        → looking.0 ≡ err e
        → FailedAt e looking.1 (str_append "failed to get namespace " mcnc.meta.namespace)
    not_joined :
        (ns : String) (e : Error)
        → looking.0 ≡ ok ns
        → joining.0 ≡ err e
        → FailedAt e joining.1 "failed to reconcile MultiClusterNetwork"
    not_configured :
        (ns : String) (mcn : MultiClusterNetwork) (e : Error)
        → looking.0 ≡ ok ns
        → joining.0 ≡ ok mcn
        → (configuring mcn).0 ≡ err e
        → FailedAt e (configuring mcn).1 "failed to reconcile local network"
    not_advertised :
        (ns c : String) (mcn : MultiClusterNetwork) (e : Error)
        → looking.0 ≡ ok ns
        → joining.0 ≡ ok mcn
        → (configuring mcn).0 ≡ ok c
        → (advertising mcn c).0 ≡ err e
        → FailedAt e (advertising mcn c).1 "failed to create RouteAdvertisement"

  -- How a run ends: with every step done; with the error of a failed step and the Error phase
  -- submitted; or with the error of the last status write.
  pub data Ending : Type 0 where
    connected :
        (mcn : MultiClusterNetwork) (c : String)
        → (reconcile_mcnc r mcnc w).0 ≡ ok settled
        → IsConnected mcn c
        → Ending
    reported :
        (e : Error) (v : W) (msg : String)
        → FailedAt e v msg
        → reconcile_mcnc r mcnc w ≡ failing msg e v
        → Ending
    unmarked :
        (mcn : MultiClusterNetwork) (c : String) (e : Error)
        → ((ns : String) × (looking.0 ≡ ok ns))
        → joining.0 ≡ ok mcn
        → (configuring mcn).0 ≡ ok c
        → (advertising mcn c).0 ≡ ok tt
        → (marking ConnectPhase.connected mcn c).0 ≡ err e
        → (reconcile_mcnc r mcnc w).0 ≡ err (wrap "failed to update MCNC status" e)
        → Ending

  no_namespace_run :
      (e : Error)
      → looking.0 ≡ err e
      → reconcile_mcnc r mcnc w
        ≡ failing (str_append "failed to get namespace " mcnc.meta.namespace) e looking.1
  unfolding reconcile_mcnc report_error
  no_namespace_run e h = ground arith

  not_joined_run :
      (ns : String) (e : Error)
      → looking.0 ≡ ok ns
      → joining.0 ≡ err e
      → reconcile_mcnc r mcnc w ≡ failing "failed to reconcile MultiClusterNetwork" e joining.1
  unfolding reconcile_mcnc report_error
  not_joined_run ns e h k = ground arith

  not_configured_run :
      (ns : String) (mcn : MultiClusterNetwork) (e : Error)
      → looking.0 ≡ ok ns
      → joining.0 ≡ ok mcn
      → (configuring mcn).0 ≡ err e
      → reconcile_mcnc r mcnc w ≡ failing "failed to reconcile local network" e (configuring mcn).1
  unfolding reconcile_mcnc report_error
  not_configured_run ns mcn e h k l = ground arith

  not_advertised_run :
      (ns c : String) (mcn : MultiClusterNetwork) (e : Error)
      → looking.0 ≡ ok ns
      → joining.0 ≡ ok mcn
      → (configuring mcn).0 ≡ ok c
      → (advertising mcn c).0 ≡ err e
      → reconcile_mcnc r mcnc w
        ≡ failing "failed to create RouteAdvertisement" e (advertising mcn c).1
  unfolding reconcile_mcnc report_error
  not_advertised_run ns c mcn e h k l a = ground arith

  not_marked :
      (ns c : String) (mcn : MultiClusterNetwork) (e : Error)
      → looking.0 ≡ ok ns
      → joining.0 ≡ ok mcn
      → (configuring mcn).0 ≡ ok c
      → (advertising mcn c).0 ≡ ok tt
      → (marking ConnectPhase.connected mcn c).0 ≡ err e
      → (reconcile_mcnc r mcnc w).0 ≡ err (wrap "failed to update MCNC status" e)
  unfolding reconcile_mcnc
  not_marked ns c mcn e h k l a m = ground arith

  all_done :
      (ns c : String) (mcn : MultiClusterNetwork) (u : MultiClusterNetworkConnect)
      → looking.0 ≡ ok ns
      → joining.0 ≡ ok mcn
      → (configuring mcn).0 ≡ ok c
      → (advertising mcn c).0 ≡ ok tt
      → (marking ConnectPhase.connected mcn c).0 ≡ ok u
      → reconcile_mcnc r mcnc w ≡ (ok settled, (marking ConnectPhase.connected mcn c).1)
  unfolding reconcile_mcnc
  all_done ns c mcn u h k l a m = ground arith

  mark :
      (ns c : String) (mcn : MultiClusterNetwork)
      → looking.0 ≡ ok ns
      → joining.0 ≡ ok mcn
      → (configuring mcn).0 ≡ ok c
      → (advertising mcn c).0 ≡ ok tt
      → Ending
  mark ns c mcn h k l a = elim (Result-cases (marking ConnectPhase.connected mcn c).0) [
    | inl (u, m) ↦
        let run = all_done ns c mcn u h k l a m in
        connected mcn c (ap (λ (x : Result ReconcileResult × W). x.0) run) (record {
          present = (ns, h);
          joined = k;
          configured = l;
          advertised = a;
          marked = (u, m);
          last = ap (λ (x : Result ReconcileResult × W). x.1) run;
        })
    | inr (e, m) ↦ unmarked mcn c e (ns, h) k l a m (not_marked ns c mcn e h k l a m)
  ]

  -- A run of reconcileMCNC ends in one of three ways. It succeeds, and then the namespace was
  -- found, the network joined, its CUDN configured and advertised, and the Connected phase written
  -- as the last call. Or one of those steps was the first to fail, and then the Error phase was
  -- submitted as the last call and that step's error returned. Or all steps succeeded and only the
  -- last write failed, and its error was returned.
  pub reconcile_mcnc-Ending : Ending
  reconcile_mcnc-Ending = elim (Result-cases looking.0) [
    | inr (e, h) ↦ reported _ _ _ (no_namespace e h) (no_namespace_run e h)
    | inl (ns, h) ↦ elim (Result-cases joining.0) [
      | inr (e, k) ↦ reported _ _ _ (not_joined ns e h k) (not_joined_run ns e h k)
      | inl (mcn, k) ↦ elim (Result-cases (configuring mcn).0) [
        | inr (e, l) ↦
            reported _ _ _ (not_configured ns mcn e h k l) (not_configured_run ns mcn e h k l)
        | inl (c, l) ↦ elim (Result-cases (advertising mcn c).0) [
          | inr (e, a) ↦
              reported _ _ _ (not_advertised ns c mcn e h k l a)
                (not_advertised_run ns c mcn e h k l a)
          | inl (_, a) ↦ mark ns c mcn h k l a
        ]
      ]
    ]
  ]
