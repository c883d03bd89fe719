-- ===== src/Operator/Prepared.antt =====
-- What a reconciliation has read before it allocates.
use mcn.Prelude.{
  Option, List, String, true, false, none, some, ◌≡◌, ◌≢◌, ◌⊎◌, inl, inr, sym, ◌∙◌, ap, arith,
  Bool-cases,
}
use mcn.Kube.{Exec, ok_inj, is_not_found, Result, ok, err, Error, Result-cases, DynamicClient}
use mcn.Crd.{Skynet}
use mcn.Bootstrap.{RestConfig}
use mcn.Pools.{Pools, load_pools_from_config_map}
use mcn.AgentPod.BrokerSecret.{reconcile_broker_token_secret}
use mcn.AgentPod.{broker_namespace_of}
use mcn.Operator.Reconcile.{preparing, broker_rest_config, Reconciler, prepare}

module _ {W : Type 0} (r : Reconciler W) where
  module _ (sk : Skynet) (w : W) where
    abbrev syncing : Result (Unit {0}) × W
    syncing = reconcile_broker_token_secret r.secrets r.create_or_update r.set_controller sk w

    abbrev connecting : Result RestConfig × W
    connecting = broker_rest_config r sk syncing.1

    abbrev loading : (String → String → Exec W (List (String × String))) → Result Pools × W
    loading maps = load_pools_from_config_map (maps (broker_namespace_of sk)) connecting.1

  preparing-some :
      (sk : Skynet) (w : W) (p : Option (Skynet × DynamicClient W × Pools))
      → (preparing r sk w).0 ≡ ok p
      → (broker : DynamicClient W) × (pools : Pools) × (p ≡ some (sk, broker, pools))
  unfolding preparing
  preparing-some sk w p h = elim (Result-cases (syncing sk w).0) [
    | inr (e, k) ↦ absurd (ground arith)
    | inl (_, k) ↦ elim (Result-cases (connecting sk w).0) [
      | inr (e, l) ↦ absurd (ground arith)
      | inl (config, l) ↦ elim (Result-cases (r.new_dynamic config)) [
        | inr (e, m) ↦ absurd (ground arith)
        | inl (broker, m) ↦ elim (Result-cases (r.new_kubernetes config)) [
          | inr (e, n) ↦ absurd (ground arith)
          | inl (maps, n) ↦ elim (Result-cases (loading sk w maps).0) [
            | inr (e, o) ↦ absurd (ground arith)
            | inl (pools, o) ↦ (broker, pools, ground arith)
          ]
        ]
      ]
    ]
  ]

  module _ (namespace name : String) (w : W) where
    prepare_missing :
        (e : Error)
        → (r.get_skynet namespace name w).0 ≡ err e
        → is_not_found e ≡ true
        → prepare r namespace name w ≡ (ok none, (r.get_skynet namespace name w).1)
    unfolding prepare
    prepare_missing e h n = ground arith

    prepare_unread :
        (e : Error) (p : Option (Skynet × DynamicClient W × Pools))
        → (r.get_skynet namespace name w).0 ≡ err e
        → is_not_found e ≡ false
        → (prepare r namespace name w).0 ≢ ok p
    unfolding prepare
    prepare_unread e p h n = ground arith

    prepare_read :
        (sk : Skynet)
        → (r.get_skynet namespace name w).0 ≡ ok sk
        → prepare r namespace name w ≡ preparing r sk (r.get_skynet namespace name w).1
    unfolding prepare
    prepare_read sk h = ground arith

    -- The object that was prepared for is the one that was read.
    pub prepare-cases :
        (p : Option (Skynet × DynamicClient W × Pools))
        → (prepare r namespace name w).0 ≡ ok p
        → ((p ≡ none)
            × (e : Error) × (is_not_found e ≡ true)
            × (r.get_skynet namespace name w ≡ (err e, (prepare r namespace name w).1)))
          ⊎ ((sk : Skynet) × (broker : DynamicClient W) × (pools : Pools) × ((r.get_skynet namespace
                  name w).0
                ≡ ok sk)
              × (p ≡ some (sk, broker, pools)))
    prepare-cases p h = elim (Result-cases (r.get_skynet namespace name w).0) [
      | inl (sk, e) ↦
          let (broker, pools, k) =
            preparing-some sk (r.get_skynet namespace name w).1 p
              (ap (λ x. x.0) (sym (prepare_read sk e)) ∙ h) in
          inr (sk, broker, pools, e, k)
      | inr (e, k) ↦ elim (Bool-cases (is_not_found e)) [
        | inr other ↦ absurd (prepare_unread e p k other h)
        | inl missing ↦
            let run = prepare_missing e k missing in
            inl (
              ok_inj (sym h ∙ ap (λ x. x.0) run),
              e,
              missing,
              λ i. (k i, ap (λ x. x.1) (sym run) i),
            )
      ]
    ]
