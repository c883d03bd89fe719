-- ===== src/Syncer/Running.antt =====
-- What a successful start of the broker syncer has done.
use mcn.Prelude.{◌≡◌, inl, inr, arith}
use mcn.Kube.{ok, Gvr, Result-cases}
use mcn.Crd.{cluster_gvr, multi_cluster_network_gvr}
use mcn.Syncer.{BrokerSyncer, SyncerConfig, start_syncers}

module _ {W S : Type 0} (s : BrokerSyncer W S) where
  -- Between the namespace skynet-operator of the cluster and the broker's namespace.
  abbrev pub config : Gvr → SyncerConfig W
  config gvr = record {
    local_client = s.local_client;
    local_namespace = "skynet-operator";
    local_cluster_id = s.cluster_id;
    broker_client = s.broker_client;
    broker_namespace = s.broker_ns;
    source_namespace = "skynet-operator";
    resource = gvr;
  }

  -- A syncer of the clusters and one of the networks were made and then started, in this order.
  pub record AreRunning (w later : W) : Type 0 where
    pub clusters : S
    pub networks : S
    pub between : W
    pub makes_clusters : s.admiral.new_syncer (config cluster_gvr) ≡ ok clusters
    pub makes_networks : s.admiral.new_syncer (config multi_cluster_network_gvr) ≡ ok networks
    pub starts_clusters : s.admiral.start clusters w ≡ (ok tt, between)
    pub starts_networks : s.admiral.start networks between ≡ (ok tt, later)

  pub start_syncers-AreRunning : (w w' : W) → start_syncers s w ≡ (ok tt, w') → AreRunning w w'
  unfolding start_syncers
  start_syncers-AreRunning w w' h =
      elim (Result-cases (s.admiral.new_syncer (config cluster_gvr))) [
        | inr (e, k) ↦ absurd (ground arith)
        | inl (x, k) ↦
            elim (Result-cases (s.admiral.new_syncer (config multi_cluster_network_gvr))) [
              | inr (e, l) ↦ absurd (ground arith)
              | inl (y, l) ↦ elim (Result-cases (s.admiral.start x w).0) [
                | inr (e, m) ↦ absurd (ground arith)
                | inl (_, m) ↦ elim (Result-cases (s.admiral.start y (s.admiral.start x w).1).0) [
                  | inr (e, n) ↦ absurd (ground arith)
                  | inl (_, n) ↦ record {
                    clusters = x;
                    networks = y;
                    between = (s.admiral.start x w).1;
                    makes_clusters = k;
                    makes_networks = l;
                    starts_clusters = λ i. (m i, (s.admiral.start x w).1);
                    starts_networks = ground arith;
                  }
                ]
              ]
            ]
      ]
