-- ===== src/Agent/Remote.antt =====
-- Which clusters the agent takes for remote: getRemoteClustersFromLocal of pkg/agent/agent.go and
-- GetRemoteClusters of pkg/agent/syncer/broker_syncer.go.
use mcn.Prelude.{
  String, true, false, List, [], ◌∷◌, ◌≡◌, refl, sym, ap, ◌∙◌, inl, inr, ◌↔◌, str_eq, arith,
  Bool-cases,
}
use mathlib.Core.Path.{subst}
use mcn.Prelude.Among.{Among}
use mcn.Kube.{ok, err, Error, Result-cases, Value, Converter}
use mcn.Crd.{Cluster, cluster_gvr}
use mcn.Asn.Allocate.{IsListed}
use mcn.Syncer.{BrokerSyncer, remote_of_broker, get_remote_clusters}
use mcn.Agent.{Agent, clusters, remote_clusters, get_remote_clusters_from_local}

module _ (conv : Converter Cluster) (id : String) where
  -- The listed object converts to the cluster `c`, which has another id.
  abbrev pub IsRemote : Cluster → List Value → Type 0
  IsRemote c us = IsListed conv c us × (str_eq c.spec.cluster_id id ≡ false)

  skips :
      (u : Value) (us : List Value) (e : Error)
      → conv.from_unstructured u ≡ err e
      → remote_clusters conv id (u ∷ us) ≡ remote_clusters conv id us
  unfolding remote_clusters
  skips u us e h = ground arith

  skips_own :
      (u : Value) (us : List Value) (c : Cluster)
      → conv.from_unstructured u ≡ ok c
      → str_eq c.spec.cluster_id id ≡ true
      → remote_clusters conv id (u ∷ us) ≡ remote_clusters conv id us
  unfolding remote_clusters
  skips_own u us c h k = ground arith

  takes :
      (u : Value) (us : List Value) (c : Cluster)
      → conv.from_unstructured u ≡ ok c
      → str_eq c.spec.cluster_id id ≡ false
      → remote_clusters conv id (u ∷ us) ≡ c ∷ remote_clusters conv id us
  unfolding remote_clusters
  takes u us c h k = ground arith

  empty : remote_clusters conv id [] ≡ []
  unfolding remote_clusters
  empty = refl

  found : (c : Cluster) (us : List Value) → Among c (remote_clusters conv id us) → IsRemote c us
  found c [] h = elim (subst (Among c) empty h) [ ]
  found c (u ∷ us) h = elim (Result-cases (conv.from_unstructured u)) [
    | inr (e, k) ↦ let (l, o) = found c us (subst (Among c) (skips u us e k) h) in (inr l, o)
    | inl (d, k) ↦ elim (Bool-cases (str_eq d.spec.cluster_id id)) [
      | inl own ↦ let (l, o) = found c us (subst (Among c) (skips_own u us d k own) h) in (inr l, o)
      | inr other ↦ elim (subst (Among c) (takes u us d k other) h) [
        | inl same ↦
            (inl (k ∙ ap ok same), subst (λ x. str_eq x.spec.cluster_id id ≡ false) same other)
        | inr later ↦ let (l, o) = found c us later in (inr l, o)
      ]
    ]
  ]

  kept : (c : Cluster) (us : List Value) → IsRemote c us → Among c (remote_clusters conv id us)
  kept c [] (l, o) = elim l [ ]
  kept c (u ∷ us) (inl k, o) = subst (Among c) (sym (takes u us c k o)) (inl refl)
  kept c (u ∷ us) (inr l, o) = elim (Result-cases (conv.from_unstructured u)) [
    | inr (e, k) ↦ subst (Among c) (sym (skips u us e k)) (kept c us (l, o))
    | inl (d, k) ↦ elim (Bool-cases (str_eq d.spec.cluster_id id)) [
      | inl own ↦ subst (Among c) (sym (skips_own u us d k own)) (kept c us (l, o))
      | inr other ↦ subst (Among c) (sym (takes u us d k other)) (inr (kept c us (l, o)))
    ]
  ]

  remote_of_broker-agrees :
      (us : List Value) → remote_of_broker conv id us ≡ remote_clusters conv id us
  unfolding remote_of_broker remote_clusters
  remote_of_broker-agrees [] = refl
  remote_of_broker-agrees (u ∷ us) = ground (arith, remote_of_broker-agrees us)

module _ {W S : Type 0} (a : Agent W S) (s : BrokerSyncer W S) (us : List Value) where
  local_list :
      (w : W)
      → ((clusters a).list "" w).0 ≡ ok us
      → (get_remote_clusters_from_local a w).0 ≡ ok (remote_clusters a.converter a.cluster_id us)
  unfolding get_remote_clusters_from_local
  local_list w h = ground arith

  broker_list :
      (w : W)
      → ((s.broker_client.at cluster_gvr s.broker_ns).list "" w).0 ≡ ok us
      → (get_remote_clusters s w).0 ≡ ok (remote_of_broker s.converter s.cluster_id us)
  unfolding get_remote_clusters
  broker_list w h = ground arith

  -- Once the local namespace is listed, getRemoteClustersFromLocal succeeds with exactly the
  -- clusters of the listing whose id is not the agent's; and GetRemoteClusters of a syncer of the
  -- same cluster returns the same list once the broker lists the same objects.
  pub get_remote_clusters-agrees :
      (w v : W)
      → ((clusters a).list "" w).0 ≡ ok us
      → ((s.broker_client.at cluster_gvr s.broker_ns).list "" v).0 ≡ ok us
      → s.converter ≡ a.converter
      → s.cluster_id ≡ a.cluster_id
      → (cs : List Cluster) × ((get_remote_clusters_from_local a w).0 ≡ ok cs)
        × ((get_remote_clusters s v).0 ≡ ok cs)
        × ((c : Cluster) → Among c cs ↔ IsRemote a.converter a.cluster_id c us)
  get_remote_clusters-agrees w v h k same_converter same_id = (
    remote_clusters a.converter a.cluster_id us,
    local_list w h,
    broker_list v k
        ∙ ap ok (
            remote_of_broker-agrees s.converter s.cluster_id us
            ∙ ap (λ f. remote_clusters f s.cluster_id us) same_converter
            ∙ ap (λ i. remote_clusters a.converter i us) same_id),
    λ c. (found a.converter a.cluster_id c us, kept a.converter a.cluster_id c us),
  )
