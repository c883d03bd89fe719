-- ===== src/Bgp/Reconcile.antt =====
-- How the configurations are written: the calls of pkg/agent/bgp/bgp_configurator.go.
use mcn.Prelude.{String, List, [], ◌∷◌, str_append}
use mcn.Kube.{ok, err, Exec, pure, attempt, wrapping, ◌>>=◌, ◌>>◌, Value}
use mcn.Crd.{Cluster, NodeEndpoint}
use mcn.Bgp.{BgpConfigurator, Neighbor, configurations, build_neighbors_for_node}
use mcn.Bgp.Config.{build_node_frr_configuration_with_neighbors, build_node_frr_configuration}

module _ {W : Type 0} (c : BgpConfigurator W) where
  unfoldable pub config_name : String → String
  config_name node = str_append "skynet-node-" node

  -- Update what is there, with its resource version; on any failure of Get, create.
  unfoldable pub write_config : String → String → Value → Exec W (Unit {0})
  unfolding config_name
  write_config ns node config = do
    existing ← attempt ((configurations c ns).get (config_name node))
    elim existing [
      | ok u ↦ do
        wrapping (str_append "failed to update node FRRConfiguration for " node) (
            (configurations c ns).update
              (c.machinery.set_resource_version (c.machinery.get_resource_version u) config))
        pure tt
      | err e ↦ do
        wrapping (str_append "failed to create node FRRConfiguration for " node)
            ((configurations c ns).create config)
        pure tt
    ]

  unfoldable pub reconcile_node_bgp_config_with_neighbors :
      String → List Neighbor → Exec W (Unit {0})
  unfolding write_config
  reconcile_node_bgp_config_with_neighbors node neighbors =
      write_config "frr-k8s-system" node
        (build_node_frr_configuration_with_neighbors c (config_name node) node neighbors)

  unfoldable pub reconcile_node_bgp_config : String → String → Exec W (Unit {0})
  unfolding write_config
  reconcile_node_bgp_config node ip =
      write_config "default" node (build_node_frr_configuration c (config_name node) node ip)

  unfoldable pub delete_generic_bgp_config : Exec W (Unit {0})
  delete_generic_bgp_config =
      wrapping "failed to delete generic FRRConfiguration"
        ((configurations c "frr-k8s-system").delete "skynet-bgp-config")

  -- The loop over the local endpoints: a node that fails is left for the next time.
  unfoldable pub reconcile_nodes : Cluster → List Cluster → List NodeEndpoint → Exec W (Unit {0})
  unfolding reconcile_node_bgp_config_with_neighbors
  reconcile_nodes local remotes [] = pure tt
  reconcile_nodes local remotes (e ∷ es) = do
    attempt (
        reconcile_node_bgp_config_with_neighbors e.node
          (build_neighbors_for_node c e.bgp_peer_ip local remotes))
    reconcile_nodes local remotes es

  unfoldable pub reconcile_bgp_config : Cluster → List Cluster → Exec W (Unit {0})
  unfolding reconcile_nodes delete_generic_bgp_config
  reconcile_bgp_config local remotes = do
    attempt delete_generic_bgp_config
    reconcile_nodes local remotes local.status.endpoints

  unfoldable pub delete_bgp_config : Exec W (Unit {0})
  delete_bgp_config =
      wrapping "failed to delete FRRConfiguration"
        ((configurations c "frr-k8s-system").delete "skynet-bgp-config")
