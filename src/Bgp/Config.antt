-- ===== src/Bgp/Config.antt =====
-- The FRRConfiguration objects of pkg/agent/bgp/bgp_configurator.go.
use mcn.Prelude.{String, not, List, [], ◌∷◌, str_append, str_eq, if◌then◌else◌}
use mcn.Prelude.Int.{ℤ, pos}
use mcn.Prelude.Numerals.{print_int}
use mcn.Kube.{Value, str, int, object, slice}
use mcn.Bgp.{BgpConfigurator, Neighbor, neighbor_value}

-- The commands that take the generated route maps of a neighbor off.
unfoldable pub route_map_lines : List Neighbor → String
route_map_lines [] = ""
route_map_lines (n ∷ ns) =
    let off = λ (way : String). str_append "  no neighbor " (
      str_append n.address (
        str_append " route-map " (
          str_append n.address
            (str_append "-" (str_append way (str_append " " (str_append way "\n"))))))) in
    str_append (off "out") (str_append (off "in") (route_map_lines ns))

-- The raw FRR configuration of a node.
unfoldable pub raw_config : ℤ → String → List Neighbor → String
unfolding route_map_lines
raw_config asn vtep_cidr neighbors = str_append "router bgp " (
    str_append (print_int asn) (
      str_append
        "\n address-family ipv4 unicast\n  redistribute connected route-map VTEP_LOOPBACK\n exit-address-family\nexit\n!\nip prefix-list VTEP_PREFIXES permit "
        (str_append vtep_cidr (
          str_append
            " ge 32 le 32\n!\nroute-map VTEP_LOOPBACK permit 10\n match ip address prefix-list VTEP_PREFIXES\nexit\n!\nrouter bgp "
            (str_append (print_int asn) (
              str_append "\n address-family ipv4 unicast\n"
                (str_append (route_map_lines neighbors) " exit-address-family\nexit\n!")))))))

unfoldable pub neighbor_values : List Neighbor → List Value
unfolding neighbor_value
neighbor_values [] = []
neighbor_values (n ∷ ns) = neighbor_value n ∷ neighbor_values ns

abbrev node_selector : String → Value
node_selector node =
    object (("matchLabels", object (("kubernetes.io/hostname", str node) ∷ [])) ∷ [])

module _ {W : Type 0} (c : BgpConfigurator W) where
  -- FRRConfiguration with neighbors; the raw part is written if there is a VTEP subnet.
  unfoldable pub build_node_frr_configuration_with_neighbors :
      String → String → List Neighbor → Value
  unfolding raw_config neighbor_values
  build_node_frr_configuration_with_neighbors name node neighbors =
      let router =
        object (("asn", int c.local_asn) ∷ ("neighbors", slice (neighbor_values neighbors)) ∷ []) in
      let raw =
        if not (str_eq c.vtep_cidr "")
        then (
          "raw",
          object (
              ("priority", int (pos 5))
              ∷ ("rawConfig", str (raw_config c.local_asn c.vtep_cidr neighbors))
              ∷ []),
        )
          ∷ []
        else [] in
      object (
        ("apiVersion", str "frrk8s.metallb.io/v1beta1")
        ∷ ("kind", str "FRRConfiguration")
        ∷ (
          "metadata",
          object (
              ("name", str name)
              ∷ ("namespace", str "frr-k8s-system")
              ∷ (
                "labels",
                object (
                    ("skynet.io/managed-by", str "skynet-agent")
                    ∷ ("skynet.io/local-cluster", str c.cluster_id)
                    ∷ ("skynet.io/config-type", str "per-node")
                    ∷ ("skynet.io/node", str node)
                    ∷ []),
              )
              ∷ []),
        )
        ∷ (
          "spec",
          object (
              ("bgp", object (("routers", slice (router ∷ [])) ∷ []))
              ∷ ("nodeSelector", node_selector node)
              ∷ raw),
        )
        ∷ [])

  -- The older form, with a router id and no neighbors, in the namespace "default".
  unfoldable pub build_node_frr_configuration : String → String → String → Value
  build_node_frr_configuration name node ip = object (
      ("apiVersion", str "frrk8s.metallb.io/v1beta1")
      ∷ ("kind", str "FRRConfiguration")
      ∷ (
        "metadata",
        object (
            ("name", str name)
            ∷ ("namespace", str "default")
            ∷ (
              "labels",
              object (
                  ("skynet.io/managed-by", str "skynet-agent")
                  ∷ ("skynet.io/local-cluster", str c.cluster_id)
                  ∷ ("skynet.io/node", str node)
                  ∷ []),
            )
            ∷ []),
      )
      ∷ (
        "spec",
        object (
            (
              "bgp",
              object (
                  ("routers", slice (object (("asn", int c.local_asn) ∷ ("id", str ip) ∷ []) ∷ []))
                  ∷ []),
            )
            ∷ ("nodeSelector", node_selector node)
            ∷ []),
      )
      ∷ [])
