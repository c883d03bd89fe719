-- ===== src/Mcn.antt =====
-- The MultiClusterNetwork manager of pkg/agent/mcn/mcn_manager.go: it creates a network on the
-- broker or joins one by a finalizer named after the cluster, and leaves it by taking that off.
pub mod Finalizers
pub mod Stored
pub mod Server
pub mod Membership
pub mod Keeps
use mcn.Prelude.{
  String, Bool, true, false, not, Option, none, some, List, [], ◌∷◌, ◌++◌, ◌||◌, str_append, str_eq,
  if◌then◌else◌,
}
use mcn.Prelude.Int.{pos}
use mcn.Kube.{
  Result, ok, err, Error, message, wrap, is_not_found, is_already_exists, Exec, pure, raise, lift,
  attempt, wrapping, wrap_err, ◌>>=◌, ◌>>◌, Resource, Converter, DynamicClient, ObjectMeta,
}
use mcn.Crd.{MultiClusterNetwork, NetworkTopology, multi_cluster_network_gvr}
use mcn.Vni.{VniAllocator, allocate_vni, generate_route_target}

abbrev pub finalizer_domain : String
finalizer_domain = "multicluster.ovn.org"

-- `converter` is runtime.DefaultUnstructuredConverter at MultiClusterNetwork.
pub record McnManager (W : Type 0) : Type 0 where
  pub broker_client : DynamicClient W
  pub broker_ns : String
  pub cluster_id : String
  pub vni_allocator : VniAllocator W
  pub converter : Converter MultiClusterNetwork

-- Config of the manager; a nil client or allocator is none.
pub record McnConfig (W : Type 0) : Type 0 where
  pub broker_client : Option (DynamicClient W)
  pub broker_ns : String
  pub cluster_id : String
  pub vni_allocator : Option (VniAllocator W)

unfoldable pub new_mcn_manager :
    {W : Type 0} → Converter MultiClusterNetwork → McnConfig W → Result (McnManager W)
new_mcn_manager conv c = elim c.broker_client [
  | none ↦ err (message "brokerClient is required")
  | some client ↦
      if str_eq c.broker_ns ""
      then err (message "brokerNS is required")
      else if str_eq c.cluster_id ""
      then err (message "clusterID is required")
      else elim c.vni_allocator [
        | none ↦ err (message "vniAllocator is required")
        | some al ↦ ok (record {
          broker_client = client;
          broker_ns = c.broker_ns;
          cluster_id = c.cluster_id;
          vni_allocator = al;
          converter = conv;
        })
      ]
]

unfoldable pub contains_string : List String → String → Bool
contains_string [] s = false
contains_string (item ∷ slice) s = str_eq item s || contains_string slice s

unfoldable pub remove_string : List String → String → List String
remove_string [] s = []
remove_string (item ∷ slice) s =
    let rest = remove_string slice s in if not (str_eq item s) then item ∷ rest else rest

-- `mcn` with another list of finalizers.
abbrev pub with_finalizers : List String → MultiClusterNetwork → MultiClusterNetwork
with_finalizers fs mcn = record mcn { meta = record mcn.meta { finalizers = fs } }

module _ {W : Type 0} (m : McnManager W) where
  unfoldable pub get_finalizer_name : String
  get_finalizer_name = str_append m.cluster_id (str_append "." finalizer_domain)

  -- brokerClient.Resource(MultiClusterNetworkGVR).Namespace(brokerNS)
  abbrev pub networks : Resource W
  networks = m.broker_client.at multi_cluster_network_gvr m.broker_ns

  unfoldable pub get_mcn : String → Exec W MultiClusterNetwork
  get_mcn name = do
    u ← networks.get name
    lift (wrap_err "failed to convert MCN from unstructured" (m.converter.from_unstructured u))

  unfoldable pub update_mcn : MultiClusterNetwork → Exec W MultiClusterNetwork
  update_mcn mcn = do
    u ← lift (wrap_err "failed to convert MCN to unstructured" (m.converter.to_unstructured mcn))
    updated ← networks.update u
    lift (wrap_err "failed to convert updated MCN" (m.converter.from_unstructured updated))

  unfoldable pub join_existing_mcn : MultiClusterNetwork → Exec W MultiClusterNetwork
  unfolding get_finalizer_name
  join_existing_mcn mcn =
      if contains_string mcn.meta.finalizers get_finalizer_name
      then pure mcn
      else wrapping (str_append "failed to add finalizer to MCN " mcn.meta.name)
          (update_mcn (with_finalizers (mcn.meta.finalizers ++ get_finalizer_name ∷ []) mcn))

  -- The object that createNewMCN starts from: no VNI and no route target yet.
  unfoldable pub new_mcn : String → NetworkTopology → MultiClusterNetwork
  new_mcn name topology = record {
    meta = record {
      name = name;
      namespace = "";
      resource_version = "";
      generation = pos 0;
      labels = [];
      finalizers = get_finalizer_name ∷ [];
      deleting = false;
    };
    spec = record { vni = 0; route_target = ""; topology = topology };
  }

  -- What createNewMCN does when Create reports an error.
  unfoldable pub after_create_error : String → Error → Exec W MultiClusterNetwork
  after_create_error name e =
      if is_already_exists e
      then (do
        existing ← wrapping "failed to get MCN after create conflict" (get_mcn name)
        join_existing_mcn existing)
      else raise (wrap (str_append "failed to create MCN " (str_append name " on broker")) e)

  unfoldable pub create_new_mcn : String → NetworkTopology → Exec W MultiClusterNetwork
  unfolding new_mcn after_create_error
  create_new_mcn name topology = do
    let mcn = new_mcn name topology
    vni ← wrapping "failed to allocate VNI" (allocate_vni m.vni_allocator mcn)
    let mcn' = record mcn {
      spec = record mcn.spec { vni = vni; route_target = generate_route_target vni };
    }
    u ← lift (wrap_err "failed to convert MCN to unstructured" (m.converter.to_unstructured mcn'))
    created ← attempt (networks.create u)
    elim created [
      | ok c ↦ lift (wrap_err "failed to convert created MCN" (m.converter.from_unstructured c))
      | err e ↦ after_create_error name e
    ]

  unfoldable pub create_or_join_mcn : String → NetworkTopology → Exec W MultiClusterNetwork
  create_or_join_mcn name topology = do
    found ← attempt (get_mcn name)
    elim found [
      | ok mcn ↦ join_existing_mcn mcn
      | err e ↦
          if not (is_not_found e)
          then raise (wrap (str_append "failed to get MCN " name) e)
          else create_new_mcn name topology
    ]

  -- LeaveMCN once the network is there.
  unfoldable pub leave_existing_mcn : MultiClusterNetwork → Exec W (Unit {0})
  leave_existing_mcn mcn =
      if not (contains_string mcn.meta.finalizers get_finalizer_name) then pure tt else do
        wrapping (str_append "failed to remove finalizer from MCN " mcn.meta.name) (
            update_mcn (with_finalizers (remove_string mcn.meta.finalizers get_finalizer_name) mcn))
        pure tt

  unfoldable pub leave_mcn : String → Exec W (Unit {0})
  unfolding leave_existing_mcn
  leave_mcn name = do
    found ← attempt (get_mcn name)
    elim found [
      | ok mcn ↦ leave_existing_mcn mcn
      | err e ↦
          if is_not_found e then pure tt else raise (wrap (str_append "failed to get MCN " name) e)
    ]
