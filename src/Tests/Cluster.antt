-- ===== src/Tests/Cluster.antt =====
-- An in-memory local cluster beside an in-memory broker: the CUDNs of the cluster by name, and
-- whether the advertisement that the runs ask for is there.
use mcn.Prelude.{String, Bool, true, false, List, [], ◌∷◌, refl, str_eq, if◌then◌else◌}
use mcn.Prelude.Int.{pos}
use mcn.Kube.{
  Result, ok, err, api, not_found, already_exists, other_reason, Exec, Value, str, Resource,
  DynamicClient, Machinery,
}
use mcn.Crd.{MultiClusterNetworkConnect, MultiClusterNetworkConnectSpec, ConnectPhase, CudnSpec}
use mcn.Cudn.{CudnIntegrator}
use mcn.RouteAdv.{Creator}
use mcn.Connect.{McncReconciler}
use mcn.Paths.{FollowsPaths, path, as_string, as_int, as_map, as_slice}
use mcn.Tests.Codec.{codec}
use mcn.Tests.Broker.{Networks, client}

abbrev pub machinery : Machinery
machinery = record {
  nested_string = λ v keys. as_string (path keys v);
  nested_int64 = λ v keys. as_int (path keys v);
  nested_map = λ v keys. as_map (path keys v);
  nested_slice = λ v keys. as_slice (path keys v);
  get_name = λ v. "";
  get_resource_version = λ v. "";
  set_resource_version = λ rv v. v;
}

pub machinery-FollowsPaths : FollowsPaths machinery
machinery-FollowsPaths = record {
  strings = λ v keys. refl;
  ints = λ v keys. refl;
  maps = λ v keys. refl;
  slices = λ v keys. refl;
}

pub record World : Type 0 where
  pub broker : Networks
  pub cudns : List (String × Value)
  pub advertised : Bool

abbrev lookup : String → List (String × Value) → Result Value
lookup name [] = err (api not_found "not found")
lookup name ((k, v) ∷ rest) = if str_eq k name then ok v else lookup name rest

-- The broker's calls, in the world that has the broker as a part.
abbrev on_broker : {A : Type 0} → Exec Networks A → Exec World A
on_broker m w = let (r, b) = m w.broker in (r, record w { broker = b })

abbrev lifted : Resource Networks → Resource World
lifted r = record {
  get = λ name. on_broker (r.get name);
  list = λ selector. on_broker (r.list selector);
  create = λ u. on_broker (r.create u);
  update = λ u. on_broker (r.update u);
  patch = λ name u. on_broker (r.patch name u);
  delete = λ name. on_broker (r.delete name);
}

abbrev broker_client : DynamicClient World
broker_client = record { at = λ gvr ns. lifted (client.at gvr ns) }

abbrev refused : {A : Type 0} → Result A
refused = err (api other_reason "not served")

-- A patch replaces the object by the patch.
abbrev cudn_client : DynamicClient World
cudn_client = record {
  at = λ gvr ns. record {
    get = λ name w. (lookup name w.cudns, w);
    list = λ selector w. (ok [], w);
    create = λ u w. (refused, w);
    update = λ u w. (refused, w);
    patch = λ name u w. (ok u, record w { cudns = (name, u) ∷ w.cudns });
    delete = λ name w. (ok tt, record w { cudns = [] });
  };
}

abbrev advertisement_client : DynamicClient World
advertisement_client = record {
  at = λ gvr ns. record {
    get = λ name w. (if w.advertised then ok (str name) else err (api not_found "not found"), w);
    list = λ selector w. (ok [], w);
    create = λ u w. (
      if w.advertised then err (api already_exists "already exists") else ok u,
      record w { advertised = true },
    );
    update = λ u w. (refused, w);
    patch = λ name u w. (refused, w);
    delete = λ name w. (
      if w.advertised then ok tt else err (api not_found "not found"),
      record w { advertised = false },
    );
  };
}

abbrev pub integrator : CudnIntegrator World
integrator = record {
  dynamic_client = cudn_client;
  vtep_name = "evpn-vtep";
  machinery = machinery;
  pause = λ w. (ok tt, w);
}

abbrev pub creator : Creator World
creator = record {
  dynamic_client = advertisement_client;
  cluster_name = "east";
  machinery = machinery;
}

abbrev pub reconciler : McncReconciler World
reconciler = record {
  get_mcnc = λ ns name w. (err (api not_found "not found"), w);
  update_mcnc = λ c w. (ok c, w);
  update_status = λ c w. (ok c, w);
  get_namespace = λ ns w. (ok ns, w);
  dynamic_client = cudn_client;
  mcn_manager = record {
    broker_client = broker_client;
    broker_ns = "skynet-broker";
    cluster_id = "east";
    vni_allocator = record {
      broker_client = broker_client;
      broker_ns = "skynet-broker";
      cluster_id = "east";
      converter = codec;
    };
    converter = codec;
  };
  cudn_integrator = integrator;
  route_adv_creator = creator;
}

-- An object that connects the user's CUDN to a network, by these settings.
abbrev pub connect : MultiClusterNetworkConnectSpec → MultiClusterNetworkConnect
connect spec = record {
  meta = record {
    name = "app";
    namespace = "app";
    resource_version = "1";
    generation = pos 1;
    labels = [];
    finalizers = "skynet.io/mcnc-cleanup" ∷ [];
    deleting = false;
  };
  spec = spec;
  phase = ConnectPhase.unset;
}

abbrev pub made_by_skynet : CudnSpec
made_by_skynet = record {
  name = "";
  namespace_selector = ("app", "shop") ∷ [];
  topology = "Layer2";
  subnets = [];
  role = "";
}
