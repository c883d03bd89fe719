-- ===== src/Tests/Frr.antt =====
-- A reconciliation of the BGP configurations on a server that holds them by name.
use mcn.Prelude.{
  String, false, Option, none, some, List, [], ◌∷◌, ◌≡◌, refl, str_eq, arith, eq_iff, ap, ◌∙◌,
  if◌then◌else◌,
}
use mcn.Prelude.Int.{pos}
use mcn.Kube.{Result, ok, err, api, not_found, other_reason, Value, str, DynamicClient}
use mcn.Bgp.{BgpConfigurator}
use mcn.Bgp.Reconcile.{reconcile_bgp_config}
use mcn.Bgp.Written.{IsServed, IsWritten, reconcile_bgp_config-IsWritten}
use mcn.Paths.{as_string, path}
use mcn.Tests.Cluster.{machinery}
use mcn.Tests.Nodes.{east, west}

abbrev Store : Type 0
Store = List (String × Value)

abbrev held : String → Store → Option Value
held k [] = none
held k ((n, v) ∷ w) = if str_eq k n then some v else held k w

abbrev removed : String → Store → Store
removed k [] = []
removed k ((n, v) ∷ w) = let rest = removed k w in if str_eq k n then rest else (n, v) ∷ rest

abbrev name_of : Value → String
name_of v = elim (as_string (path ("metadata" ∷ "name" ∷ []) v)) [ none ↦ "" | some s ↦ s ]

abbrev found : Option Value → Result Value
found none = err (api not_found "not found")
found (some v) = ok v

abbrev refused : {A : Type 0} → Result A
refused = err (api other_reason "not served")

abbrev client : DynamicClient Store
client = record {
  at = λ gvr ns. record {
    get = λ n w. (found (held n w), w);
    list = λ selector w. (ok [], w);
    create = λ v w. (ok v, (name_of v, v) ∷ w);
    update = λ v w. (ok v, (name_of v, v) ∷ w);
    patch = λ n v w. (refused, w);
    delete = λ n w. (ok tt, removed n w);
  };
}

abbrev configurator : BgpConfigurator Store
configurator = record {
  local_client = client;
  cluster_id = "east";
  local_asn = pos 64512;
  vtep_cidr = "100.0.0.0/16";
  topology = "FullMesh";
  machinery = machinery;
}

held-put : (k : String) (v : Value) (w : Store) → held k ((k, v) ∷ w) ≡ some v
held-put k v w = ground (arith, eq_iff k k)

put_other :
    (k n : String) (v : Value) (w : Store) → str_eq k n ≡ false → held k ((n, v) ∷ w) ≡ held k w
put_other k n v w h = ground arith

removed_other : (k n : String) (w : Store) → str_eq k n ≡ false → held k (removed n w) ≡ held k w
removed_other k n [] h = refl
removed_other k n ((m, v) ∷ w) h =
    ground (arith, removed_other k n w h, eq_iff n m, eq_iff k m, eq_iff k n)

name_of_named :
    (v : Value) (k : String) → path ("metadata" ∷ "name" ∷ []) v ≡ some (str k) → name_of v ≡ k
name_of_named v k h = ground arith

-- Writing an object puts it under its name.
abbrev stored : Value → Store → Store
stored v w = (name_of v, v) ∷ w

held-stored :
    (v : Value) (k : String) (w : Store)
    → path ("metadata" ∷ "name" ∷ []) v ≡ some (str k)
    → held k (stored v w) ≡ some v
held-stored v k w h = ap (λ n. held k ((n, v) ∷ w)) (name_of_named v k h) ∙ held-put k v w

stored_other :
    (v : Value) (n k : String) (w : Store)
    → path ("metadata" ∷ "name" ∷ []) v ≡ some (str n)
    → str_eq k n ≡ false
    → held k (stored v w) ≡ held k w
stored_other v n k w h o = ap (λ m. held k ((m, v) ∷ w)) (name_of_named v n h) ∙ put_other k n v w o

server : IsServed configurator held (λ v. v)
server = record {
  reads = λ n k w. refl;
  updates = λ v x k rv w h _. held-stored v k w h;
  creates = λ v x k w h _. held-stored v k w h;
  updates_only = λ v n k rv w h o. stored_other v n k w h o;
  creates_only = λ v n k w h o. stored_other v n k w h o;
  deletes_only = λ n k w h. removed_other k n w h;
}

reconcile_bgp_config-IsWritten_example :
    ((reconcile_bgp_config configurator east (west ∷ []) []).0 ≡ ok tt)
    × IsWritten configurator held
        (λ v. v)
        server
        east
        (west ∷ [])
        []
        (reconcile_bgp_config configurator east (west ∷ []) []).1
reconcile_bgp_config-IsWritten_example =
    reconcile_bgp_config-IsWritten configurator held (λ v. v) server east (west ∷ []) []
