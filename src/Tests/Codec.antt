-- ===== src/Tests/Codec.antt =====
-- A converter between networks and nested maps, for the runs.
use mcn.Prelude.{ℕ, String, Bool, false, Option, none, some, List, [], ◌∷◌, ◌≡◌, refl, ap, arith}
use mathlib.Core.Option
use mcn.Prelude.Int.{ℤ, pos}
use mcn.Kube.{
  Result, ok, err, Error, message, is_not_found, Value, str, int, bool, list, obj, Items, nil, cons,
  end, field, Converter,
}
use mcn.Crd.{MultiClusterNetwork}

abbrev texts : List String → Items
texts [] = nil
texts (s ∷ ss) = cons (str s) (texts ss)

abbrev read_texts : Items → Option (List String)
read_texts nil = some []
read_texts (cons (str s) is) = Option.map (λ ss. s ∷ ss) (read_texts is)
read_texts (cons _ is) = none

abbrev pairs : List (String × String) → Items
pairs [] = nil
pairs ((k, v) ∷ ps) = cons (str k) (cons (str v) (pairs ps))

abbrev read_pairs : Items → Option (List (String × String))
read_pairs nil = some []
read_pairs (cons (str k) (cons (str v) is)) = Option.map (λ ps. (k, v) ∷ ps) (read_pairs is)
read_pairs (cons _ is) = none

read_texts-texts : (ss : List String) → read_texts (texts ss) ≡ some ss
read_texts-texts [] = refl
read_texts-texts (s ∷ ss) = ap (Option.map (λ r. s ∷ r)) (read_texts-texts ss)

read_pairs-pairs : (ps : List (String × String)) → read_pairs (pairs ps) ≡ some ps
read_pairs-pairs [] = refl
read_pairs-pairs ((k, v) ∷ ps) = ap (Option.map (λ r. (k, v) ∷ r)) (read_pairs-pairs ps)

abbrev pub encode : MultiClusterNetwork → Value
encode n = obj (
    field "name" (str n.meta.name) (
      field "namespace" (str n.meta.namespace) (
        field "resourceVersion" (str n.meta.resource_version) (
          field "generation" (int n.meta.generation) (
            field "labels" (list (pairs n.meta.labels)) (
              field "finalizers" (list (texts n.meta.finalizers)) (
                field "deleting" (bool n.meta.deleting) (
                  field "vni" (int (pos n.spec.vni)) (
                    field "routeTarget" (str n.spec.route_target)
                      (field "topology" (str n.spec.topology) end))))))))))

abbrev assemble :
    String
    → String
    → String
    → ℤ
    → Bool
    → ℕ
    → String
    → String
    → Option (List (String × String))
    → Option (List String)
    → Option MultiClusterNetwork
assemble name ns rv gen del vni rt topo (some labels) (some fins) = some (record {
  meta = record {
    name = name;
    namespace = ns;
    resource_version = rv;
    generation = gen;
    labels = labels;
    finalizers = fins;
    deleting = del;
  };
  spec = record { vni = vni; route_target = rt; topology = topo };
})
assemble name ns rv gen del vni rt topo _ _ = none

unfoldable pub decode : Value → Option MultiClusterNetwork
decode
      (obj (
        field _ (str name) (
          field _ (str ns) (
            field _ (str rv) (
              field _ (int gen) (
                field _ (list labels) (
                  field _ (list fins) (
                    field _ (bool del) (
                      field _ (int (pos vni)) (field _ (str rt) (field _ (str topo) end))))))))))) =
    assemble name ns rv gen del vni rt topo (read_pairs labels) (read_texts fins)
decode _ = none

abbrev or_bad : Option MultiClusterNetwork → Result MultiClusterNetwork
or_bad none = err (message "not a MultiClusterNetwork")
or_bad (some n) = ok n

abbrev pub codec : Converter MultiClusterNetwork
codec = record { from_unstructured = λ u. or_bad (decode u); to_unstructured = λ n. ok (encode n) }

pub from-to : (n : MultiClusterNetwork) → codec.from_unstructured (encode n) ≡ ok n
unfolding decode
from-to n = rw (read_pairs-pairs n.meta.labels, read_texts-texts n.meta.finalizers)

or_bad-reason :
    (o : Option MultiClusterNetwork) (e : Error) → or_bad o ≡ err e → is_not_found e ≡ false
or_bad-reason none e h = ground arith
or_bad-reason (some n) e h = cc

pub from-reason :
    (u : Value) (e : Error) → codec.from_unstructured u ≡ err e → is_not_found e ≡ false
from-reason u e h = or_bad-reason (decode u) e h
