-- ===== src/Tests/Broker.antt =====
-- An in-memory broker: its state is the list of the networks that it stores.
use mcn.Prelude.{
  ℕ, String, false, Option, none, some, List, [], ◌∷◌, ◌++◌, ◌≡◌, refl, ap, sym, ◌∙◌, map, inl, inr,
}
use mathlib.Core.Path.{subst}
use mcn.Prelude.Int.{pos}
use mcn.Kube.{
  ok_inj, Result, ok, err, Error, api, not_found, already_exists, other_reason, Value, Resource,
  DynamicClient,
}
use mcn.Crd.{MultiClusterNetwork}
use mcn.Vni.{VniAllocator}
use mcn.Vni.Allocate.{Listed}
use mcn.Mcn.{McnManager}
use mcn.Mcn.Stored.{find, replace, without, SameNetwork, Stored}
use mcn.Mcn.Server.{IsServer}
use mcn.Tests.Codec.{encode, codec, from-to, from-reason}

abbrev pub Networks : Type 0
Networks = List MultiClusterNetwork

abbrev get_from : Networks → Option MultiClusterNetwork → Result Value × Networks
get_from w none = (err (api not_found "not found"), w)
get_from w (some n) = (ok (encode n), w)

abbrev add_to :
    Networks → Value → MultiClusterNetwork → Option MultiClusterNetwork → Result Value × Networks
add_to w u n none = (ok u, w ++ n ∷ [])
add_to w u n (some _) = (err (api already_exists "already exists"), w)

abbrev put_in :
    Networks → Value → MultiClusterNetwork → Option MultiClusterNetwork → Result Value × Networks
put_in w u n none = (err (api not_found "not found"), w)
put_in w u n (some _) = (ok u, replace n w)

abbrev create_from : Networks → Value → Result MultiClusterNetwork → Result Value × Networks
create_from w u (ok n) = add_to w u n (find n.meta.name w)
create_from w u (err e) = (err (api other_reason "invalid"), w)

abbrev update_from : Networks → Value → Result MultiClusterNetwork → Result Value × Networks
update_from w u (ok n) = put_in w u n (find n.meta.name w)
update_from w u (err e) = (err (api other_reason "invalid"), w)

abbrev resource : Resource Networks
resource = record {
  get = λ name w. get_from w (find name w);
  list = λ selector w. (ok (map encode w), w);
  create = λ u w. create_from w u (codec.from_unstructured u);
  update = λ u w. update_from w u (codec.from_unstructured u);
  patch = λ name p w. (err (api other_reason "not served"), w);
  delete = λ name w. (ok tt, without name w);
}

abbrev pub client : DynamicClient Networks
client = record { at = λ gvr ns. resource }

abbrev pub vni_allocator : VniAllocator Networks
vni_allocator = record {
  broker_client = client;
  broker_ns = "skynet-broker";
  cluster_id = "east";
  converter = codec;
}

-- The manager of a cluster on this broker.
abbrev pub manager : String → McnManager Networks
manager id = record {
  broker_client = client;
  broker_ns = "skynet-broker";
  cluster_id = id;
  vni_allocator = vni_allocator;
  converter = codec;
}

SameNetwork-refl : (n : MultiClusterNetwork) → SameNetwork n n
SameNetwork-refl n = record {
  name = refl;
  finalizers = refl;
  vni = refl;
  route_target = refl;
  topology = refl;
}

finds :
    (o : Option MultiClusterNetwork) (w : Networks) (u : Value) (n : MultiClusterNetwork)
    → (get_from w o).0 ≡ ok u
    → codec.from_unstructured u ≡ ok n
    → o ≡ some n
finds none w u n h k = cc
finds (some old) w u n h k = cc (from-to old, k, ap (λ v. codec.from_unstructured v) (ok_inj h))

misses :
    (o : Option MultiClusterNetwork) (w : Networks) (e : Error)
    → (get_from w o).0 ≡ err e
    → o ≡ none
misses none w e h = refl
misses (some n) w e h = cc

keeps : (o : Option MultiClusterNetwork) (w : Networks) → (get_from w o).1 ≡ w
keeps none w = refl
keeps (some n) w = refl

shows : (w : Networks) (n : MultiClusterNetwork) → Stored n w → Listed codec n (map encode w)
shows [] n h = elim h [ ]
shows (k ∷ ks) n (inl e) = inl (from-to k ∙ ap ok e)
shows (k ∷ ks) n (inr h) = inr (shows ks n h)

only : (w : Networks) (n : MultiClusterNetwork) → Listed codec n (map encode w) → Stored n w
only [] n h = elim h [ ]
only (k ∷ ks) n (inl e) = inl (ok_inj (sym (from-to k) ∙ e))
only (k ∷ ks) n (inr h) = inr (only ks n h)

adds :
    (o : Option MultiClusterNetwork) (w : Networks) (u c : Value) (n : MultiClusterNetwork)
    → (add_to w u n o).0 ≡ ok c
    → (o ≡ none) × (u ≡ c) × ((add_to w u n o).1 ≡ w ++ n ∷ [])
adds none w u c n h = (refl, ok_inj h, refl)
adds (some k) w u c n h = cc

puts :
    (o : Option MultiClusterNetwork) (w : Networks) (u c : Value) (n : MultiClusterNetwork)
    → (put_in w u n o).0 ≡ ok c
    → ((old : MultiClusterNetwork) × (o ≡ some old)) × (u ≡ c) × ((put_in w u n o).1 ≡ replace n w)
puts none w u c n h = cc
puts (some k) w u c n h = ((k, refl), ok_inj h, refl)

add_fails :
    (o : Option MultiClusterNetwork) (w : Networks) (u : Value) (n : MultiClusterNetwork)
    (e : Error)
    → (add_to w u n o).0 ≡ err e
    → (add_to w u n o).1 ≡ w
add_fails none w u n e h = cc
add_fails (some k) w u n e h = refl

put_fails :
    (o : Option MultiClusterNetwork) (w : Networks) (u : Value) (n : MultiClusterNetwork)
    (e : Error)
    → (put_in w u n o).0 ≡ err e
    → (put_in w u n o).1 ≡ w
put_fails none w u n e h = refl
put_fails (some k) w u n e h = cc

create_fails :
    (r : Result MultiClusterNetwork) (w : Networks) (u : Value) (e : Error)
    → (create_from w u r).0 ≡ err e
    → (create_from w u r).1 ≡ w
create_fails (ok n) w u e h = add_fails (find n.meta.name w) w u n e h
create_fails (err b) w u e h = refl

update_fails :
    (r : Result MultiClusterNetwork) (w : Networks) (u : Value) (e : Error)
    → (update_from w u r).0 ≡ err e
    → (update_from w u r).1 ≡ w
update_fails (ok n) w u e h = put_fails (find n.meta.name w) w u n e h
update_fails (err b) w u e h = refl

creates :
    (r : Result MultiClusterNetwork) (w : Networks) (u c : Value) (n : MultiClusterNetwork)
    → r ≡ ok n
    → (create_from w u r).0 ≡ ok c
    → (find n.meta.name w ≡ none) × (u ≡ c) × ((create_from w u r).1 ≡ w ++ n ∷ [])
creates r w u c n e h =
    subst
      (λ (x : Result MultiClusterNetwork).
        (create_from w u x).0 ≡ ok c
        → (find n.meta.name w ≡ none) × (u ≡ c) × ((create_from w u x).1 ≡ w ++ n ∷ []))
      (sym e) (adds (find n.meta.name w) w u c n) h

updates :
    (r : Result MultiClusterNetwork) (w : Networks) (u c : Value) (n : MultiClusterNetwork)
    → r ≡ ok n
    → (update_from w u r).0 ≡ ok c
    → ((old : MultiClusterNetwork) × (find n.meta.name w ≡ some old))
      × (u ≡ c)
      × ((update_from w u r).1 ≡ replace n w)
updates r w u c n e h =
    subst
      (λ (x : Result MultiClusterNetwork).
        (update_from w u x).0 ≡ ok c
        → ((old : MultiClusterNetwork) × (find n.meta.name w ≡ some old))
          × (u ≡ c)
          × ((update_from w u x).1 ≡ replace n w))
      (sym e) (puts (find n.meta.name w) w u c n) h

from-encoded :
    (n : MultiClusterNetwork) (u : Value)
    → codec.to_unstructured n ≡ ok u
    → codec.from_unstructured u ≡ ok n
from-encoded n u h = ap (λ v. codec.from_unstructured v) (sym (ok_inj h)) ∙ from-to n

-- The in-memory broker behaves as the manager relies on.
pub manager-IsServer : (id : String) → IsServer (manager id) (λ w. w)
manager-IsServer id = record {
  get_keeps = λ name w. keeps (find name w) w;
  list_keeps = λ w. refl;
  get_finds = λ name w u n h k. finds (find name w) w u n h k;
  get_misses = λ name w e h _. misses (find name w) w e h;
  convert_reason = from-reason;
  list_shows = λ w us n h k. subst (λ l. Listed codec n l) (ok_inj h) (shows w n k);
  list_only = λ w us n h k. only w n (subst (λ l. Listed codec n l) (sym (ok_inj h)) k);
  create_adds = λ n w u c h k.
      let (free, same, stored) =
        creates (codec.from_unstructured u) w u c n (from-encoded n u h) k in
      (
        n,
        ap (λ v. codec.from_unstructured v) (sym same) ∙ from-encoded n u h,
        SameNetwork-refl n,
        free,
        stored,
      );
  create_fails = λ u w e h. create_fails (codec.from_unstructured u) w u e h;
  update_writes = λ n w u c h k.
      let (known, same, stored) =
        updates (codec.from_unstructured u) w u c n (from-encoded n u h) k in
      (
        n,
        ap (λ v. codec.from_unstructured v) (sym same) ∙ from-encoded n u h,
        record { same = SameNetwork-refl n; known = known; stores = inl stored },
      );
  update_fails = λ u w e h. update_fails (codec.from_unstructured u) w u e h;
}

-- A network with no finalizers, as another party might have made it.
abbrev pub network : String → ℕ → MultiClusterNetwork
network name vni = record {
  meta = record {
    name = name;
    namespace = "skynet-broker";
    resource_version = "1";
    generation = pos 1;
    labels = [];
    finalizers = [];
    deleting = false;
  };
  spec = record { vni = vni; route_target = "65000:1"; topology = "Layer3" };
}
