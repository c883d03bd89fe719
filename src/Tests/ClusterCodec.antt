-- ===== src/Tests/ClusterCodec.antt =====
-- The cluster's object as an unstructured value that can be read back.
use mcn.Prelude.{ℕ, zero, suc, String, Bool, false, List, [], ◌∷◌, ◌≡◌, refl, str_eq, if◌then◌else◌}
use mcn.Prelude.Int.{ℤ, pos}
use mcn.Kube.{Value, null, str, int, bool, list, Items, nil, cons}
use mcn.Crd.{Cluster, ClusterPhase, NodeEndpoint}

abbrev at : ℕ → Items → Value
at n nil = null
at zero (cons v vs) = v
at (suc n) (cons v vs) = at n vs

abbrev items : Value → Items
items (list is) = is
items _ = nil

abbrev as_text : Value → String
as_text (str s) = s
as_text _ = ""

abbrev number : Value → ℤ
number (int z) = z
number _ = pos 0

abbrev natural : ℤ → ℕ
natural (pos n) = n
natural _ = 0

abbrev flag : Value → Bool
flag (bool b) = b
flag _ = false

-- A list of values, each written by one function and read by another.
abbrev written : {A : Type 0} → (A → Value) → List A → Items
written f [] = nil
written f (x ∷ xs) = cons (f x) (written f xs)

abbrev read_back : {A : Type 0} → (Value → A) → Items → List A
read_back g nil = []
read_back g (cons v vs) = g v ∷ read_back g vs

read_back-written :
    {A : Type 0} (f : A → Value) (g : Value → A)
    → ((x : A) → g (f x) ≡ x)
    → (xs : List A) → read_back g (written f xs) ≡ xs
read_back-written f g h [] = refl
read_back-written f g h (x ∷ xs) = λ i. h x i ∷ read_back-written f g h xs i

abbrev label_value : String × String → Value
label_value (k, v) = list (cons (str k) (cons (str v) nil))

abbrev label_read : Value → String × String
label_read v = (as_text (at 0 (items v)), as_text (at 1 (items v)))

label_back : (x : String × String) → label_read (label_value x) ≡ x
label_back (k, v) = refl

abbrev endpoint_value : NodeEndpoint → Value
endpoint_value e = list (
    cons (str e.node) (
      cons (str e.bgp_peer_ip)
        (cons (list (written str e.vtep_ips)) (cons (bool e.route_reflector) nil))))

abbrev endpoint_read : Value → NodeEndpoint
endpoint_read v = record {
  node = as_text (at 0 (items v));
  bgp_peer_ip = as_text (at 1 (items v));
  vtep_ips = read_back as_text (items (at 2 (items v)));
  route_reflector = flag (at 3 (items v));
}

endpoint_back : (e : NodeEndpoint) → endpoint_read (endpoint_value e) ≡ e
endpoint_back e =
    λ i. record e { vtep_ips = read_back-written str as_text (λ s. refl) e.vtep_ips i }

abbrev phase_text : ClusterPhase → String
phase_text ClusterPhase.unset = ""
phase_text ClusterPhase.pending = "Pending"
phase_text ClusterPhase.ready = "Ready"
phase_text ClusterPhase.degraded = "Degraded"

abbrev phase_read : String → ClusterPhase
phase_read s =
    if str_eq s "Pending"
    then ClusterPhase.pending
    else if str_eq s "Ready"
    then ClusterPhase.ready
    else if str_eq s "Degraded"
    then ClusterPhase.degraded
    else ClusterPhase.unset

phase_back : (p : ClusterPhase) → phase_read (phase_text p) ≡ p
phase_back ClusterPhase.unset = refl
phase_back ClusterPhase.pending = refl
phase_back ClusterPhase.ready = refl
phase_back ClusterPhase.degraded = refl

abbrev pub encoded : Cluster → Value
encoded c = list (
    cons (str c.meta.name) (
      cons (str c.meta.namespace) (
        cons (str c.meta.resource_version) (
          cons (int c.meta.generation) (
            cons (list (written label_value c.meta.labels)) (
              cons (list (written str c.meta.finalizers)) (
                cons (bool c.meta.deleting) (
                  cons (str c.spec.cluster_id) (
                    cons (str c.spec.vtep_cidr) (
                      cons (int c.spec.asn) (
                        cons (str (phase_text c.status.phase)) (
                          cons (list (written endpoint_value c.status.endpoints))
                            (cons (int (pos c.status.last_heartbeat)) nil)))))))))))))

abbrev pub decoded : Value → Cluster
decoded v =
    let is = items v in
    record {
      meta = record {
        name = as_text (at 0 is);
        namespace = as_text (at 1 is);
        resource_version = as_text (at 2 is);
        generation = number (at 3 is);
        labels = read_back label_read (items (at 4 is));
        finalizers = read_back as_text (items (at 5 is));
        deleting = flag (at 6 is);
      };
      spec = record {
        cluster_id = as_text (at 7 is);
        vtep_cidr = as_text (at 8 is);
        asn = number (at 9 is);
      };
      status = record {
        phase = phase_read (as_text (at 10 is));
        endpoints = read_back endpoint_read (items (at 11 is));
        last_heartbeat = natural (number (at 12 is));
      };
    }

pub decoded-encoded : (c : Cluster) → decoded (encoded c) ≡ c
decoded-encoded c = λ i. record {
  meta = record c.meta {
    labels = read_back-written label_value label_read label_back c.meta.labels i;
    finalizers = read_back-written str as_text (λ s. refl) c.meta.finalizers i;
  };
  spec = c.spec;
  status = record c.status {
    phase = phase_back c.status.phase i;
    endpoints = read_back-written endpoint_value endpoint_read endpoint_back c.status.endpoints i;
  };
}
