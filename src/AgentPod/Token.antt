-- ===== src/AgentPod/Token.antt =====
-- The agent reaches the broker with the configuration that the operator itself uses.
use mcn.Prelude.{
  String, true, false, not, List, [], ◌∷◌, ◌≡◌, refl, sym, ap, ◌∙◌, str_eq, eq_iff, arith,
  if◌then◌else◌, inl, inr, Bool-cases,
}
use mcn.Prelude.Signed.{plain}
use mcn.Kube.{Result, ok, Result-cases}
use mcn.Kube.Workloads.{Secret}
use mcn.Crd.{Skynet}
use mcn.Pools.{Pools, value_of}
use mcn.Bootstrap.{RestConfig, load_env, get_broker_config}
use mcn.AgentPod.{
  SetController, pod_env, broker_token_secret_name, broker_token_secret_key, broker_ca_secret_key,
}
use mcn.AgentPod.BrokerSecret.{set_entry, delete_entry, token_of, mirrored, rest_config_for_broker}
use mcn.AgentPod.Environment.{IsPodEnv, IsWritable, delivered, load_env-pod_env}

pub value_of-set_entry :
    (j k v : String) (es : List (String × String))
    → value_of j (set_entry k v es) ≡ (if str_eq k j then v else value_of j es)
unfolding value_of set_entry
value_of-set_entry j k v [] = refl
value_of-set_entry j k v ((i, x) ∷ es) =
    ground (arith, eq_iff k j, eq_iff i k, eq_iff i j, value_of-set_entry j k v es)

pub value_of-delete_entry :
    (j k : String) (es : List (String × String))
    → value_of j (delete_entry k es) ≡ (if str_eq k j then "" else value_of j es)
unfolding value_of delete_entry
value_of-delete_entry j k [] = ground arith
value_of-delete_entry j k ((i, x) ∷ es) =
    ground (arith, eq_iff k j, eq_iff i k, eq_iff i j, value_of-delete_entry j k es)

-- What the mirrored secret's entries are.
abbrev mirrored_entries : Secret → String → List (String × String) → List (String × String)
mirrored_entries src token es =
    if not (str_eq (value_of "ca.crt" src.entries) "")
    then set_entry broker_ca_secret_key (value_of "ca.crt" src.entries)
        (set_entry broker_token_secret_key token es)
    else delete_entry broker_ca_secret_key (set_entry broker_token_secret_key token es)

mirrored-entries :
    (set_controller : SetController) (sk : Skynet) (src old new : Secret) (token : String)
    → mirrored set_controller sk src token old ≡ ok new
    → new.entries ≡ mirrored_entries src token old.entries
unfolding mirrored
mirrored-entries set_controller sk src old new token h =
    elim (Result-cases (set_controller sk old.meta)) [
      | inr (e, k) ↦ absurd (ground arith)
      | inl (owned, k) ↦ ground arith
    ]

token_kept :
    (src : Secret) (token : String) (es : List (String × String))
    → value_of broker_token_secret_key (mirrored_entries src token es) ≡ token
token_kept src token es = elim (Bool-cases (str_eq (value_of "ca.crt" src.entries) "")) [
  | inl missing ↦ rw missing (
      value_of-delete_entry "token" "ca.crt" (set_entry "token" token es)
      ∙ value_of-set_entry "token" "token" token es)
  | inr there ↦ rw there (
      value_of-set_entry "token" "ca.crt" (value_of "ca.crt" src.entries)
        (set_entry "token" token es)
      ∙ value_of-set_entry "token" "token" token es)
]

ca_kept :
    (src : Secret) (token : String) (es : List (String × String))
    → value_of broker_ca_secret_key (mirrored_entries src token es) ≡ value_of "ca.crt" src.entries
ca_kept src token es = elim (Bool-cases (str_eq (value_of "ca.crt" src.entries) "")) [
  | inl missing ↦ rw missing (
      value_of-delete_entry "ca.crt" "ca.crt" (set_entry "token" token es)
      ∙ sym ((eq_iff (value_of "ca.crt" src.entries) "").0 missing))
  | inr there ↦ rw there (
      value_of-set_entry "ca.crt" "ca.crt" (value_of "ca.crt" src.entries)
        (set_entry "token" token es))
]

abbrev reached : String → String → String → RestConfig
reached server token ca = record {
  host = server;
  bearer_token = token;
  ca_bytes = ca;
  insecure = str_eq ca "";
}

rest_config-reached :
    (server token ca : String)
    → str_eq server "" ≡ false
    → str_eq token "" ≡ false
    → rest_config_for_broker server token ca ≡ ok (reached server token ca)
unfolding rest_config_for_broker
rest_config-reached server token ca h k = rw (h, k) refl

configured :
    (from_kubeconfig : String → Result RestConfig) (sk : Skynet) (pools : Pools) (token ca : String)
    → str_eq sk.spec.broker_config.server "" ≡ false
    → str_eq token "" ≡ false
    → get_broker_config from_kubeconfig (delivered sk pools token ca)
      ≡ ok (reached sk.spec.broker_config.server token ca)
unfolding get_broker_config
configured from_kubeconfig sk pools token ca h k = rw (h, k) refl

-- Where the broker's address is not empty, the broker secret `src` has a token, the pod's secret is
-- `new`, what the operator's mutation made of the secret that was there before, and the texts can be
-- passed by the environment, the agent's getBrokerConfig gives the REST configuration that
-- restConfigForBroker gives the operator for the token and the CA of `src`, and is no error.
pub get_broker_config-mirrored :
    (getenv : String → String) (secrets : String → List (String × String)) (sk : Skynet)
    (pools : Pools) (set_controller : SetController) (from_kubeconfig : String → Result RestConfig)
    (src old new : Secret)
    → IsPodEnv getenv secrets (pod_env sk pools)
    → IsWritable sk pools
    → str_eq sk.spec.broker_config.server "" ≡ false
    → str_eq (token_of src) "" ≡ false
    → plain (token_of src) ≡ true
    → mirrored set_controller sk src (token_of src) old ≡ ok new
    → secrets broker_token_secret_name ≡ new.entries
    → (c : RestConfig) × (get_broker_config from_kubeconfig (load_env getenv) ≡ ok c)
      × (rest_config_for_broker sk.spec.broker_config.server
            (token_of src)
            (value_of "ca.crt" src.entries)
          ≡ ok c)
get_broker_config-mirrored getenv secrets sk pools set_controller from_kubeconfig src old new p w s
      t tp m e =
    let entries = e ∙ mirrored-entries set_controller sk src old new (token_of src) m in
    let token =
      ap (value_of broker_token_secret_key) entries ∙ token_kept src (token_of src) old.entries in
    let ca = ap (value_of broker_ca_secret_key) entries ∙ ca_kept src (token_of src) old.entries in
    let server = sk.spec.broker_config.server in
    let read = load_env-pod_env getenv secrets sk pools p w (ap plain token ∙ tp) in
    (
      reached server (token_of src) (value_of "ca.crt" src.entries),
      ap (get_broker_config from_kubeconfig) read
          ∙ ap
              (λ x. get_broker_config from_kubeconfig (
                delivered sk pools x
                  (value_of broker_ca_secret_key (secrets broker_token_secret_name))))
              token
          ∙ ap (λ x. get_broker_config from_kubeconfig (delivered sk pools (token_of src) x)) ca
          ∙ configured from_kubeconfig sk pools (token_of src) (value_of "ca.crt" src.entries) s t,
      rest_config-reached server (token_of src) (value_of "ca.crt" src.entries) s t,
    )
