-- ===== src/AgentPod/BrokerSecret.antt =====
-- The secret that the agent's pod reads, and what the operator makes of the broker's:
-- pkg/operator/skynet/broker_sync_secret.go and broker_config.go.
use mcn.Prelude.{String, not, List, [], ◌∷◌, str_append, str_eq, if◌then◌else◌}
use mcn.Kube.{Result, ok, err, message, wrap, Exec, raise, wrapping, ◌>>=◌}
use mcn.Kube.Workloads.{Secret, TypedClient}
use mcn.Crd.{Skynet}
use mcn.Pools.{value_of}
use mcn.Bootstrap.{RestConfig}
use mcn.AgentPod.{
  broker_token_secret_name, broker_token_secret_key, broker_ca_secret_key, SetController,
}

-- corev1.ServiceAccountTokenKey
abbrev service_account_token_key : String
service_account_token_key = "token"

-- m[key] = v, and delete(m, key).
unfoldable pub set_entry : String → String → List (String × String) → List (String × String)
set_entry key v [] = (key, v) ∷ []
set_entry key v ((k, x) ∷ entries) =
    let rest = set_entry key v entries in if str_eq k key then (key, v) ∷ entries else (k, x) ∷ rest

unfoldable pub delete_entry : String → List (String × String) → List (String × String)
delete_entry key [] = []
delete_entry key ((k, x) ∷ entries) =
    let rest = delete_entry key entries in if str_eq k key then rest else (k, x) ∷ rest

-- The token of a broker secret, "" for none.
unfoldable pub token_of : Secret → String
unfolding value_of
token_of sec =
    let t = value_of service_account_token_key sec.entries in
    if str_eq t "" then value_of "token" sec.entries else t

-- The function that CreateOrUpdate is given: the secret of the agent's pod.
unfoldable pub mirrored : SetController → Skynet → Secret → String → Secret → Result Secret
unfolding value_of set_entry delete_entry
mirrored set_controller sk src token dst =
    let ca = value_of "ca.crt" src.entries in
    let with_token = set_entry broker_token_secret_key token dst.entries in
    elim (set_controller sk dst.meta) [
      | err e ↦ err (wrap "set controller ref on broker api secret" e)
      | ok owned ↦ ok (record {
        meta = owned;
        kind = "Opaque";
        entries =
            if not (str_eq ca "")
            then set_entry broker_ca_secret_key ca with_token
            else delete_entry broker_ca_secret_key with_token;
      })
    ]

-- `create_or_update ns name mutate` is controllerutil.CreateOrUpdate on the secret of the name.
unfoldable pub reconcile_broker_token_secret :
    {W : Type 0}
    → TypedClient W Secret
    → (String → String → (Secret → Result Secret) → Exec W (Unit {0}))
    → SetController
    → Skynet
    → Exec W (Unit {0})
unfolding token_of mirrored
reconcile_broker_token_secret c create_or_update set_controller sk = do
  let ref = sk.spec.broker_config.token_secret_ref
  src ←
      wrapping
        (str_append "read broker token secret "
          (str_append ref.namespace (str_append "/" ref.name)))
        (c.get ref.namespace ref.name)
  if str_eq (token_of src) ""
      then raise (
          message (
            str_append "broker secret " (
              str_append ref.namespace (
                str_append "/"
                  (str_append ref.name " has no token key (expected \"token\" or \"token\")")))))
      else wrapping "sync broker token secret into Skynet namespace" (
          create_or_update sk.meta.namespace broker_token_secret_name
            (mirrored set_controller sk src (token_of src)))

unfoldable pub rest_config_for_broker : String → String → String → Result RestConfig
rest_config_for_broker server token ca =
    if str_eq server ""
    then err (message "broker server URL is empty")
    else if str_eq token ""
    then err (message "broker token is empty")
    else ok (record { host = server; bearer_token = token; ca_bytes = ca; insecure = str_eq ca "" })
