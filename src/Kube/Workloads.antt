-- ===== src/Kube/Workloads.antt =====
-- What the operator reads and writes of the workload types (k8s.io/api apps/v1 and core/v1), and
-- the typed client of sigs.k8s.io/controller-runtime.
use mcn.Prelude.{String, Bool, Option, List, str_append}
use mcn.Prelude.Int.{ℤ}
use mcn.Kube.Effects.{Exec}

-- metav1.ObjectMeta of a workload. `controller` is the UID of the owner that controls it, if any.
pub record WorkloadMeta : Type 0 where
  pub name : String
  pub namespace : String
  pub labels : List (String × String)
  pub controller : Option String

-- corev1.EnvVar: a value, or the key of a secret in the pod's namespace, which may be optional.
pub data EnvSource : Type 0 where
  value : String → EnvSource
  secret_key : String → String → Bool → EnvSource

pub record EnvVar : Type 0 where
  pub name : String
  pub source : EnvSource

pub record Container : Type 0 where
  pub name : String
  pub image : String
  pub env : List EnvVar

pub record PodTemplate : Type 0 where
  pub labels : List (String × String)
  pub service_account : String
  pub containers : List Container

-- appsv1.Deployment; `replicas` is a pointer.
pub record Deployment : Type 0 where
  pub meta : WorkloadMeta
  pub replicas : Option ℤ
  pub selector : List (String × String)
  pub template : PodTemplate
  pub updated_replicas : ℤ
  pub ready_replicas : ℤ
  pub available_replicas : ℤ

-- corev1.Secret, with each value as a text.
pub record Secret : Type 0 where
  pub meta : WorkloadMeta
  pub kind : String
  pub entries : List (String × String)

-- client.Client at one type: a namespace and a name to read, and the object as the server has it
-- after a write, which the client puts in place of the one that was passed.
pub record TypedClient (W A : Type 0) : Type 0 where
  pub get : String → String → Exec W A
  pub create : A → Exec W A
  pub update : A → Exec W A

-- What the operator creates when it starts: corev1.Namespace and corev1.ServiceAccount have nothing
-- but their metadata.
pub data Object : Type 0 where
  namespace : WorkloadMeta → Object
  service_account : WorkloadMeta → Object
  deployment : Deployment → Object

-- The path of an object on the API server, by which the server tells objects apart.
abbrev pub path : Object → String
path (namespace m) = str_append "/api/v1/namespaces/" m.name
path (service_account m) =
    str_append "/api/v1/namespaces/"
      (str_append m.namespace (str_append "/serviceaccounts/" m.name))
path (deployment d) =
    str_append "/apis/apps/v1/namespaces/"
      (str_append d.meta.namespace (str_append "/deployments/" d.meta.name))
