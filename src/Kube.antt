-- ===== src/Kube.antt =====
-- The Kubernetes client libraries as the code sees them (k8s.io/client-go/dynamic, apimachinery,
-- github.com/pkg/errors): objects as nested maps, errors by their class, and a client whose calls
-- go to a server that the model does not implement. The server's state, with everything that
-- other clients do to it, is the parameter `W`.
mod Errors
mod Effects
pub mod Keeps
pub mod Workloads
pub use Errors.*
pub use Effects.*
use mcn.Prelude.{String, Bool, Option, List, [], ◌∷◌}
use mcn.Prelude.Int.{ℤ}

-- map[string]interface{}, as it nests.
mutual
  pub data Value : Type 0 where
    null : Value
    str : String → Value
    int : ℤ → Value
    bool : Bool → Value
    list : Items → Value
    obj : Fields → Value

  pub data Items : Type 0 where
    nil : Items
    cons : Value → Items → Items

  pub data Fields : Type 0 where
    end : Fields
    field : String → Value → Fields → Fields

-- A map literal, a slice literal, and a map of texts.
abbrev fields_of : List (String × Value) → Fields
fields_of [] = end
fields_of ((k, v) ∷ rest) = field k v (fields_of rest)

abbrev pub object : List (String × Value) → Value
object fs = obj (fields_of fs)

abbrev items_of : List Value → Items
items_of [] = nil
items_of (v ∷ vs) = cons v (items_of vs)

abbrev pub slice : List Value → Value
slice vs = list (items_of vs)

abbrev text_fields : List (String × String) → Fields
text_fields [] = end
text_fields ((k, v) ∷ rest) = field k (str v) (text_fields rest)

abbrev pub text_map : List (String × String) → Value
text_map kvs = obj (text_fields kvs)

-- schema.GroupVersionResource
pub record Gvr : Type 0 where
  pub group : String
  pub version : String
  pub resource : String

-- dynamic.ResourceInterface: the calls on one resource in one namespace. A call may find the
-- server changed by others and may change it, whether it succeeds or not.
pub record Resource (W : Type 0) : Type 0 where
  pub get : String → Exec W Value
  pub list : String → Exec W (List Value)
  pub create : Value → Exec W Value
  pub update : Value → Exec W Value
  pub patch : String → Value → Exec W Value
  pub delete : String → Exec W (Unit {0})

-- dynamic.Interface: `Resource(gvr).Namespace(ns)`, with "" for no namespace.
pub record DynamicClient (W : Type 0) : Type 0 where
  pub at : Gvr → String → Resource W

-- runtime.DefaultUnstructuredConverter at one type.
pub record Converter (A : Type 0) : Type 0 where
  pub from_unstructured : Value → Result A
  pub to_unstructured : A → Result Value

-- metav1.ObjectMeta, the fields that the code reads or writes. `deleting` is whether
-- DeletionTimestamp is set.
pub record ObjectMeta : Type 0 where
  pub name : String
  pub namespace : String
  pub resource_version : String
  pub generation : ℤ
  pub labels : List (String × String)
  pub finalizers : List String
  pub deleting : Bool

-- The functions of apimachinery's unstructured package that the code calls. A nested value is none
-- where the path does not lead to a value of the type.
pub record Machinery : Type 0 where
  pub nested_string : Value → List String → Option String
  pub nested_int64 : Value → List String → Option ℤ
  pub nested_map : Value → List String → Option Value
  pub nested_slice : Value → List String → Option (List Value)
  pub get_name : Value → String
  pub get_resource_version : Value → String
  pub set_resource_version : String → Value → Value
