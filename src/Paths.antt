-- ===== src/Paths.antt =====
-- What apimachinery documents of the unstructured package's nested accessors: they follow a path of
-- field names through nested maps, and find nothing where the path or the type does not fit.
use mcn.Prelude.{String, Option, none, some, List, [], ◌∷◌, ◌≡◌, str_eq, if◌then◌else◌}
use mcn.Prelude.Int.{ℤ}
use mcn.Kube.{Value, str, int, list, obj, Items, nil, cons, Fields, end, field, Machinery}

abbrev pub get_field : String → Fields → Option Value
get_field key end = none
get_field key (field k v rest) = if str_eq k key then some v else get_field key rest

abbrev pub field_of : String → Value → Option Value
field_of key (obj fs) = get_field key fs
field_of key _ = none

abbrev pub path : List String → Value → Option Value
path [] v = some v
path (key ∷ keys) v = elim (field_of key v) [ none ↦ none | some w ↦ path keys w ]

abbrev pub as_string : Option Value → Option String
as_string (some (str s)) = some s
as_string _ = none

abbrev pub as_int : Option Value → Option ℤ
as_int (some (int x)) = some x
as_int _ = none

abbrev pub as_map : Option Value → Option Value
as_map (some (obj fs)) = some (obj fs)
as_map _ = none

abbrev pub values : Items → List Value
values nil = []
values (cons v vs) = v ∷ values vs

abbrev pub as_slice : Option Value → Option (List Value)
as_slice (some (list is)) = some (values is)
as_slice _ = none

pub record FollowsPaths (lib : Machinery) : Type 0 where
  pub strings :
      (v : Value) (keys : List String) → lib.nested_string v keys ≡ as_string (path keys v)
  pub ints : (v : Value) (keys : List String) → lib.nested_int64 v keys ≡ as_int (path keys v)
  pub maps : (v : Value) (keys : List String) → lib.nested_map v keys ≡ as_map (path keys v)
  pub slices : (v : Value) (keys : List String) → lib.nested_slice v keys ≡ as_slice (path keys v)
