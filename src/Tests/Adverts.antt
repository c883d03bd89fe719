-- ===== src/Tests/Adverts.antt =====
-- Advertisements on a server that holds their names.
use mcn.Prelude.{
  String, Bool, true, false, none, some, List, [], ◌∷◌, ◌≡◌, refl, str_eq, eq_iff, arith, inl, inr,
  ap, ◌∙◌, sym, Bool-cases, if◌then◌else◌,
}
use mcn.Kube.{
  Result, ok, err, api, not_found, already_exists, other_reason, Value, str, DynamicClient,
}
use mcn.Crd.{MultiClusterNetwork}
use mcn.Paths.{path, as_string}
use mcn.RouteAdv.{Creator, ra_name, route_advertisement, create_for_cudn}
use mcn.RouteAdv.Idempotent.{IsServed, create_for_cudn-present}
use mcn.Tests.Broker.{network}
use mcn.Tests.Cluster.{machinery}

abbrev Adverts : Type 0
Adverts = List String

abbrev has : String → Adverts → Bool
has name [] = false
has name (n ∷ w) = let later = has name w in if str_eq n name then true else later

abbrev name_of : Value → String
name_of v = elim (as_string (path ("metadata" ∷ "name" ∷ []) v)) [ none ↦ "" | some s ↦ s ]

abbrev refused : {A : Type 0} → Result A
refused = err (api other_reason "not served")

abbrev client : DynamicClient Adverts
client = record {
  at = λ gvr ns. record {
    get = λ name w. (if has name w then ok (str name) else err (api not_found "not found"), w);
    list = λ selector w. (ok [], w);
    create = λ v w.
        if has (name_of v) w
        then (err (api already_exists "already exists"), w)
        else (ok v, name_of v ∷ w);
    update = λ v w. (refused, w);
    patch = λ name v w. (refused, w);
    delete = λ name w. (refused, w);
  };
}

abbrev creator : Creator Adverts
creator = record { dynamic_client = client; cluster_name = "east"; machinery = machinery }

abbrev IsListed : String → Adverts → Type 0
IsListed name w = has name w ≡ true

has_first : (name : String) (w : Adverts) → has name (name ∷ w) ≡ true
has_first name w = ground (arith, eq_iff name name)

abbrev creating : Value → Adverts → Result Value × Adverts
creating v w = (client.at (record { group = ""; version = ""; resource = "" }) "").create v w

name_of_named :
    (v : Value) (name : String)
    → path ("metadata" ∷ "name" ∷ []) v ≡ some (str name)
    → name_of v ≡ name
name_of_named v name h = ground arith

creating_free :
    (v : Value) (w : Adverts) → has (name_of v) w ≡ false → creating v w ≡ (ok v, name_of v ∷ w)
creating_free v w h = ground arith

creating_taken : (v : Value) (w : Adverts) → has (name_of v) w ≡ true → (creating v w).1 ≡ w
creating_taken v w h = ground arith

-- Whatever Create answers, the name is there afterwards.
created :
    (v : Value) (name : String) (w : Adverts)
    → path ("metadata" ∷ "name" ∷ []) v ≡ some (str name)
    → IsListed name (creating v w).1
created v name w h = elim (Bool-cases (has (name_of v) w)) [
  | inl taken ↦
      ap (has name) (creating_taken v w taken)
      ∙ ap (λ n. has n w) (sym (name_of_named v name h))
      ∙ taken
  | inr free ↦
      ap (λ r. has name r.1) (creating_free v w free)
      ∙ ap (λ n. has name (n ∷ w)) (name_of_named v name h)
      ∙ has_first name w
]

creator-IsServed : IsServed creator IsListed
creator-IsServed = record {
  get_finds = λ name w u h. elim (Bool-cases (has name w)) [
    | inl there ↦ there
    | inr missing ↦ absurd (ground arith)
  ];
  create_adds = λ v name w u n h. created v name w n;
  create_meets = λ v name w e n h a. created v name w n;
}

abbrev blue : MultiClusterNetwork
blue = network "blue" 5000

creates : (create_for_cudn creator "shop" blue ("skynet-east-other" ∷ [])).0 ≡ ok tt
unfolding create_for_cudn route_advertisement
creates = refl

create_for_cudn-present_example :
    IsListed
      (ra_name creator "shop")
      (create_for_cudn creator "shop" blue ("skynet-east-other" ∷ [])).1
create_for_cudn-present_example =
    create_for_cudn-present creator IsListed creator-IsServed "shop" ("skynet-east-other" ∷ []) blue
      creates
