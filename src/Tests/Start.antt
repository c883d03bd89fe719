-- ===== src/Tests/Start.antt =====
-- The start of the operator on a server whose state is the list of its objects.
use mcn.Prelude.{
  String, Option, none, some, List, [], ◌∷◌, ◌≡◌, refl, str_eq, arith, inl, inr, Option-cases,
  eq_iff, ap, ◌∙◌, if◌then◌else◌,
}
use mcn.Kube.{Result, ok, err, api, already_exists}
use mcn.Kube.Workloads.{Object, path}
use mcn.Names.{broker_component}
use mcn.Install.{the_deployment, broker_image, ensure, install}
use mcn.Install.Present.{IsServed, IsInstalled, install-IsInstalled}

abbrev Objects : Type 0
Objects = List (String × Object)

abbrev held : String → Objects → Option Object
held k [] = none
held k ((p, x) ∷ w) = if str_eq k p then some x else held k w

abbrev create : Object → Objects → Result Object × Objects
create x w = elim (held (path x) w) [
  | none ↦ (ok x, (path x, x) ∷ w)
  | some _ ↦ (err (api already_exists "it is there"), w)
]

create_free :
    (x : Object) (w : Objects) → held (path x) w ≡ none → create x w ≡ (ok x, (path x, x) ∷ w)
create_free x w h = ground arith

create_there : (x z : Object) (w : Objects) → held (path x) w ≡ some z → (create x w).1 ≡ w
create_there x z w h = ground arith

held_first : (x : Object) (w : Objects) → held (path x) ((path x, x) ∷ w) ≡ some x
held_first x w = ground (arith, eq_iff (path x) (path x))

server : IsServed create (λ x. x) held
server = record {
  creates = λ x y w h. elim (Option-cases (held (path x) w)) [
    | inl free ↦ (free, ap (λ r. held (path x) r.1) (create_free x w free) ∙ held_first x w)
    | inr (z, there) ↦ absurd (ground arith)
  ];
  meets = λ x e w h a. elim (Option-cases (held (path x) w)) [
    | inl free ↦ absurd (ground arith)
    | inr (z, there) ↦ (z, there, ap (held (path x)) (create_there x z w there) ∙ there)
  ];
  others = λ x k w n. elim (Option-cases (held (path x) w)) [
    | inl free ↦ ap (λ r. held k r.1) (create_free x w free) ∙ ground arith
    | inr (z, there) ↦ ap (held k) (create_there x z w there)
  ];
}

abbrev getenv : String → String
getenv name = if str_eq name "RELATED_IMAGE_BROKER" then "registry/broker:2" else ""

-- A cluster where an older operator has left the broker's Deployment.
abbrev old_broker : Object
old_broker = the_deployment broker_component "registry/broker:1"

abbrev old : Objects
old = (path old_broker, old_broker) ∷ []

abbrev after : Objects
after = (install create getenv old).1

goes_through : install create getenv old ≡ (ok tt, after)
unfolding install ensure
goes_through = refl

keeps_the_image : held (path old_broker) after ≡ some old_broker
unfolding install ensure
keeps_the_image = refl

install-IsInstalled_example :
    IsInstalled create (λ x. x) held server (broker_image getenv) old after
install-IsInstalled_example =
    install-IsInstalled create (λ x. x) held server getenv old after goes_through
