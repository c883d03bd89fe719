-- ===== src/Endpoint/First.antt =====
-- The first entry under a key, as the reporter's loops over conditions and addresses find it.
use mcn.Prelude.{
  String, true, false, none, some, List, [], ◌∷◌, ◌≡◌, ◌≢◌, ◌↔◌, ◌⊎◌, inl, inr, refl, sym, ap, ◌∙◌,
  str_eq, eq_iff, arith, Bool-cases, Option-cases, some_inj, ne_str,
}
use mcn.Endpoint.{Node, first_of, is_node_ready, get_node_internal_ip}

-- The first entry of the list whose key is `key` has the value `v`.
abbrev pub IsFirst : String → String → List (String × String) → Type 0
IsFirst key v [] = ⊥
IsFirst key v ((k, x) ∷ rest) = ((k ≡ key) × (x ≡ v)) ⊎ ((k ≢ key) × IsFirst key v rest)

first_of_same :
    (key k x : String) (rest : List (String × String))
    → k ≡ key
    → first_of key ((k, x) ∷ rest) ≡ some x
unfolding first_of
first_of_same key k x rest e = rw ((eq_iff k key).1 e) refl

first_of_other :
    (key k x : String) (rest : List (String × String))
    → str_eq k key ≡ false
    → first_of key ((k, x) ∷ rest) ≡ first_of key rest
unfolding first_of
first_of_other key k x rest e = rw e refl

first_of-none : (key : String) → first_of key [] ≡ none
unfolding first_of
first_of-none key = refl

to_first :
    (key v : String) (xs : List (String × String)) → first_of key xs ≡ some v → IsFirst key v xs
to_first key v [] h = cc (first_of-none key, h)
to_first key v ((k, x) ∷ rest) h = elim (Bool-cases (str_eq k key)) [
  | inl same ↦
      let e = (eq_iff k key).0 same in inl (e, some_inj (sym (first_of_same key k x rest e) ∙ h))
  | inr other ↦ inr (
    λ e. cc (other, (eq_iff k key).1 e),
    to_first key v rest (sym (first_of_other key k x rest other) ∙ h),
  )
]

of_first :
    (key v : String) (xs : List (String × String)) → IsFirst key v xs → first_of key xs ≡ some v
of_first key v [] h = elim h [ ]
of_first key v ((k, x) ∷ rest) (inl (e, f)) = first_of_same key k x rest e ∙ ap some f
of_first key v ((k, x) ∷ rest) (inr (n, h)) =
    first_of_other key k x rest (ne_str k key n) ∙ of_first key v rest h

pub is_node_ready_iff :
    (node : Node) → (is_node_ready node ≡ true) ↔ IsFirst "Ready" "True" node.conditions
unfolding is_node_ready
is_node_ready_iff node = (
  λ h. elim (Option-cases (first_of "Ready" node.conditions)) [
    | inl e ↦ absurd (ground arith)
    | inr (s, e) ↦
        to_first "Ready" "True" node.conditions (e ∙ ap some ((eq_iff s "True").0 (ground arith)))
  ],
  λ h. ground (arith, of_first "Ready" "True" node.conditions h),
)

pub get_node_internal_ip_iff :
    (node : Node) (ip : String)
    → str_eq ip "" ≡ false
    → (get_node_internal_ip node ≡ ip) ↔ IsFirst "InternalIP" ip node.addresses
unfolding get_node_internal_ip
get_node_internal_ip_iff node ip n = (
  λ h. elim (Option-cases (first_of "InternalIP" node.addresses)) [
    | inl e ↦ absurd (ground (arith, eq_iff ip ""))
    | inr (s, e) ↦ to_first "InternalIP" ip node.addresses (e ∙ ap some (ground arith))
  ],
  λ h. ground (arith, of_first "InternalIP" ip node.addresses h),
)
