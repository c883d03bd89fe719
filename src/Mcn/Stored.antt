-- ===== src/Mcn/Stored.antt =====
-- The networks that the broker stores, as a list: look-up, replacement and removal by name, and
-- the VNIs that are in use.
use mcn.Prelude.{
  ℕ, String, true, false, Option, none, some, List, [], ◌∷◌, ◌++◌, ◌≡◌, ◌≢◌, ◌⊎◌, inl, inr, refl,
  ap, str_eq, eq_iff, arith, has, has-append, ◌==◌, ==_iff, Bool-cases, if◌then◌else◌,
}
use mcn.Crd.{MultiClusterNetwork}

unfoldable pub find : String → List MultiClusterNetwork → Option MultiClusterNetwork
find name [] = none
find name (n ∷ ns) = if str_eq n.meta.name name then some n else find name ns

-- `n` in place of the network of its name.
unfoldable pub replace : MultiClusterNetwork → List MultiClusterNetwork → List MultiClusterNetwork
replace n [] = []
replace n (k ∷ ks) = if str_eq k.meta.name n.meta.name then n ∷ ks else k ∷ replace n ks

-- The list without the network of a name.
unfoldable pub without : String → List MultiClusterNetwork → List MultiClusterNetwork
without name [] = []
without name (k ∷ ks) = if str_eq k.meta.name name then ks else k ∷ without name ks

-- Two versions of one network that differ in what the server keeps about it at most.
pub record SameNetwork (a b : MultiClusterNetwork) : Type 0 where
  pub name : a.meta.name ≡ b.meta.name
  pub finalizers : a.meta.finalizers ≡ b.meta.finalizers
  pub vni : a.spec.vni ≡ b.spec.vni
  pub route_target : a.spec.route_target ≡ b.spec.route_target
  pub topology : a.spec.topology ≡ b.spec.topology

unfoldable pub vnis : List MultiClusterNetwork → List ℕ
vnis [] = []
vnis (n ∷ ns) = n.spec.vni ∷ vnis ns

-- No number stands twice in the list.
abbrev pub IsDistinct : List ℕ → Type 0
IsDistinct [] = Unit
IsDistinct (x ∷ xs) = (has x xs ≡ false) × IsDistinct xs

-- `n` is one of the networks.
abbrev pub Stored : MultiClusterNetwork → List MultiClusterNetwork → Type 0
Stored n [] = ⊥
Stored n (k ∷ ks) = (k ≡ n) ⊎ Stored n ks

pub find-name :
    (name : String) (ns : List MultiClusterNetwork) (n : MultiClusterNetwork)
    → find name ns ≡ some n
    → n.meta.name ≡ name
unfolding find
find-name name [] n h = cc
find-name name (k ∷ ks) n h = ground (arith, find-name name ks n, eq_iff k.meta.name name)

pub vnis-replace :
    (ns : List MultiClusterNetwork) (old n : MultiClusterNetwork)
    → find n.meta.name ns ≡ some old
    → old.spec.vni ≡ n.spec.vni
    → vnis (replace n ns) ≡ vnis ns
unfolding find replace vnis
vnis-replace [] old n h e = cc
vnis-replace (k ∷ ks) old n h e = ground (arith, vnis-replace ks old n)

pub find-replace_self :
    (ns : List MultiClusterNetwork) (old n : MultiClusterNetwork)
    → find n.meta.name ns ≡ some old
    → find n.meta.name (replace n ns) ≡ some n
unfolding find replace
find-replace_self [] old n h = cc
find-replace_self (k ∷ ks) old n h =
    ground (arith, find-replace_self ks old n, eq_iff n.meta.name n.meta.name)

pub find-replace_ne :
    (ns : List MultiClusterNetwork) (n : MultiClusterNetwork) (name : String)
    → str_eq n.meta.name name ≡ false
    → find name (replace n ns) ≡ find name ns
unfolding find replace
find-replace_ne [] n name h = refl
find-replace_ne (k ∷ ks) n name h = ground (
  arith,
  find-replace_ne ks n name,
  eq_iff k.meta.name n.meta.name,
  eq_iff n.meta.name name,
  eq_iff k.meta.name name,
)

pub find-append :
    (ns : List MultiClusterNetwork) (n : MultiClusterNetwork)
    → find n.meta.name ns ≡ none
    → find n.meta.name (ns ++ n ∷ []) ≡ some n
unfolding find
find-append [] n h = ground (arith, eq_iff n.meta.name n.meta.name)
find-append (k ∷ ks) n h = ground (arith, find-append ks n)

pub vnis-append :
    (ns : List MultiClusterNetwork) (n : MultiClusterNetwork)
    → vnis (ns ++ n ∷ []) ≡ vnis ns ++ n.spec.vni ∷ []
unfolding vnis
vnis-append [] n = refl
vnis-append (k ∷ ks) n = ap (λ r. k.spec.vni ∷ r) (vnis-append ks n)

has-vnis-without :
    (v : ℕ) (name : String) (ns : List MultiClusterNetwork)
    → has v (vnis ns) ≡ false
    → has v (vnis (without name ns)) ≡ false
unfolding vnis without
has-vnis-without v name [] h = refl
has-vnis-without v name (k ∷ ks) h = ground (arith, has-vnis-without v name ks)

pub vnis-without-IsDistinct :
    (name : String) (ns : List MultiClusterNetwork)
    → IsDistinct (vnis ns)
    → IsDistinct (vnis (without name ns))
unfolding vnis without
vnis-without-IsDistinct name [] h = tt
vnis-without-IsDistinct name (k ∷ ks) h =
    ground (arith, vnis-without-IsDistinct name ks h.1, has-vnis-without k.spec.vni name ks h.0)

pub append-IsDistinct :
    (xs : List ℕ) (v : ℕ) → IsDistinct xs → has v xs ≡ false → IsDistinct (xs ++ v ∷ [])
append-IsDistinct [] v h f = (refl, tt)
append-IsDistinct (x ∷ xs) v h f =
    ground (arith, append-IsDistinct xs v h.1, has-append x xs (v ∷ []))

-- A VNI that no stored network carries is none of those in use.
pub has-vnis :
    (v : ℕ) (ns : List MultiClusterNetwork)
    → ((n : MultiClusterNetwork) → Stored n ns → n.spec.vni ≢ v)
    → has v (vnis ns) ≡ false
unfolding vnis
has-vnis v [] h = refl
has-vnis v (k ∷ ks) h = ground (arith, has-vnis v ks (λ n s. h n (inr s)), h k (inl refl))

-- Being the VNI of a stored network, and standing in the list of VNIs, are one.
pub Stored-of_has :
    (v : ℕ) (ns : List MultiClusterNetwork)
    → has v (vnis ns) ≡ true
    → (n : MultiClusterNetwork) × Stored n ns × (n.spec.vni ≡ v)
unfolding vnis
Stored-of_has v [] h = cc
Stored-of_has v (k ∷ ks) h = elim (Bool-cases (k.spec.vni == v)) [
  | inl same ↦ (k, inl refl, (==_iff k.spec.vni v).0 same)
  | inr other ↦ let (n, s, e) = Stored-of_has v ks (ground arith) in (n, inr s, e)
]

pub has_of_Stored :
    (n : MultiClusterNetwork) (ns : List MultiClusterNetwork)
    → Stored n ns
    → has n.spec.vni (vnis ns) ≡ true
unfolding vnis
has_of_Stored n [] h = elim h [ ]
has_of_Stored n (k ∷ ks) (inl e) = ground (arith, ap (λ (x : MultiClusterNetwork). x.spec.vni) e)
has_of_Stored n (k ∷ ks) (inr h) = ground (arith, has_of_Stored n ks h)
