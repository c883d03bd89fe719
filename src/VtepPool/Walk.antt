-- ===== src/VtepPool/Walk.antt =====
-- The walk over the /16 networks of a /8 pool: it stops at the first whose text is not taken.
use mcn.Prelude.{
  ℕ, zero, suc, ◌+◌, ◌≤◌, ◌<◌, ◌≡◌, refl, sym, ◌⊎◌, inl, inr, String, true, false, List, [], ◌∷◌,
  ◌==◌, ==_iff, eq_iff, str_eq, arith, Bool-cases,
}
use mathlib.Core.Path.{subst}
use mcn.Cidr.{Cidr}
use mcn.Kube.{Result, ok, err, Value, Converter}
use mcn.Crd.{Cluster}
use mcn.VtepPool.{collect_cidrs, is_taken, no_available_cidr, subnet_text, scan_cidrs}

module _ (allocated : List String) (pool : Cidr) where
  -- The network number `i` is free, and every one from `lo` up to it is taken.
  pub record IsFirst (lo i : ℕ) : Type 0 where
    pub above : lo ≤ i
    pub free : is_taken (subnet_text pool i) allocated ≡ false
    pub first : (j : ℕ) → lo ≤ j → j < i → is_taken (subnet_text pool j) allocated ≡ true

  abbrev pub WalkResult : ℕ → ℕ → Result String → Type 0
  WalkResult rounds lo (ok s) =
      (i : ℕ) × (s ≡ subnet_text pool i) × (i < lo + rounds) × IsFirst lo i
  WalkResult rounds lo (err e) =
      (e ≡ no_available_cidr)
      × ((j : ℕ) → lo ≤ j → j < lo + rounds → is_taken (subnet_text pool j) allocated ≡ true)

  taken_from :
      (lo j : ℕ)
      → is_taken (subnet_text pool lo) allocated ≡ true
      → lo ≤ j
      → (lo + 1 ≤ j → is_taken (subnet_text pool j) allocated ≡ true)
      → is_taken (subnet_text pool j) allocated ≡ true
  taken_from lo j taken a k = elim (Bool-cases (j == lo)) [
    | inl same ↦
        subst (λ x. is_taken (subnet_text pool x) allocated ≡ true) (sym ((==_iff j lo).0 same))
          taken
    | inr other ↦ k (ground arith)
  ]

  walk_above :
      (rounds lo : ℕ) (r : Result String)
      → is_taken (subnet_text pool lo) allocated ≡ true
      → WalkResult rounds (lo + 1) r
      → WalkResult (suc rounds) lo r
  walk_above rounds lo (ok s) taken (i, e, b, h) = (
    i,
    e,
    omega arith,
    record {
      above = omega (arith, h.above);
      free = h.free;
      first = λ j a c. taken_from lo j taken a (λ a'. h.first j a' c);
    },
  )
  walk_above rounds lo (err e) taken (h, b) =
      (h, λ j a c. taken_from lo j taken a (λ a'. b j a' (omega arith)))

  pub scan_cidrs-WalkResult :
      (rounds lo : ℕ) → WalkResult rounds lo (scan_cidrs allocated pool rounds lo)
  unfolding scan_cidrs
  scan_cidrs-WalkResult zero lo = (refl, λ j a c. absurd (omega arith))
  scan_cidrs-WalkResult (suc rounds) lo =
      elim (Bool-cases (is_taken (subnet_text pool lo) allocated)) [
        | inl taken ↦
            rw taken (walk_above rounds lo _ taken (scan_cidrs-WalkResult rounds (lo + 1)))
        | inr free ↦ rw free (
          lo,
          refl,
          omega arith,
          record { above = omega arith; free = free; first = λ j a c. absurd (omega arith) },
        )
      ]

-- Some listed object converts to the cluster `c`.
abbrev pub IsListed : Converter Cluster → Cluster → List Value → Type 0
IsListed conv c [] = ⊥
IsListed conv c (u ∷ us) = (conv.from_unstructured u ≡ ok c) ⊎ IsListed conv c us

pub is_taken-collect_cidrs :
    (conv : Converter Cluster) (c : Cluster) (us : List Value)
    → IsListed conv c us
    → str_eq c.spec.vtep_cidr "" ≡ false
    → is_taken c.spec.vtep_cidr (collect_cidrs conv us) ≡ true
unfolding is_taken collect_cidrs
is_taken-collect_cidrs conv c [] h k = elim h [ ]
is_taken-collect_cidrs conv c (u ∷ us) (inl e) k =
    ground (arith, eq_iff c.spec.vtep_cidr c.spec.vtep_cidr)
is_taken-collect_cidrs conv c (u ∷ us) (inr h) k =
    ground (arith, is_taken-collect_cidrs conv c us h k)
