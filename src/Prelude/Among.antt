-- ===== src/Prelude/Among.antt =====
-- An element standing in a list, with what joining lists does to it.
use mathlib.Core.Path.{◌≡◌}
use mathlib.Core.Logic.{◌⊎◌, inl, inr, ◌↔◌}
use mathlib.Core.List.{List, [], ◌∷◌, ◌++◌}

module _ {A : Type 0} where
  abbrev pub Among : A → List A → Type 0
  Among x [] = ⊥
  Among x (y ∷ ys) = (y ≡ x) ⊎ Among x ys

  pub append-Among : (x : A) (ys zs : List A) → Among x (ys ++ zs) ↔ (Among x ys ⊎ Among x zs)
  append-Among x [] zs = (λ h. inr h, λ h. elim h [ inl b ↦ elim b [ ] | inr k ↦ k ])
  append-Among x (y ∷ ys) zs = (
    λ h. elim h [
      | inl e ↦ inl (inl e)
      | inr k ↦ elim ((append-Among x ys zs).0 k) [ inl l ↦ inl (inr l) | inr l ↦ inr l ]
    ],
    λ h. elim h [
      | inl l ↦ elim l [ inl e ↦ inl e | inr k ↦ inr ((append-Among x ys zs).1 (inl k)) ]
      | inr k ↦ inr ((append-Among x ys zs).1 (inr k))
    ],
  )
