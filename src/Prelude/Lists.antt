-- ===== src/Prelude/Lists.antt =====
-- Lists measured by native numbers, membership tests, and removal.
use Prim.Native.Nat.{ℕ, zero, suc, ◌+◌, min}
use mathlib.Core.Path.{◌≡◌, refl}
use mathlib.Core.Bool.{Bool, true, false, ◌||◌}
use mathlib.Core.List.{List, [], ◌∷◌, ◌++◌}
use mathlib.Core.Option.{Option, none, some}
use native.Mathlib.Omega.{arith}
use mcn.Prelude.Tests.{◌==◌, if◌then◌else◌}

module _ {ℓ} {A : Type ℓ} where
  abbrev pub length : List A → ℕ
  length [] = 0
  length (x ∷ xs) = suc (length xs)

  abbrev pub get_elem? : List A → ℕ → Option A
  get_elem? [] i = none
  get_elem? (x ∷ xs) zero = some x
  get_elem? (x ∷ xs) (suc i) = get_elem? xs i

  abbrev pub take : ℕ → List A → List A
  take zero xs = []
  take (suc n) [] = []
  take (suc n) (x ∷ xs) = x ∷ take n xs

  pub length-append : (xs ys : List A) → length (xs ++ ys) ≡ length xs + length ys
  length-append [] ys = omega arith
  length-append (x ∷ xs) ys = omega (arith, length-append xs ys)

  pub length-take : (n : ℕ) (xs : List A) → length (take n xs) ≡ min n (length xs)
  length-take zero xs = omega arith
  length-take (suc n) [] = omega arith
  length-take (suc n) (x ∷ xs) = omega (arith, length-take n xs)

  -- Keep the elements that pass the test, in their order.
  abbrev pub filter : (A → Bool) → List A → List A
  filter p [] = []
  filter p (x ∷ xs) = let rest = filter p xs in if p x then x ∷ rest else rest

module _ {ℓ κ} {A : Type ℓ} where
  -- Every element satisfies the predicate.
  abbrev pub All : (A → Type κ) → List A → Type κ
  All P [] = Unit
  All P (x ∷ xs) = P x × All P xs

  pub All-append : (P : A → Type κ) (xs ys : List A) → All P xs → All P ys → All P (xs ++ ys)
  All-append P [] ys hx hy = hy
  All-append P (x ∷ xs) ys hx hy = (hx.0, All-append P xs ys hx.1 hy)

-- Whether a number stands in a list.
abbrev pub has : ℕ → List ℕ → Bool
has n [] = false
has n (x ∷ xs) = (x == n) || has n xs

-- The list without the first occurrence of a number.
abbrev pub erase : ℕ → List ℕ → List ℕ
erase n [] = []
erase n (x ∷ xs) = if x == n then xs else x ∷ erase n xs

pub length-erase : (n : ℕ) (xs : List ℕ) → has n xs ≡ true → suc (length (erase n xs)) ≡ length xs
length-erase n [] h = cc
length-erase n (x ∷ xs) h = ground (arith, length-erase n xs)

pub has-erase : (n m : ℕ) (xs : List ℕ) → (m == n) ≡ false → has m (erase n xs) ≡ has m xs
has-erase n m [] h = refl
has-erase n m (x ∷ xs) h = ground (arith, has-erase n m xs h)

pub has-append : (n : ℕ) (xs ys : List ℕ) → has n (xs ++ ys) ≡ has n xs || has n ys
has-append n [] ys = refl
has-append n (x ∷ xs) ys = ground (arith, has-append n xs ys)
