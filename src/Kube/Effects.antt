-- ===== src/Kube/Effects.antt =====
-- A call that may change the world and may fail. What it changed before it failed stays changed,
-- so the world comes back beside an error too.
use mcn.Prelude.{String, Bool, if◌then◌else◌, ◌≡◌, inl, inr, arith}
use mcn.Kube.Errors.{Error, Result, wrap_err, ok, err, Result-cases}

abbrev pub Exec : Type 0 → Type 0 → Type 0
Exec W A = W → Result A × W

module _ {W A : Type 0} where
  abbrev pub pure : A → Exec W A
  pure a w = (ok a, w)

  abbrev pub raise : Error → Exec W A
  raise e w = (err e, w)

  abbrev pub lift : Result A → Exec W A
  lift r w = (r, w)

  -- `x, err := m`: go on with the result, whatever it is.
  abbrev pub attempt : Exec W A → Exec W (Result A)
  attempt m w = let (r, w') = m w in (ok r, w')

  abbrev pub wrapping : String → Exec W A → Exec W A
  wrapping msg m w = let (r, w') = m w in (wrap_err msg r, w')

infixl 5 ◌>>=◌ ◌>>◌
abbrev pub ◌>>=◌ : {W A B : Type 0} → Exec W A → (A → Exec W B) → Exec W B
◌>>=◌ m f w = let (r, w') = m w in elim r [ ok a ↦ f a w' | err e ↦ (err e, w') ]

abbrev pub ◌>>◌ : {W A B : Type 0} → Exec W A → Exec W B → Exec W B
m >> k = m >>= λ _. k

-- A sequence of two calls that succeeds has both succeed.
pub then-eq-ok :
    {W A B : Type 0} (m : Exec W A) (k : Exec W B) (w w' : W) {b : B}
    → (m >> k) w ≡ (ok b, w')
    → (a : A) × (u : W) × (m w ≡ (ok a, u)) × (k u ≡ (ok b, w'))
then-eq-ok m k w w' h = elim (Result-cases (m w).0) [
  | inl (a, e) ↦ (a, (m w).1, λ i. (e i, (m w).1), ground (arith))
  | inr (e, f) ↦ absurd (ground arith)
]

-- A call whose result the next one takes.
pub bind-eq-ok :
    {W A B : Type 0} (m : Exec W A) (k : A → Exec W B) (w : W) {b : B}
    → ((m >>= k) w).0 ≡ ok b
    → (a : A) × ((m w).0 ≡ ok a) × ((k a (m w).1).0 ≡ ok b)
bind-eq-ok m k w h = elim (Result-cases (m w).0) [
  | inl (a, e) ↦ (a, e, ground arith)
  | inr (e, f) ↦ absurd (ground arith)
]

-- `if bad { return err }` among pure tests.
abbrev pub refuse_if : Bool → Error → Result (Unit {0})
refuse_if bad e = if bad then err e else ok tt
