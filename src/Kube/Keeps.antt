-- ===== src/Kube/Keeps.antt =====
-- What a call keeps of the world it runs in, whether it succeeds or not.
use mcn.Prelude.{String, Bool, true, false, if◌then◌else◌}
use mcn.Kube.Errors.{Result, ok, err, Error}
use mcn.Kube.Effects.{Exec, lift, attempt, wrapping, ◌>>=◌}

unfoldable pub Keeps : {W A : Type 0} → (W → Type 0) → Exec W A → Type 0
Keeps {W} P m = (w : W) → P w → P (m w).1

module _ {W : Type 0} (P : W → Type 0) where
  keeps_from :
      {A B : Type 0} (f : A → Exec W B) (r : Result A) (w : W)
      → P w
      → ((a : A) → Keeps P (f a))
      → P (((λ _. (r, w)) >>= f) w).1
  unfolding Keeps
  keeps_from f (ok a) w h k = k a w h
  keeps_from f (err e) w h k = h

  pub Keeps-bind :
      {A B : Type 0} (m : Exec W A) (f : A → Exec W B)
      → Keeps P m
      → ((a : A) → Keeps P (f a))
      → Keeps P (m >>= f)
  unfolding Keeps
  Keeps-bind m f h k w p = keeps_from f (m w).0 (m w).1 (h w p) k

  pub Keeps-if :
      {A : Type 0} (b : Bool) (m n : Exec W A)
      → Keeps P m
      → Keeps P n
      → Keeps P (if b then m else n)
  Keeps-if true m n h k = h
  Keeps-if false m n h k = k

  pub Keeps-pure : {A : Type 0} (r : Result A) → Keeps P (lift r)
  unfolding Keeps
  Keeps-pure r w p = p

  pub Keeps-wrapping :
      {A : Type 0} (msg : String) (m : Exec W A) → Keeps P m → Keeps P (wrapping msg m)
  unfolding Keeps
  Keeps-wrapping msg m h = h

  pub Keeps-attempt : {A : Type 0} (m : Exec W A) → Keeps P m → Keeps P (attempt m)
  unfolding Keeps
  Keeps-attempt m h = h

  by_result :
      {A B : Type 0} (f : A → Exec W B) (g : Error → Exec W B) (r : Result A)
      → ((a : A) → Keeps P (f a))
      → ((e : Error) → Keeps P (g e))
      → Keeps P (elim r as (λ _. Exec W B) [ ok a ↦ f a | err e ↦ g e ])
  by_result f g (ok a) h k = h a
  by_result f g (err e) h k = k e

  -- A call whose error is looked at.
  pub Keeps-either :
      {A B : Type 0} (m : Exec W A) (f : A → Exec W B) (g : Error → Exec W B)
      → Keeps P m
      → ((a : A) → Keeps P (f a))
      → ((e : Error) → Keeps P (g e))
      → Keeps P (attempt m >>= λ r. elim r as (λ _. Exec W B) [ ok a ↦ f a | err e ↦ g e ])
  Keeps-either m f g h k l = Keeps-bind (attempt m) _ (Keeps-attempt m h) (λ r. by_result f g r k l)
