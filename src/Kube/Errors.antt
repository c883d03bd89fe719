-- ===== src/Kube/Errors.antt =====
-- Error values: those of the API server by their status reason and text, those that the code
-- makes, and those that github.com/pkg/errors wraps. `errors.As` sees through a wrapping, and so
-- do the tests on the reason.
use mcn.Prelude.{
  String, Bool, true, false, Option, none, some, str_append, ◌≡◌, refl, ◌⊎◌, inl, inr,
}
use text.Mathlib.Text.{find?}

-- metav1.StatusReason, as far as the code tells the reasons apart.
pub data Reason : Type 0 where
  not_found already_exists conflict other_reason : Reason

pub data Error : Type 0 where
  api : Reason → String → Error
  message : String → Error
  wrap : String → Error → Error

-- apierrors.ReasonForError; none for an error that is no API status.
abbrev pub reason : Error → Option Reason
reason (api r s) = some r
reason (message s) = none
reason (wrap s e) = reason e

abbrev pub is_not_found : Error → Bool
is_not_found e = elim (reason e) [ some not_found ↦ true | _ ↦ false ]

abbrev pub is_already_exists : Error → Bool
is_already_exists e = elim (reason e) [ some already_exists ↦ true | _ ↦ false ]

abbrev pub is_conflict : Error → Bool
is_conflict e = elim (reason e) [ some conflict ↦ true | _ ↦ false ]

-- err.Error()
abbrev pub error_text : Error → String
error_text (api r s) = s
error_text (message s) = s
error_text (wrap s e) = str_append s (str_append ": " (error_text e))

-- strings.Contains
abbrev pub contains_text : String → String → Bool
contains_text s t = elim (find? s t) [ none ↦ false | some _ ↦ true ]

pub data Result (A : Type 0) : Type 0 where
  ok : A → Result A
  err : Error → Result A

abbrev pub IsOk : {A : Type 0} → Result A → Type 0
IsOk (ok a) = Unit
IsOk (err e) = ⊥

-- `if err != nil { return errors.Wrap(err, msg) }`
abbrev pub wrap_err : {A : Type 0} → String → Result A → Result A
wrap_err msg (ok a) = ok a
wrap_err msg (err e) = err (wrap msg e)

pub Result-cases :
    {A : Type 0} (r : Result A) → ((a : A) × (r ≡ ok a)) ⊎ ((e : Error) × (r ≡ err e))
Result-cases (ok a) = inl (a, refl)
Result-cases (err e) = inr (e, refl)

pub ok_inj : {A : Type 0} {x y : A} → ok x ≡ ok y → x ≡ y
ok_inj h = cc

-- Wrapping an error turns no failure into a success.
pub wrap_err-eq-ok :
    {A : Type 0} (msg : String) (r : Result A) {a : A} → wrap_err msg r ≡ ok a → r ≡ ok a
wrap_err-eq-ok msg (ok b) h = h
wrap_err-eq-ok msg (err e) h = cc

-- `x, err := r; if err != nil { return err }`, among pure calls.
abbrev pub and_then : {A B : Type 0} → Result A → (A → Result B) → Result B
and_then (ok a) f = f a
and_then (err e) f = err e

pub and_then-eq-ok :
    {A B : Type 0} (r : Result A) (f : A → Result B) {b : B}
    → and_then r f ≡ ok b
    → (a : A) × (r ≡ ok a) × (f a ≡ ok b)
and_then-eq-ok (ok a) f h = (a, refl, h)
and_then-eq-ok (err e) f h = cc
