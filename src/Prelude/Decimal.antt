-- ===== src/Prelude/Decimal.antt =====
-- Decimal texts of natural numbers, as strconv and fmt's %d write and read them.
use Prim.Native.Nat.{ℕ, zero, suc, ◌+◌, ◌-◌, ◌*◌, ◌/◌, ◌%◌, ◌<◌}
use Prim.Native.Char.{Char, code}
use Prim.Native.String.{String, [], ◌∷◌}
use mathlib.Core.Path.{◌≡◌, refl, ◌∙◌, ap}
use mathlib.Core.Bool.{Bool, true, ◌&&◌}
use mathlib.Core.Option.{Option, none, some}
use native.Mathlib.Omega.{arith}
use mcn.Prelude.Tests.{ltb, leb, if◌then◌else◌, Bool-cases, ltb→lt}
use mathlib.Core.Logic.{inl, inr}

abbrev pub is_digit : Char → Bool
is_digit c = leb 48 (code c) && leb (code c) 57

-- The character of a digit; of no interest from 10 on.
unfoldable pub digit : ℕ → Char
digit zero = "0"
digit (suc zero) = "1"
digit (suc (suc zero)) = "2"
digit (suc (suc (suc zero))) = "3"
digit (suc (suc (suc (suc zero)))) = "4"
digit (suc (suc (suc (suc (suc zero))))) = "5"
digit (suc (suc (suc (suc (suc (suc zero)))))) = "6"
digit (suc (suc (suc (suc (suc (suc (suc zero))))))) = "7"
digit (suc (suc (suc (suc (suc (suc (suc (suc zero)))))))) = "8"
digit (suc (suc (suc (suc (suc (suc (suc (suc (suc n))))))))) = "9"

pub code-digit : (n : ℕ) → n < 10 → code (digit n) ≡ 48 + n
unfolding digit
code-digit zero h = refl
code-digit (suc zero) h = refl
code-digit (suc (suc zero)) h = refl
code-digit (suc (suc (suc zero))) h = refl
code-digit (suc (suc (suc (suc zero)))) h = refl
code-digit (suc (suc (suc (suc (suc zero))))) h = refl
code-digit (suc (suc (suc (suc (suc (suc zero)))))) h = refl
code-digit (suc (suc (suc (suc (suc (suc (suc zero))))))) h = refl
code-digit (suc (suc (suc (suc (suc (suc (suc (suc zero)))))))) h = refl
code-digit (suc (suc (suc (suc (suc (suc (suc (suc (suc zero))))))))) h = refl
code-digit (suc (suc (suc (suc (suc (suc (suc (suc (suc (suc n)))))))))) h = absurd (omega arith)

-- Write `n` in front of a text, with fuel above `n`.
unfoldable pub print_onto : ℕ → ℕ → String → String
print_onto zero n s = s
print_onto (suc f) n s =
    let longer = print_onto f (n / 10) (digit (n % 10) ∷ s) in
    if ltb n 10 then digit (n % 10) ∷ s else longer

unfoldable pub print_nat : ℕ → String
unfolding print_onto digit
print_nat n = print_onto (suc n) n []

-- Go on reading digits, having read `acc`, up to the end of the text.
unfoldable pub read_digits : ℕ → String → Option ℕ
read_digits acc [] = some acc
read_digits acc (c ∷ s) =
    let rest = read_digits (acc * 10 + (code c - 48)) s in if is_digit c then rest else none

read_digits-digit :
    (acc d : ℕ) (s : String) → d < 10 → read_digits acc (digit d ∷ s) ≡ read_digits (acc * 10 + d) s
unfolding read_digits
read_digits-digit acc d s h =
    let e : code (digit d) - 48 ≡ d = omega (arith, code-digit d h) in
    let t : is_digit (digit d) ≡ true = ground (arith, code-digit d h) in rw (t, e)

read_digits-print_onto :
    (f n : ℕ) (s : String) → n < f → read_digits 0 (print_onto f n s) ≡ read_digits n s
unfolding print_onto
read_digits-print_onto zero n s h = absurd (omega arith)
read_digits-print_onto (suc f) n s h = elim (Bool-cases (ltb n 10)) [
  | inl short ↦ rw short (
      read_digits-digit 0 (n % 10) s (omega arith)
      ∙ ap (λ k. read_digits k s) (ground (arith, ltb→lt n 10 short)))
  | inr long ↦ rw long (
      read_digits-print_onto f (n / 10) (digit (n % 10) ∷ s) (ground arith)
      ∙ read_digits-digit (n / 10) (n % 10) s (omega arith)
      ∙ ap (λ k. read_digits k s) (omega arith))
]

-- Reading what was written gives the number back.
pub read_digits-print_nat : (n : ℕ) → read_digits 0 (print_nat n) ≡ some n
unfolding print_nat read_digits
read_digits-print_nat n = read_digits-print_onto (suc n) n [] (omega arith)

pub print_nat-injective : (n m : ℕ) → print_nat n ≡ print_nat m → n ≡ m
print_nat-injective n m h =
    cc (ap (read_digits 0) h, read_digits-print_nat n, read_digits-print_nat m)
