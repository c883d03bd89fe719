-- ===== src/Prelude/Signed.antt =====
-- Numerals of signed numbers read back: strconv.ParseInt, with strings.TrimSpace before it, on what
-- strconv.FormatInt and strconv.Itoa write.
use Prim.Native.Nat.{ℕ, zero, suc, ◌-◌, ◌/◌, ◌%◌, ◌^◌, ◌<◌}
use Prim.Native.Char.{code}
use Prim.Native.String.{String, [], ◌∷◌, ◌++◌ as str_append}
use mathlib.Core.Path.{◌≡◌, refl, ap, ◌∙◌}
use mathlib.Core.Bool.{Bool, true, false, not, ◌&&◌}
use mathlib.Core.Option.{some}
use mathlib.Core.Logic.{inl, inr}
use native.Mathlib.Omega.{arith}
use text.Mathlib.TextLemmas.{nil-append, cons-append}
use mcn.Prelude.Tests.{ltb, leb, ◌==◌, Bool-cases}
use mcn.Prelude.Int.{ℤ, pos, negsuc}
use mcn.Prelude.Decimal.{
  digit, code-digit, print_onto, print_nat, read_digits, read_digits-print_nat,
}
use mcn.Prelude.Numerals.{
  is_space_code, trim_left, trim_right, trim_space, is_empty, read_unsigned, parse_int, print_int,
  non_negative, non_positive,
}

-- No character is white space or a dollar sign.
abbrev pub plain : String → Bool
plain [] = true
plain (c ∷ s) = not (code c == 36) && not (is_space_code (code c)) && plain s

abbrev first_is_digit : String → Bool
first_is_digit [] = false
first_is_digit (c ∷ s) = leb 48 (code c) && leb (code c) 57

trim_left-plain : (s : String) → plain s ≡ true → trim_left s ≡ s
trim_left-plain [] h = refl
trim_left-plain (c ∷ s) h = ground arith

trim_right-plain : (s : String) → plain s ≡ true → trim_right s ≡ s
trim_right-plain [] h = refl
trim_right-plain (c ∷ s) h = ground (arith, trim_right-plain s)

-- Such a text is left as it is.
pub trim_space-plain : (s : String) → plain s ≡ true → trim_space s ≡ s
trim_space-plain s h = ap trim_right (trim_left-plain s h) ∙ trim_right-plain s h

plain_digit :
    (d : ℕ) → d < 10 → (is_space_code (code (digit d)) ≡ false) × ((code (digit d) == 36) ≡ false)
plain_digit d h = (ground (arith, code-digit d h), ground (arith, code-digit d h))

digit-plain : (n : ℕ) (s : String) → plain s ≡ true → plain (digit (n % 10) ∷ s) ≡ true
digit-plain n s h = ground (arith, plain_digit (n % 10) (omega arith))

print_onto-plain : (f n : ℕ) (s : String) → plain s ≡ true → plain (print_onto f n s) ≡ true
unfolding print_onto
print_onto-plain zero n s h = h
print_onto-plain (suc f) n s h = elim (Bool-cases (ltb n 10)) [
  | inl short ↦ rw short (digit-plain n s h)
  | inr long ↦ rw long (print_onto-plain f (n / 10) (digit (n % 10) ∷ s) (digit-plain n s h))
]

pub print_nat-plain : (n : ℕ) → plain (print_nat n) ≡ true
unfolding print_nat
print_nat-plain n = print_onto-plain (suc n) n [] refl

print_onto-first : (f n : ℕ) (s : String) → n < f → first_is_digit (print_onto f n s) ≡ true
unfolding print_onto
print_onto-first zero n s h = absurd (omega arith)
print_onto-first (suc f) n s h = elim (Bool-cases (ltb n 10)) [
  | inl short ↦ rw short (ground (arith, code-digit (n % 10) (omega arith)))
  | inr long ↦ rw long (print_onto-first f (n / 10) (digit (n % 10) ∷ s) (ground arith))
]

print_nat-first : (n : ℕ) → first_is_digit (print_nat n) ≡ true
unfolding print_nat
print_nat-first n = print_onto-first (suc n) n [] (omega arith)

read_unsigned-digits : (s : String) → first_is_digit s ≡ true → read_unsigned s ≡ read_digits 0 s
unfolding read_unsigned
read_unsigned-digits [] h = cc
read_unsigned-digits (c ∷ s) h = refl

read_unsigned-print_nat : (n : ℕ) → read_unsigned (print_nat n) ≡ some n
read_unsigned-print_nat n =
    read_unsigned-digits (print_nat n) (print_nat-first n) ∙ read_digits-print_nat n

parse_int-digits :
    (bits : ℕ) (s : String)
    → first_is_digit s ≡ true
    → parse_int bits s ≡ non_negative bits (read_unsigned s)
unfolding parse_int
parse_int-digits bits [] h = cc
parse_int-digits bits (c ∷ s) h = ground arith

parse_int-minus :
    (bits : ℕ) (s : String)
    → parse_int bits (str_append "-" s) ≡ non_positive bits (read_unsigned s)
unfolding parse_int
parse_int-minus bits s = rw (cons-append "-" [] s, nil-append s) refl

-- The values that a signed word of so many bits can hold.
abbrev pub Fits : ℕ → ℤ → Type 0
Fits bits (pos n) = n < 2 ^ (bits - 1)
Fits bits (negsuc n) = n < 2 ^ (bits - 1)

-- ParseInt reads back what FormatInt writes of a number that fits the word.
pub parse_int-print_int : (bits : ℕ) (z : ℤ) → Fits bits z → parse_int bits (print_int z) ≡ some z
parse_int-print_int bits (pos n) h =
    parse_int-digits bits (print_nat n) (print_nat-first n)
    ∙ ap (non_negative bits) (read_unsigned-print_nat n)
    ∙ ground arith
parse_int-print_int bits (negsuc n) h =
    parse_int-minus bits (print_nat (suc n))
    ∙ ap (non_positive bits) (read_unsigned-print_nat (suc n))
    ∙ ground arith

pub print_int-plain : (z : ℤ) → plain (print_int z) ≡ true
print_int-plain (pos n) = print_nat-plain n
print_int-plain (negsuc n) =
    rw (cons-append "-" [] (print_nat (suc n)), nil-append (print_nat (suc n)))
      (print_nat-plain (suc n))

print_nat-ne-empty : (s : String) → first_is_digit s ≡ true → is_empty s ≡ false
print_nat-ne-empty [] h = cc
print_nat-ne-empty (c ∷ s) h = refl

pub print_int-is_empty : (z : ℤ) → is_empty (print_int z) ≡ false
print_int-is_empty (pos n) = print_nat-ne-empty (print_nat n) (print_nat-first n)
print_int-is_empty (negsuc n) = rw (cons-append "-" [] (print_nat (suc n))) refl
