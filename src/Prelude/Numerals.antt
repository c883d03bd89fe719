-- ===== src/Prelude/Numerals.antt =====
-- Reading numbers as strconv does in base 10, strings.TrimSpace, and %d of a signed number.
use Prim.Native.Nat.{ℕ, zero, suc, ◌-◌, ◌^◌, ◌<◌}
use Prim.Native.Char.{code}
use Prim.Native.String.{String, [], ◌∷◌}
use mathlib.Core.Path.{◌≡◌}
use mathlib.Core.Bool.{Bool, true, false, ◌&&◌, ◌||◌}
use mathlib.Core.Option.{Option, none, some}
use mathlib.Core.Logic.{inl, inr}
use native.Mathlib.Omega.{arith}
use mcn.Prelude.Tests.{ltb, leb, ◌==◌, if◌then◌else◌, Bool-cases}
use mcn.Prelude.Int.{ℤ, pos, negsuc, IsInt32}
use mcn.Prelude.Decimal.{read_digits, print_nat}
use Prim.Native.String.{◌++◌ as str_append}

-- unicode.IsSpace, by code point.
abbrev pub is_space_code : ℕ → Bool
is_space_code n =
    (leb 9 n && leb n 13)
    || (n == 32)
    || (n == 133)
    || (n == 160)
    || (n == 5760)
    || (leb 8192 n && leb n 8202)
    || (n == 8232)
    || (n == 8233)
    || (n == 8239)
    || (n == 8287)
    || (n == 12288)

abbrev pub is_empty : String → Bool
is_empty [] = true
is_empty (c ∷ s) = false

abbrev pub trim_left : String → String
trim_left [] = []
trim_left (c ∷ s) = let rest = trim_left s in if is_space_code (code c) then rest else c ∷ s

abbrev pub trim_right : String → String
trim_right [] = []
trim_right (c ∷ s) =
    let rest = trim_right s in if is_space_code (code c) && is_empty rest then [] else c ∷ rest

abbrev pub trim_space : String → String
trim_space s = trim_right (trim_left s)

-- One digit or more, and nothing else.
unfoldable pub read_unsigned : String → Option ℕ
read_unsigned [] = none
read_unsigned (c ∷ s) = read_digits 0 (c ∷ s)

abbrev below : ℕ → Option ℕ → Option ℕ
below bound none = none
below bound (some n) = if ltb n bound then some n else none

-- strconv.ParseUint(s, 10, bits)
unfoldable pub parse_uint : ℕ → String → Option ℕ
parse_uint bits s = below (2 ^ bits) (read_unsigned s)

abbrev pub non_negative : ℕ → Option ℕ → Option ℤ
non_negative bits none = none
non_negative bits (some n) = if ltb n (2 ^ (bits - 1)) then some (pos n) else none

abbrev negated : ℕ → ℤ
negated n = elim n [ zero ↦ pos 0 | suc k ↦ negsuc k ]

abbrev pub non_positive : ℕ → Option ℕ → Option ℤ
non_positive bits none = none
non_positive bits (some n) = if leb n (2 ^ (bits - 1)) then some (negated n) else none

-- strconv.ParseInt(s, 10, bits), and strconv.Atoi with 64 bits. A sign may stand in front.
unfoldable pub parse_int : ℕ → String → Option ℤ
parse_int bits [] = none
parse_int bits (c ∷ s) =
    if code c == 43
    then non_negative bits (read_unsigned s)
    else if code c == 45
    then non_positive bits (read_unsigned s)
    else non_negative bits (read_unsigned (c ∷ s))

-- %d
abbrev pub print_int : ℤ → String
print_int (pos n) = print_nat n
print_int (negsuc n) = str_append "-" (print_nat (suc n))

pub parse_uint-bound : (s : String) (n : ℕ) → parse_uint 32 s ≡ some n → n < 2 ^ 32
unfolding parse_uint
parse_uint-bound s n h = ground arith

non_negative-IsInt32 : (o : Option ℕ) (z : ℤ) → non_negative 32 o ≡ some z → IsInt32 z
non_negative-IsInt32 none z h = cc
non_negative-IsInt32 (some n) z h = ground arith

non_positive-IsInt32 : (o : Option ℕ) (z : ℤ) → non_positive 32 o ≡ some z → IsInt32 z
non_positive-IsInt32 none z h = cc
non_positive-IsInt32 (some n) z h = ground arith

-- A number that ParseInt reads with 32 bits fits an int32.
pub parse_int-IsInt32 : (s : String) (z : ℤ) → parse_int 32 s ≡ some z → IsInt32 z
unfolding parse_int
parse_int-IsInt32 [] z h = cc
parse_int-IsInt32 (c ∷ s) z h = elim (Bool-cases (code c == 43)) [
  | inl plus ↦ non_negative-IsInt32 (read_unsigned s) z (ground arith)
  | inr no_plus ↦ elim (Bool-cases (code c == 45)) [
    | inl minus ↦ non_positive-IsInt32 (read_unsigned s) z (ground arith)
    | inr unsigned ↦ non_negative-IsInt32 (read_unsigned (c ∷ s)) z (ground arith)
  ]
]
