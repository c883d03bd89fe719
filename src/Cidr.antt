-- ===== src/Cidr.antt =====
-- net.ParseCIDR, IPNet.Contains and IPNet.String of Go's standard library, as far as the code uses
-- them: IPv4 in full, and of an IPv6 network the length of its mask and the IPv4 address that it
-- may stand for.
pub mod RoundTrip
pub mod Bytes
pub mod Plain
use mcn.Prelude.{
  ℕ, ◌+◌, ◌*◌, ◌-◌, ◌/◌, ◌^◌, String, Bool, true, false, Option, none, some, List, ◌&&◌, str_append,
  str_eq, leb, ◌==◌, if◌then◌else◌,
}
use mcn.Prelude.Decimal.{print_nat}
use mcn.Prelude.Numerals.{read_unsigned}
use Prim.Native.Char.{Char, code}
use Prim.Native.String.{[], ◌∷◌}

pub record Quad : Type 0 where
  pub a : ℕ
  pub b : ℕ
  pub c : ℕ
  pub d : ℕ

-- What is kept of an IPv6 network: the length of its mask, and the IPv4 address for which its own
-- address stands, if it is IPv4-mapped (::ffff:a.b.c.d).
abbrev pub V6 : Type 0
V6 = ℕ × Option Quad

-- An address with the length of its network's mask.
pub data Cidr : Type 0 where
  v4 : Quad → ℕ → Cidr
  v6 : ℕ → Option Quad → Cidr

-- The parts before and after the first `sep`.
unfoldable pub cut : ℕ → String → Option (String × String)
cut sep [] = none
cut sep (c ∷ s) =
    let rest = cut sep s in
    if code c == sep
    then some ([], s)
    else elim rest [ none ↦ none | some (before, after) ↦ some (c ∷ before, after) ]

-- One field of a dotted address: no empty field, no leading zero, at most 255.
abbrev pub up_to : ℕ → Option ℕ → Option ℕ
up_to bound none = none
up_to bound (some n) = if leb n bound then some n else none

unfoldable pub read_octet : String → Option ℕ
read_octet [] = none
read_octet (c ∷ []) = up_to 255 (read_unsigned (c ∷ []))
read_octet (c ∷ (e ∷ s)) = if code c == 48 then none else up_to 255 (read_unsigned (c ∷ (e ∷ s)))

abbrev pub quad_of : Option ℕ → Option ℕ → Option ℕ → Option ℕ → Option Quad
quad_of (some a) (some b) (some c) (some d) = some (record { a = a; b = b; c = c; d = d })
quad_of _ _ _ _ = none

-- Three dots, and a field on either side of each.
unfoldable pub parse_v4 : String → Option Quad
unfolding cut read_octet
parse_v4 s = elim (cut 46 s) [
  | none ↦ none
  | some (a, s1) ↦ elim (cut 46 s1) [
    | none ↦ none
    | some (b, s2) ↦ elim (cut 46 s2) [
      | none ↦ none
      | some (c, d) ↦ quad_of (read_octet a) (read_octet b) (read_octet c) (read_octet d)
    ]
  ]
]

-- The first of the characters `.`, `:` and `%` says how an address is read; true for `:`.
unfoldable pub is_v6_text : String → Bool
is_v6_text [] = false
is_v6_text (c ∷ s) =
    let rest = is_v6_text s in
    if code c == 58
    then true
    else if code c == 46
    then false
    else if code c == 37
    then false
    else rest

abbrev pub with_mask : Option Quad → Option ℕ → Option Cidr
with_mask (some q) (some n) = some (v4 q n)
with_mask _ _ = none

abbrev pub v6_of : Option V6 → Option Cidr
v6_of none = none
v6_of (some (n, m)) = some (v6 n m)

-- net.ParseCIDR. `parse_v6 address mask` is its reading of an IPv6 network.
unfoldable pub parse_cidr : (String → String → Option V6) → String → Option Cidr
unfolding cut parse_v4 is_v6_text
parse_cidr parse_v6 s = elim (cut 47 s) [
  | none ↦ none
  | some (address, mask) ↦
      if is_v6_text address
      then v6_of (parse_v6 address mask)
      else with_mask (parse_v4 address) (up_to 32 (read_unsigned mask))
]

abbrev pub number : Quad → ℕ
number q = ((q.a * 256 + q.b) * 256 + q.c) * 256 + q.d

-- The network of `n` leading bits at `base` contains the address.
unfoldable pub contains : Quad → ℕ → Quad → Bool
contains base n q = (number base / 2 ^ (32 - n)) == (number q / 2 ^ (32 - n))

unfoldable pub print_quad : Quad → String
print_quad q = str_append (print_nat q.a) (
    str_append "." (
      str_append (print_nat q.b)
        (str_append "." (str_append (print_nat q.c) (str_append "." (print_nat q.d))))))

-- IPNet.String of an IPv4 network.
unfoldable pub print_cidr : Quad → ℕ → String
unfolding print_quad
print_cidr q n = str_append (print_quad q) (str_append "/" (print_nat n))
