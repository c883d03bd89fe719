-- ===== src/Cidr/RoundTrip.antt =====
-- What IPNet.String writes, ParseCIDR reads back.
use mcn.Prelude.{
  ℕ, zero, suc, ◌≤◌, ◌<◌, ◌≡◌, refl, ap, inl, inr, String, Bool, true, false, not, Option, none,
  some, ◌&&◌, str_append, ◌==◌, ==_iff, Bool-cases, arith,
}
use Prim.Native.Char.{Char, code}
use text.Mathlib.TextLemmas.{nil-append, cons-append}
use Prim.Native.String.{[], ◌∷◌}
use mcn.Prelude.Decimal.{print_nat, read_digits}
use mcn.Prelude.Numerals.{read_unsigned}
use mcn.Cidr.{
  V6, Quad, v4, cut, read_octet, up_to, parse_v4, is_v6_text, parse_cidr, print_quad, print_cidr,
}

-- No character of the text has the code.
abbrev lacks : ℕ → String → Bool
lacks sep [] = true
lacks sep (c ∷ s) = not (code c == sep) && lacks sep s

lacks-append :
    (sep : ℕ) (s t : String)
    → lacks sep s ≡ true
    → lacks sep t ≡ true
    → lacks sep (str_append s t) ≡ true
lacks-append sep [] t h k = rw (nil-append t) k
lacks-append sep (c ∷ s) t h k = rw (cons-append c s t) (ground (arith, lacks-append sep s t))

cut-append :
    (sep : ℕ) (s : String) (c : Char) (t : String)
    → lacks sep s ≡ true
    → code c ≡ sep
    → cut sep (str_append s (str_append (c ∷ []) t)) ≡ some (s, t)
unfolding cut
cut-append sep [] c t h k =
    rw (nil-append (str_append (c ∷ []) t), cons-append c [] t, nil-append t) (ground arith)
cut-append sep (e ∷ s) c t h k =
    rw (cons-append e s (str_append (c ∷ []) t)) (ground (arith, cut-append sep s c t))

is_v6_text-append :
    (s : String) (c : Char) (t : String)
    → lacks 58 s ≡ true
    → code c ≡ 46
    → is_v6_text (str_append s (str_append (c ∷ []) t)) ≡ false
unfolding is_v6_text
is_v6_text-append [] c t h k =
    rw (nil-append (str_append (c ∷ []) t), cons-append c [] t, nil-append t) (ground arith)
is_v6_text-append (e ∷ s) c t h k =
    rw (cons-append e s (str_append (c ∷ []) t)) (ground (arith, is_v6_text-append s c t))

abbrev is_some : Option ℕ → ℕ → Bool
is_some none n = false
is_some (some m) n = m == n

-- What is needed of one octet's numeral, tested.
abbrev octet_test : ℕ → Bool
octet_test n =
    is_some (read_octet (print_nat n)) n
    && lacks 46 (print_nat n)
    && lacks 47 (print_nat n)
    && lacks 58 (print_nat n)

abbrev all_below : (ℕ → Bool) → ℕ → Bool
all_below f zero = true
all_below f (suc n) = f n && all_below f n

below_all : (f : ℕ → Bool) (k n : ℕ) → all_below f k ≡ true → n < k → f n ≡ true
below_all f zero n h l = absurd (omega arith)
below_all f (suc k) n h l = elim (Bool-cases (n == k)) [
  | inl same ↦ rw ((==_iff n k).0 same) (ground arith)
  | inr other ↦ below_all f k n (ground arith) (ground arith)
]

octets : all_below octet_test 256 ≡ true
unfolding print_nat read_octet read_unsigned read_digits
octets = refl

mask_test : ℕ → Bool
mask_test n = is_some (up_to 32 (read_unsigned (print_nat n))) n

masks : all_below mask_test 33 ≡ true
unfolding print_nat read_unsigned read_digits mask_test
masks = refl

-- Each part of the address fits a byte.
pub record IsQuad (q : Quad) : Type 0 where
  pub a_fits : q.a ≤ 255
  pub b_fits : q.b ≤ 255
  pub c_fits : q.c ≤ 255
  pub d_fits : q.d ≤ 255

is_some-eq : (o : Option ℕ) (n : ℕ) → is_some o n ≡ true → o ≡ some n
is_some-eq none n h = cc
is_some-eq (some m) n h = ap some ((==_iff m n).0 h)

octet_passes : (n : ℕ) → n ≤ 255 → octet_test n ≡ true
octet_passes n h = below_all octet_test 256 n octets (omega arith)

read_octet-print_nat : (n : ℕ) → n ≤ 255 → read_octet (print_nat n) ≡ some n
read_octet-print_nat n h =
    is_some-eq (read_octet (print_nat n)) n (ground (arith, octet_passes n h))

lacks-print_nat :
    (n : ℕ)
    → n ≤ 255
    → (lacks 46 (print_nat n) ≡ true)
      × (lacks 47 (print_nat n) ≡ true)
      × (lacks 58 (print_nat n) ≡ true)
lacks-print_nat n h = (
  ground (arith, octet_passes n h),
  ground (arith, octet_passes n h),
  ground (arith, octet_passes n h),
)

parse_v4-cut :
    (s s1 s2 a b c d : String) (w x y z : ℕ)
    → cut 46 s ≡ some (a, s1)
    → cut 46 s1 ≡ some (b, s2)
    → cut 46 s2 ≡ some (c, d)
    → read_octet a ≡ some w
    → read_octet b ≡ some x
    → read_octet c ≡ some y
    → read_octet d ≡ some z
    → parse_v4 s ≡ some (record { a = w; b = x; c = y; d = z })
unfolding parse_v4
parse_v4-cut s s1 s2 a b c d w x y z e f g h i j k = ground arith

parse_cidr-cut :
    (parse_v6 : String → String → Option V6) (s t m : String) (q : Quad) (n : ℕ)
    → cut 47 s ≡ some (t, m)
    → is_v6_text t ≡ false
    → parse_v4 t ≡ some q
    → up_to 32 (read_unsigned m) ≡ some n
    → parse_cidr parse_v6 s ≡ some (v4 q n)
unfolding parse_cidr
parse_cidr-cut parse_v6 s t m q n e f g h = ground arith

lacks-part :
    (n : ℕ) (s : String)
    → n ≤ 255
    → lacks 47 s ≡ true
    → lacks 47 (str_append (print_nat n) (str_append "." s)) ≡ true
lacks-part n s h k =
    lacks-append 47 (print_nat n) (str_append "." s) (lacks-print_nat n h).1
      (lacks-append 47 "." s refl k)

module _ (q : Quad) (h : IsQuad q) where
  pub parse_v4-print_quad : parse_v4 (print_quad q) ≡ some q
  unfolding print_quad
  parse_v4-print_quad =
      parse_v4-cut (print_quad q) _ _ (print_nat q.a) (print_nat q.b) (print_nat q.c)
        (print_nat q.d) q.a q.b q.c q.d
        (cut-append 46 (print_nat q.a) "." _ (lacks-print_nat q.a h.a_fits).0 refl)
        (cut-append 46 (print_nat q.b) "." _ (lacks-print_nat q.b h.b_fits).0 refl)
        (cut-append 46 (print_nat q.c) "." _ (lacks-print_nat q.c h.c_fits).0 refl)
        (read_octet-print_nat q.a h.a_fits) (read_octet-print_nat q.b h.b_fits)
        (read_octet-print_nat q.c h.c_fits) (read_octet-print_nat q.d h.d_fits)

  lacks-print_quad : lacks 47 (print_quad q) ≡ true
  unfolding print_quad
  lacks-print_quad =
      let after_c = str_append (print_nat q.c) (str_append "." (print_nat q.d)) in
      let after_b = str_append (print_nat q.b) (str_append "." after_c) in
      lacks-part q.a after_b h.a_fits (
        lacks-part q.b after_c h.b_fits
          (lacks-part q.c (print_nat q.d) h.c_fits (lacks-print_nat q.d h.d_fits).1))

  is_v6_text-print_quad : is_v6_text (print_quad q) ≡ false
  unfolding print_quad
  is_v6_text-print_quad =
      is_v6_text-append (print_nat q.a) "." _ (lacks-print_nat q.a h.a_fits).2 refl

  mask_read : (n : ℕ) → n ≤ 32 → up_to 32 (read_unsigned (print_nat n)) ≡ some n
  unfolding mask_test
  mask_read n k = is_some-eq _ n (below_all mask_test 33 n masks (omega arith))

  -- ParseCIDR reads back what IPNet.String writes of an IPv4 address, each number of which fits a
  -- byte, and a mask of up to 32 bits.
  pub parse_cidr-print_cidr :
      (parse_v6 : String → String → Option V6) (n : ℕ)
      → n ≤ 32
      → parse_cidr parse_v6 (print_cidr q n) ≡ some (v4 q n)
  unfolding print_cidr
  parse_cidr-print_cidr parse_v6 n k =
      parse_cidr-cut parse_v6 (print_cidr q n) (print_quad q) (print_nat n) q n
        (cut-append 47 (print_quad q) "/" (print_nat n) lacks-print_quad refl) is_v6_text-print_quad
        parse_v4-print_quad (mask_read n k)
