-- ===== src/Cidr/Bytes.antt =====
-- The parts of an address that ParseCIDR returns fit bytes.
use mcn.Prelude.{
  some_inj, ℕ, ◌≤◌, ◌≡◌, refl, inl, inr, String, Option, none, some, ◌==◌, arith, Option-cases,
  Bool-cases,
}
use Prim.Native.Char.{code}
use mathlib.Core.Path.{subst}
use mathlib.Core.Logic.{◌≢◌}
use Prim.Native.String.{[], ◌∷◌}
use mcn.Prelude.Numerals.{read_unsigned}
use mcn.Cidr.{
  V6, Quad, v4, cut, up_to, read_octet, quad_of, parse_v4, with_mask, v6_of, is_v6_text, parse_cidr,
}
use mcn.Cidr.RoundTrip.{IsQuad}

up_to-bound : (b : ℕ) (o : Option ℕ) (n : ℕ) → up_to b o ≡ some n → n ≤ b
up_to-bound b none n h = cc
up_to-bound b (some m) n h = ground arith

read_octet-bound : (s : String) (n : ℕ) → read_octet s ≡ some n → n ≤ 255
unfolding read_octet
read_octet-bound [] n h = cc
read_octet-bound (c ∷ []) n h = up_to-bound 255 (read_unsigned (c ∷ [])) n h
read_octet-bound (c ∷ (e ∷ s)) n h = elim (Bool-cases (code c == 48)) [
  | inl zero_first ↦ absurd (ground arith)
  | inr other ↦ up_to-bound 255 (read_unsigned (c ∷ (e ∷ s))) n (ground arith)
]

quad_of-IsQuad :
    (o p r s : Option ℕ) (q : Quad)
    → ((n : ℕ) → o ≡ some n → n ≤ 255)
    → ((n : ℕ) → p ≡ some n → n ≤ 255)
    → ((n : ℕ) → r ≡ some n → n ≤ 255)
    → ((n : ℕ) → s ≡ some n → n ≤ 255)
    → quad_of o p r s ≡ some q
    → IsQuad q
quad_of-IsQuad (some a) (some b) (some c) (some d) q ha hb hc hd h =
    subst IsQuad (some_inj h)
      (record { a_fits = ha a refl; b_fits = hb b refl; c_fits = hc c refl; d_fits = hd d refl })
quad_of-IsQuad none p r s q ha hb hc hd h = cc
quad_of-IsQuad (some a) none r s q ha hb hc hd h = cc
quad_of-IsQuad (some a) (some b) none s q ha hb hc hd h = cc
quad_of-IsQuad (some a) (some b) (some c) none q ha hb hc hd h = cc

parse_v4-parts :
    (s : String) (q : Quad)
    → parse_v4 s ≡ some q
    → (a b c d : String) × (quad_of (read_octet a) (read_octet b) (read_octet c) (read_octet d)
        ≡ some q)
unfolding parse_v4
parse_v4-parts s q h = elim (Option-cases (cut 46 s)) [
  | inl e ↦ absurd (ground arith)
  | inr ((a, s1), e) ↦ elim (Option-cases (cut 46 s1)) [
    | inl f ↦ absurd (ground arith)
    | inr ((b, s2), f) ↦ elim (Option-cases (cut 46 s2)) [
      | inl g ↦ absurd (ground arith)
      | inr ((c, d), g) ↦ (a, b, c, d, ground arith)
    ]
  ]
]

parse_v4-IsQuad : (s : String) (q : Quad) → parse_v4 s ≡ some q → IsQuad q
parse_v4-IsQuad s q h =
    let (a, b, c, d, e) = parse_v4-parts s q h in
    quad_of-IsQuad _ _ _ _ q (read_octet-bound a) (read_octet-bound b) (read_octet-bound c)
      (read_octet-bound d) e

with_mask-quad :
    (o : Option Quad) (m : Option ℕ) (q : Quad) (n : ℕ) → with_mask o m ≡ some (v4 q n) → o ≡ some q
with_mask-quad (some r) (some m) q n h = cc
with_mask-quad none m q n h = cc
with_mask-quad (some r) none q n h = cc

pub v6_of-quad : (o : Option V6) (q : Quad) (n : ℕ) → v6_of o ≢ some (v4 q n)
v6_of-quad none q n h = cc
v6_of-quad (some m) q n h = cc

pub parse_cidr-IsQuad :
    (parse_v6 : String → String → Option V6) (s : String) (q : Quad) (n : ℕ)
    → parse_cidr parse_v6 s ≡ some (v4 q n)
    → IsQuad q
unfolding parse_cidr
parse_cidr-IsQuad parse_v6 s q n h = elim (Option-cases (cut 47 s)) [
  | inl e ↦ absurd (ground arith)
  | inr ((t, m), e) ↦ elim (Bool-cases (is_v6_text t)) [
    | inl six ↦ absurd (v6_of-quad (parse_v6 t m) q n (ground arith))
    | inr four ↦
        parse_v4-IsQuad t q
          (with_mask-quad (parse_v4 t) (up_to 32 (read_unsigned m)) q n (ground arith))
  ]
]
