-- ===== src/Cidr/Plain.antt =====
-- A text that ParseCIDR reads as an IPv4 network has no white space and no dollar sign, so it passes
-- through an environment variable as it is.
use mcn.Prelude.{
  ℕ, ◌+◌, ◌-◌, ◌*◌, ◌≡◌, refl, ap, ◌∙◌, inl, inr, String, true, false, Option, none, some, ◌==◌,
  ==_iff, arith, Option-cases, Bool-cases,
}
use Prim.Native.Char.{code}
use Prim.Native.String.{[], ◌∷◌}
use mcn.Prelude.Decimal.{read_digits, is_digit}
use mcn.Prelude.Numerals.{read_unsigned, is_space_code}
use mcn.Prelude.Signed.{plain}
use mcn.Cidr.{
  V6, Quad, v4, cut, up_to, read_octet, quad_of, parse_v4, with_mask, is_v6_text, parse_cidr,
}
use mcn.Cidr.Bytes.{v6_of-quad}

-- A separator that is neither white space nor a dollar sign.
abbrev IsPlainCode : ℕ → Type 0
IsPlainCode sep = ((sep == 36) ≡ false) × (is_space_code sep ≡ false)

cut-plain :
    (sep : ℕ) (s a b : String)
    → IsPlainCode sep
    → cut sep s ≡ some (a, b)
    → plain a ≡ true
    → plain b ≡ true
    → plain s ≡ true
unfolding cut
cut-plain sep [] a b p h k l = cc
cut-plain sep (c ∷ s) a b p h k l = elim (Bool-cases (code c == sep)) [
  | inl here ↦
      let e : code c ≡ sep = (==_iff (code c) sep).0 here in
      let same : s ≡ b = ground arith in ground arith
  | inr later ↦ elim (Option-cases (cut sep s)) [
    | inl e ↦ absurd (ground arith)
    | inr ((before, after), e) ↦
        let first : (c ∷ before) ≡ a = ground arith in
        let rest : after ≡ b = ground arith in
        let pc : plain (c ∷ before) ≡ true = ap plain first ∙ k in
        let start : plain before ≡ true = ground arith in
        let whole = cut-plain sep s before after p e start (ap plain rest ∙ l) in ground arith
  ]
]

read_digits-plain : (acc : ℕ) (s : String) (n : ℕ) → read_digits acc s ≡ some n → plain s ≡ true
unfolding read_digits
read_digits-plain acc [] n h = refl
read_digits-plain acc (c ∷ s) n h = elim (Bool-cases (is_digit c)) [
  | inr other ↦ absurd (ground arith)
  | inl digit ↦
      let rest = read_digits-plain (acc * 10 + (code c - 48)) s n (ground arith) in ground arith
]

read_unsigned-plain : (s : String) (n : ℕ) → read_unsigned s ≡ some n → plain s ≡ true
unfolding read_unsigned
read_unsigned-plain [] n h = cc
read_unsigned-plain (c ∷ s) n h = read_digits-plain 0 (c ∷ s) n h

up_to-plain : (b : ℕ) (s : String) (n : ℕ) → up_to b (read_unsigned s) ≡ some n → plain s ≡ true
up_to-plain b s n h = elim (Option-cases (read_unsigned s)) [
  | inl e ↦ absurd (ground arith)
  | inr (m, e) ↦ read_unsigned-plain s m e
]

read_octet-plain : (s : String) (n : ℕ) → read_octet s ≡ some n → plain s ≡ true
unfolding read_octet
read_octet-plain [] n h = cc
read_octet-plain (c ∷ []) n h = up_to-plain 255 (c ∷ []) n h
read_octet-plain (c ∷ (e ∷ s)) n h = elim (Bool-cases (code c == 48)) [
  | inl zero_first ↦ absurd (ground arith)
  | inr other ↦ up_to-plain 255 (c ∷ (e ∷ s)) n (ground arith)
]

quad_of-plain :
    (a b c d : String) (q : Quad)
    → quad_of (read_octet a) (read_octet b) (read_octet c) (read_octet d) ≡ some q
    → (plain a ≡ true) × (plain b ≡ true) × (plain c ≡ true) × (plain d ≡ true)
quad_of-plain a b c d q h = elim (Option-cases (read_octet a)) [
  | inl e ↦ absurd (ground arith)
  | inr (w, e) ↦ elim (Option-cases (read_octet b)) [
    | inl f ↦ absurd (ground arith)
    | inr (x, f) ↦ elim (Option-cases (read_octet c)) [
      | inl g ↦ absurd (ground arith)
      | inr (y, g) ↦ elim (Option-cases (read_octet d)) [
        | inl k ↦ absurd (ground arith)
        | inr (z, k) ↦ (
          read_octet-plain a w e,
          read_octet-plain b x f,
          read_octet-plain c y g,
          read_octet-plain d z k,
        )
      ]
    ]
  ]
]

parse_v4-plain : (s : String) (q : Quad) → parse_v4 s ≡ some q → plain s ≡ true
unfolding parse_v4
parse_v4-plain s q h = elim (Option-cases (cut 46 s)) [
  | inl e ↦ absurd (ground arith)
  | inr ((a, s1), e) ↦ elim (Option-cases (cut 46 s1)) [
    | inl f ↦ absurd (ground arith)
    | inr ((b, s2), f) ↦ elim (Option-cases (cut 46 s2)) [
      | inl g ↦ absurd (ground arith)
      | inr ((c, d), g) ↦
          let (pa, pb, pc, pd) = quad_of-plain a b c d q (ground arith) in
          cut-plain 46 s a s1 (refl, refl) e pa
            (cut-plain 46 s1 b s2 (refl, refl) f pb (cut-plain 46 s2 c d (refl, refl) g pc pd))
    ]
  ]
]

with_mask-parts :
    (o : Option Quad) (m : Option ℕ) (q : Quad) (n : ℕ)
    → with_mask o m ≡ some (v4 q n)
    → (o ≡ some q) × (m ≡ some n)
with_mask-parts (some r) (some m) q n h = (cc, cc)
with_mask-parts none m q n h = cc
with_mask-parts (some r) none q n h = cc

pub parse_cidr-plain :
    (parse_v6 : String → String → Option V6) (s : String) (q : Quad) (n : ℕ)
    → parse_cidr parse_v6 s ≡ some (v4 q n)
    → plain s ≡ true
unfolding parse_cidr
parse_cidr-plain parse_v6 s q n h = elim (Option-cases (cut 47 s)) [
  | inl e ↦ absurd (ground arith)
  | inr ((t, m), e) ↦ elim (Bool-cases (is_v6_text t)) [
    | inl six ↦ absurd (v6_of-quad (parse_v6 t m) q n (ground arith))
    | inr four ↦
        let (address, mask) =
          with_mask-parts (parse_v4 t) (up_to 32 (read_unsigned m)) q n (ground arith) in
        cut-plain 47 s t m (refl, refl) e (parse_v4-plain t q address) (up_to-plain 32 m n mask)
  ]
]
