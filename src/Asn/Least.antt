-- ===== src/Asn/Least.antt =====
-- The loop of AllocateASN: for an upper bound below the largest int32 it ends, with the least free
-- number of the range.
use mcn.Prelude.{
  ℕ, zero, suc, ◌+◌, ◌-◌, ◌≤◌, ◌<◌, ◌^◌, ◌≡◌, ◌≢◌, refl, sym, ap, ◌∙◌, inl, inr, true, false, some,
  List, arith, Bool-cases,
}
use mathlib.Core.Path.{subst}
use mcn.Prelude.Int.{
  ℤ, pos, negsuc, pos_part, neg_part, ◌≤ℤ◌, leb_ℤ, eqb_ℤ, eqb_ℤ→eq, eq_of_parts, suc_ℤ, suc_int32,
  max_int32, IsInt32,
}
use mcn.Kube.{Result, ok, err}
use mcn.Pools.{Pools}
use mcn.Asn.{is_allocated, no_available_asn, scan_asns, find_next_asn}

-- One more, written with the parts.
suc_ℤ-parts : (a : ℤ) → pos_part (suc_ℤ a) + neg_part a ≡ suc (pos_part a + neg_part (suc_ℤ a))
suc_ℤ-parts (pos n) = omega arith
suc_ℤ-parts (negsuc zero) = refl
suc_ℤ-parts (negsuc (suc k)) = omega arith

-- Below the largest value the counter does not wrap.
suc_int32-suc_ℤ : (a b : ℤ) → a ≤ℤ b → b ≤ℤ pos (max_int32 - 1) → suc_int32 a ≡ suc_ℤ a
suc_int32-suc_ℤ a b h k = ground arith

-- `a + d = b`.
abbrev IsApart : ℤ → ℕ → ℤ → Type 0
IsApart a d b = pos_part a + neg_part b + d ≡ pos_part b + neg_part a

-- `v` is free and lies in the range, and everything of the range below `v` is taken.
pub record IsLeastAsn (allocated : List ℤ) (lo hi v : ℤ) : Type 0 where
  pub above : lo ≤ℤ v
  pub below : v ≤ℤ hi
  pub free : is_allocated v allocated ≡ false
  pub least : (u : ℤ) → lo ≤ℤ u → u ≤ℤ v → u ≢ v → is_allocated u allocated ≡ true

abbrev pub ScanResult : List ℤ → ℤ → ℤ → Result ℤ → Type 0
ScanResult allocated lo hi (ok v) = IsLeastAsn allocated lo hi v
ScanResult allocated lo hi (err e) =
    (e ≡ no_available_asn) × ((u : ℤ) → lo ≤ℤ u → u ≤ℤ hi → is_allocated u allocated ≡ true)

-- Whatever holds from `lo + 1` on holds from `lo` on, if `lo` is taken.
taken_from :
    (allocated : List ℤ) (lo u : ℤ)
    → is_allocated lo allocated ≡ true
    → lo ≤ℤ u
    → (suc_ℤ lo ≤ℤ u → is_allocated u allocated ≡ true)
    → is_allocated u allocated ≡ true
taken_from allocated lo u taken a k = elim (Bool-cases (eqb_ℤ u lo)) [
  | inl same ↦ subst (λ x. is_allocated x allocated ≡ true) (sym (eqb_ℤ→eq u lo same)) taken
  | inr other ↦ k (ground (arith, suc_ℤ-parts lo))
]

scan_above :
    (allocated : List ℤ) (lo hi : ℤ) (r : Result ℤ)
    → is_allocated lo allocated ≡ true
    → ScanResult allocated (suc_ℤ lo) hi r
    → ScanResult allocated lo hi r
scan_above allocated lo hi (ok v) taken h = record {
  above = ground (arith, suc_ℤ-parts lo, h.above);
  below = h.below;
  free = h.free;
  least = λ u a b n. taken_from allocated lo u taken a (λ a'. h.least u a' b n);
}
scan_above allocated lo hi (err e) taken (h, b) =
    (h, λ u a c. taken_from allocated lo u taken a (λ a'. b u a' c))

-- The scan from `lo` up to `hi` ends within `rounds`.
abbrev IsEnough : ℤ → ℤ → ℕ → Type 0
IsEnough lo hi rounds =
    (1 ≤ rounds) × (pos_part hi + neg_part lo + 1 < pos_part lo + neg_part hi + rounds)

IsEnough-left :
    (lo hi : ℤ) (rounds : ℕ)
    → lo ≤ℤ hi
    → IsEnough lo hi (suc rounds)
    → IsEnough (suc_ℤ lo) hi rounds
IsEnough-left lo hi rounds h (one, more) = (omega arith, ground (arith, suc_ℤ-parts lo))

module _ (allocated : List ℤ) (hi : ℤ) where
  past :
      (rounds : ℕ) (lo : ℤ)
      → leb_ℤ lo hi ≡ false
      → scan_asns allocated hi (suc rounds) lo ≡ some (err no_available_asn)
  unfolding scan_asns
  past rounds lo h = ground arith

  stops :
      (rounds : ℕ) (lo : ℤ)
      → leb_ℤ lo hi ≡ true
      → is_allocated lo allocated ≡ false
      → scan_asns allocated hi (suc rounds) lo ≡ some (ok lo)
  unfolding scan_asns
  stops rounds lo h f = ground arith

  goes_on :
      (rounds : ℕ) (lo : ℤ)
      → leb_ℤ lo hi ≡ true
      → is_allocated lo allocated ≡ true
      → scan_asns allocated hi (suc rounds) lo ≡ scan_asns allocated hi rounds (suc_int32 lo)
  unfolding scan_asns
  goes_on rounds lo h t = ground arith

  scan_asns-ScanResult :
      (rounds : ℕ) (lo : ℤ)
      → hi ≤ℤ pos (max_int32 - 1)
      → IsEnough lo hi rounds
      → (r : Result ℤ) × (scan_asns allocated hi rounds lo ≡ some r) × ScanResult allocated lo hi r
  scan_asns-ScanResult zero lo top enough = absurd (omega (arith, enough.0))
  scan_asns-ScanResult (suc rounds) lo top enough = elim (Bool-cases (leb_ℤ lo hi)) [
    | inr over ↦ (err no_available_asn, past rounds lo over, (refl, λ u a b. absurd (ground arith)))
    | inl inside ↦ elim (Bool-cases (is_allocated lo allocated)) [
      | inr free ↦ (
        ok lo,
        stops rounds lo inside free,
        record {
          above = omega arith;
          below = ground arith;
          free = free;
          least = λ u a b n. absurd (n (eq_of_parts u lo (ground arith)));
        },
      )
      | inl taken ↦
          let h : lo ≤ℤ hi = ground arith in
          let (r, e, k) =
            scan_asns-ScanResult rounds (suc_ℤ lo) top (IsEnough-left lo hi rounds h enough) in
          (
            r,
            goes_on rounds lo inside taken
                ∙ ap (scan_asns allocated hi rounds) (suc_int32-suc_ℤ lo hi h top)
                ∙ e,
            scan_above allocated lo hi r taken k,
          )
    ]
  ]

-- If the upper bound of the pool is below the largest int32, then the loop of AllocateASN ends. It
-- returns the least number of the range that is not allocated, or the error if all of them are.
pub find_next_asn-ScanResult :
    (allocated : List ℤ) (p : Pools)
    → IsInt32 p.asn_min
    → p.asn_max ≤ℤ pos (max_int32 - 1)
    → (r : Result ℤ) × (find_next_asn allocated p ≡ some r)
      × ScanResult allocated p.asn_min p.asn_max r
unfolding find_next_asn
find_next_asn-ScanResult allocated p fits top =
    scan_asns-ScanResult allocated p.asn_max (2 ^ 32 + 1) p.asn_min top (omega arith, ground arith)

-- With the largest int32 as the upper bound of the pool the loop runs on past it: once that number
-- is taken, a pool that starts there too yields the smallest int32, which is negative.
pub find_next_asn-wraps :
    (allocated : List ℤ) (p : Pools)
    → p.asn_min ≡ pos max_int32
    → p.asn_max ≡ pos max_int32
    → is_allocated (pos max_int32) allocated ≡ true
    → is_allocated (negsuc max_int32) allocated ≡ false
    → find_next_asn allocated p ≡ some (ok (negsuc max_int32))
unfolding find_next_asn
find_next_asn-wraps allocated p lo hi taken free =
    rw (lo, hi)
      (goes_on allocated (pos max_int32) 4294967296 (pos max_int32) (ground arith) taken
        ∙ stops allocated (pos max_int32) 4294967295 (negsuc max_int32) (ground arith) free)
