-- ===== src/Vni/Least.antt =====
-- What findNextAvailableVNI and AllocateVNI return: the smallest free identifier of the range.
use mcn.Prelude.{
  ℕ, zero, suc, ◌+◌, ◌≤◌, ◌<◌, ◌≡◌, refl, ◌↔◌, inl, inr, true, false, List, arith, has, ◌∙◌, ◌==◌,
  ==_iff, ap, Bool-cases,
}
use mcn.Kube.{Result, ok, err}
use mcn.Vni.{vni_min, vni_max, scan_vnis, find_next_available_vni, no_available_vni, validate_vni}

-- `v` is free, and everything from `lo` up to it is taken.
pub record IsLeastFrom (allocated : List ℕ) (lo v : ℕ) : Type 0 where
  pub above : lo ≤ v
  pub free : has v allocated ≡ false
  pub least : (u : ℕ) → lo ≤ u → u < v → has u allocated ≡ true

-- What the scan over `rounds` values from `lo` returns.
abbrev pub ScanResult : List ℕ → ℕ → ℕ → Result ℕ → Type 0
ScanResult allocated rounds lo (ok v) = IsLeastFrom allocated lo v × (v < lo + rounds)
ScanResult allocated rounds lo (err e) =
    (e ≡ no_available_vni) × ((u : ℕ) → lo ≤ u → u < lo + rounds → has u allocated ≡ true)

-- Whatever holds from `lo + 1` on holds from `lo` on, if `lo` is taken.
taken_from :
    (allocated : List ℕ) (lo u : ℕ)
    → has lo allocated ≡ true
    → lo ≤ u
    → (lo + 1 ≤ u → has u allocated ≡ true)
    → has u allocated ≡ true
taken_from allocated lo u taken a k = elim (Bool-cases (u == lo)) [
  | inl same ↦ rw ((==_iff u lo).0 same) taken
  | inr other ↦ k (ground arith)
]

scan_above :
    (allocated : List ℕ) (rounds lo : ℕ) (r : Result ℕ)
    → has lo allocated ≡ true
    → ScanResult allocated rounds (lo + 1) r
    → ScanResult allocated (suc rounds) lo r
scan_above allocated rounds lo (ok v) taken (h, b) = (
  record {
    above = omega (arith, h.above);
    free = h.free;
    least = λ u a c. taken_from allocated lo u taken a (λ a'. h.least u a' c);
  },
  omega arith,
)
scan_above allocated rounds lo (err e) taken (h, b) =
    (h, λ u a c. taken_from allocated lo u taken a (λ a'. b u a' (omega arith)))

scan_vnis-ScanResult :
    (allocated : List ℕ) (rounds lo : ℕ)
    → ScanResult allocated rounds lo (scan_vnis allocated rounds lo)
unfolding scan_vnis
scan_vnis-ScanResult allocated zero lo = (refl, λ u a c. absurd (omega arith))
scan_vnis-ScanResult allocated (suc rounds) lo = elim (Bool-cases (has lo allocated)) [
  | inl taken ↦
      rw taken
        (scan_above allocated rounds lo _ taken (scan_vnis-ScanResult allocated rounds (lo + 1)))
  | inr free ↦ rw free (
    record { above = omega arith; free = free; least = λ u a c. absurd (omega arith) },
    omega arith,
  )
]

pub find_next-ScanResult :
    (allocated : List ℕ) → ScanResult allocated 5001 5000 (find_next_available_vni allocated)
unfolding find_next_available_vni
find_next-ScanResult allocated = scan_vnis-ScanResult allocated 5001 5000

-- Two least free values from the same start are one.
least_unique :
    (allocated : List ℕ) (lo v u : ℕ)
    → IsLeastFrom allocated lo v
    → IsLeastFrom allocated lo u
    → v ≡ u
least_unique allocated lo v u h k =
    let below : ¬ (v < u) = λ c. cc (h.free, k.least v h.above c) in
    let above : ¬ (u < v) = λ c. cc (k.free, h.least u k.above c) in omega arith

-- So too where the two sets agree from the start on.
pub least_agrees :
    (xs ys : List ℕ) (lo v u : ℕ)
    → ((x : ℕ) → lo ≤ x → has x xs ≡ has x ys)
    → IsLeastFrom xs lo v
    → IsLeastFrom ys lo u
    → v ≡ u
least_agrees xs ys lo v u same h k = least_unique xs lo v u h (record {
  above = k.above;
  free = same u k.above ∙ k.free;
  least = λ x a b. same x a ∙ k.least x a b;
})

least_found :
    (allocated : List ℕ) (v : ℕ) (r : Result ℕ)
    → ScanResult allocated 5001 5000 r
    → IsLeastFrom allocated 5000 v
    → v ≤ 10000
    → r ≡ ok v
least_found allocated v (ok u) (k, b) h top = ap ok (least_unique allocated 5000 u v k h)
least_found allocated v (err e) (k, b) h top = cc (h.free, b v h.above (omega arith))

-- findNextAvailableVNI returns `v` exactly if `v` lies in 5000..10000, is free, and every smaller
-- identifier of the range is allocated.
pub find_next_available_vni-IsLeastFrom :
    (allocated : List ℕ) (v : ℕ)
    → (find_next_available_vni allocated ≡ ok v) ↔ (IsLeastFrom allocated vni_min v × (v ≤ vni_max))
find_next_available_vni-IsLeastFrom allocated v = (
  λ e.
      let r : ScanResult allocated 5001 5000 (ok v) = rw e at (find_next-ScanResult allocated) in
      (r.0, omega (arith, r.1)),
  λ h. least_found allocated v _ (find_next-ScanResult allocated) h.0 h.1,
)

-- A VNI that the allocator found free passes ValidateVNI.
pub find_next_available_vni-valid :
    (allocated : List ℕ) (v : ℕ) → find_next_available_vni allocated ≡ ok v → validate_vni v ≡ ok tt
unfolding validate_vni
find_next_available_vni-valid allocated v e =
    let h = (find_next_available_vni-IsLeastFrom allocated v).0 e in ground (arith, h.0.above, h.1)
