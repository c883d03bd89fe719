-- ===== src/Vtep/Addresses.antt =====
-- The addresses that AllocateVtepIP gives one after the other.
use mcn.Prelude.{
  some_inj, ℕ, zero, suc, ◌+◌, ◌*◌, ◌-◌, ◌/◌, ◌%◌, ◌^◌, ◌≤◌, ◌<◌, ◌≡◌, ◌↔◌, refl, sym, ap, ◌∙◌,
  String, true, some, ==_iff, arith,
}
use native.Mathlib.Nat.{
  add_comm, zero-add, div-mul-le_self, add-mul-div_right, div-eq_of_lt, one-le-pow,
}
use native.Mathlib.Numerals.{towards_suc}
use mcn.Kube.{ok_inj, Result, ok}
use mcn.Cidr.{Quad, v4, number, parse_cidr, parse_v4, print_quad, contains}
use mcn.Cidr.RoundTrip.{IsQuad, parse_v4-print_quad}
use mcn.Cidr.Bytes.{parse_cidr-IsQuad}
use mcn.Vtep.{VtepManager, mask_number, network_ip, with_last, allocate_vtep_ip}

module _ (q : Quad) (n : ℕ) where
  -- The address that call number `index` gives.
  abbrev pub address : ℕ → Quad
  address index = with_last (network_ip q n) index

  pow_split : n ≤ 24 → 2 ^ (32 - n) ≡ 256 * 2 ^ (24 - n)
  pow_split h =
      let e : 32 - n ≡ (24 - n) + 8 = omega arith in
      ap (λ k. 2 ^ k) e ∙ simp towards_suc (omega arith)

  number-address : (index : ℕ) → number (address index) ≡ mask_number q n / 256 * 256 + index % 256
  unfolding network_ip
  number-address index = omega arith

  -- The masked number is a multiple of 256, so only the last byte differs from it.
  whole_bytes : n ≤ 24 → mask_number q n / 256 * 256 ≡ mask_number q n
  whole_bytes h = rw (pow_split h) (omega arith)

  power_large : n ≤ 24 → 256 ≤ 2 ^ (32 - n)
  power_large h = omega (arith, pow_split h, one-le-pow (24 - n) 2 (omega arith))

  quotient : (index : ℕ) → n ≤ 24 → number (address index) / 2 ^ (32 - n) ≡ number q / 2 ^ (32 - n)
  quotient index h =
      let p = 2 ^ (32 - n) in
      let t = number q / p in
      let r = index % 256 in
      let big = power_large h in
      let positive : 0 < p = omega arith in
      let small : r < p = omega arith in
      ap (λ k. k / p) (number-address index ∙ ap (λ k. k + r) (whole_bytes h) ∙ add_comm (t * p) r)
      ∙ add-mul-div_right r t positive
      ∙ ap (λ k. k + t) (div-eq_of_lt small)
      ∙ zero-add t

  contains-address : (index : ℕ) → n ≤ 24 → contains q n (address index) ≡ true
  unfolding contains
  contains-address index h =
      (==_iff (number q / 2 ^ (32 - n)) (number (address index) / 2 ^ (32 - n))).1
        (sym (quotient index h))

  address-IsQuad : (index : ℕ) → IsQuad q → IsQuad (address index)
  unfolding network_ip
  address-IsQuad index f = record {
    a_fits =
        omega (
          arith,
          div-mul-le_self (number q) (2 ^ (32 - n)),
          f.a_fits,
          f.b_fits,
          f.c_fits,
          f.d_fits,
        );
    b_fits = omega arith;
    c_fits = omega arith;
    d_fits = omega arith;
  }

print_quad-injective : (x y : Quad) → IsQuad x → IsQuad y → print_quad x ≡ print_quad y → x ≡ y
print_quad-injective x y f g h =
    some_inj (sym (parse_v4-print_quad x f) ∙ ap parse_v4 h ∙ parse_v4-print_quad y g)

module _ {W : Type 0} where
  -- The manager after so many calls.
  abbrev pub after : ℕ → VtepManager W → VtepManager W
  after zero m = m
  after (suc k) m = after k (allocate_vtep_ip m).1

  counted :
      (m : VtepManager W) (q : Quad) (n : ℕ)
      → parse_cidr m.parse_v6 m.vtep_cidr ≡ some (v4 q n)
      → (allocate_vtep_ip m).1 ≡ record m { vtep_ip_index = m.vtep_ip_index + 1 }
  unfolding allocate_vtep_ip
  counted m q n h = rw (h, allocate_vtep_ip) refl

  given :
      (m : VtepManager W) (q : Quad) (n : ℕ)
      → parse_cidr m.parse_v6 m.vtep_cidr ≡ some (v4 q n)
      → (allocate_vtep_ip m).0 ≡ ok (print_quad (address q n m.vtep_ip_index))
  unfolding allocate_vtep_ip
  given m q n h = rw (h, allocate_vtep_ip) refl

  after-index :
      (k : ℕ) (m : VtepManager W) (q : Quad) (n : ℕ)
      → parse_cidr m.parse_v6 m.vtep_cidr ≡ some (v4 q n)
      → after k m ≡ record m { vtep_ip_index = m.vtep_ip_index + k }
  after-index zero m q n h = ap (λ i. record m { vtep_ip_index = i }) (omega arith)
  after-index (suc k) m q n h =
      ap (after k) (counted m q n h)
      ∙ after-index k (record m { vtep_ip_index = m.vtep_ip_index + 1 }) q n h
      ∙ ap (λ i. record m { vtep_ip_index = i }) (omega arith)

  module _ (m : VtepManager W) (q : Quad) (n : ℕ)
      (parses : parse_cidr m.parse_v6 m.vtep_cidr ≡ some (v4 q n)) where
    -- What the call after `k` others returns.
    abbrev pub nth : ℕ → Result String
    nth k = (allocate_vtep_ip (after k m)).0

    nth-address : (k : ℕ) → nth k ≡ ok (print_quad (address q n (m.vtep_ip_index + k)))
    nth-address k =
        ap (λ x. (allocate_vtep_ip x).0) (after-index k m q n parses)
        ∙ given (record m { vtep_ip_index = m.vtep_ip_index + k }) q n parses

    same_address :
        (j k : ℕ)
        → nth j ≡ nth k
        → address q n (m.vtep_ip_index + j) ≡ address q n (m.vtep_ip_index + k)
    same_address j k h =
        let f = parse_cidr-IsQuad m.parse_v6 m.vtep_cidr q n parses in
        print_quad-injective (address q n (m.vtep_ip_index + j)) (address q n (m.vtep_ip_index + k))
          (address-IsQuad q n (m.vtep_ip_index + j) f) (address-IsQuad q n (m.vtep_ip_index + k) f)
          (ok_inj (sym (nth-address j) ∙ h ∙ nth-address k))

    congruent : (i j k : ℕ) → (i + j) % 256 ≡ (i + k) % 256 → j % 256 ≡ k % 256
    congruent i j k h = omega arith

    -- With an IPv4 network of at most 24 leading bits, every call of AllocateVtepIP succeeds with an
    -- address of the network, and two calls give the same address exactly when their places in the
    -- sequence agree modulo 256: any 256 calls in a row give 256 addresses, and then they come again.
    pub allocate_vtep_ip_addresses :
        n ≤ 24
        → ((k : ℕ) → (ip : Quad) × (nth k ≡ ok (print_quad ip)) × (contains q n ip ≡ true))
          × ((j k : ℕ) → (nth j ≡ nth k) ↔ (j % 256 ≡ k % 256))
    allocate_vtep_ip_addresses h = (
      λ k. (
        address q n (m.vtep_ip_index + k),
        nth-address k,
        contains-address q n (m.vtep_ip_index + k) h,
      ),
      λ j k. (
        λ e. congruent m.vtep_ip_index j k (ap (λ x. x.d) (same_address j k e)),
        λ e.
            nth-address j
            ∙ ap (λ r. ok (print_quad (record (network_ip q n) { d = r }))) (omega arith)
            ∙ sym (nth-address k),
      ),
    )
