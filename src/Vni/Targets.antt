-- ===== src/Vni/Targets.antt =====
-- Route targets tell networks apart as well as their VNIs do.
use text.Mathlib.TextLemmas.{append_cancel_left}
use mcn.Prelude.{ℕ, ◌≡◌}
use mcn.Prelude.Decimal.{print_nat, print_nat-injective}
use mcn.Vni.{generate_route_target, route_target_asn}

-- Networks with different VNIs have different route targets.
pub generate_route_target-injective :
    (v u : ℕ) → generate_route_target v ≡ generate_route_target u → v ≡ u
unfolding generate_route_target
generate_route_target-injective v u h =
    print_nat-injective v u
      (append_cancel_left ":" _ _ (append_cancel_left (print_nat route_target_asn) _ _ h))
