-- ===== src/Examples/Rebates.antt =====
-- The rebate on concrete inputs, and the theorem about it at such inputs.
use conduit_contracts.Base.{
  ◌*◌, ◌/◌, ◌≤◌, ◌≡◌, ◌⊎◌, refl, ◌&&◌, [], ◌∷◌, ltb, if◌then◌else◌, pos, negsuc, ◌<ℤ◌, ok, err,
  i128_limit, ◌*ℤ◌, checked_mul,
}
use conduit_contracts.Stream.Rebate.{
  calculated, processed, invalid_rate, insufficient_principal, arithmetic_overflow,
  calculate_rebate_with_params, calculate_rebate,
}
use conduit_contracts.Stream.RebateBounds.{denominator, rebate_branches}

-- 5% a year on 1,000,000 for a day.
one_day :
    calculate_rebate []
    ≡ (pos 136, processed ∷ calculated (pos 1_000_000) (pos 500) 86_400 (pos 136) ∷ [])
unfolding calculate_rebate calculate_rebate_with_params checked_mul ◌*ℤ◌
one_day = refl

rebate_branches_example :
    ((negsuc 4 <ℤ pos 0) ⊎ (pos 1_000 <ℤ negsuc 4)
      → calculate_rebate_with_params (pos 50) (negsuc 4) 86_400 [] ≡ err invalid_rate)
    × (500 ≤ 1_000
        → pos 50 <ℤ pos 100
        → calculate_rebate_with_params (pos 50) (pos 500) 86_400 [] ≡ err insufficient_principal)
    × (500 ≤ 1_000
        → 100 ≤ 1_000_000
        → calculate_rebate_with_params (pos 1_000_000) (pos 500) 86_400 [] ≡ (
            if ltb (1_000_000 * 500) i128_limit && ltb (1_000_000 * 500 * 86_400) i128_limit
            then (let rebate = pos (1_000_000 * 500 * 86_400 / denominator) in
                ok (rebate, calculated (pos 1_000_000) (pos 500) 86_400 rebate ∷ []))
            else err arithmetic_overflow))
rebate_branches_example = rebate_branches 1_000_000 (pos 50) (negsuc 4) 500 86_400 []
