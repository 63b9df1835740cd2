-- ===== src/Stream/RebateBounds.antt =====
-- The rebate of contracts/stream/src/yield_integration.rs against the exact fraction, on every
-- branch.
use conduit_contracts.Base.{
  ℕ, ◌*◌, ◌/◌, ◌≤◌, ◌≡◌, ◌⊎◌, ◌&&◌, arith, List, ◌∷◌, ltb, if◌then◌else◌, ℤ, pos, ◌<ℤ◌, ok, err,
  i128_limit, checked_mul, in_i128, pos-*ℤ-pos,
}
use conduit_contracts.Stream.Rebate.{
  YieldEvent, calculated, invalid_rate, insufficient_principal, arithmetic_overflow,
  calculate_rebate_with_params,
}

-- The basis points of a year.
abbrev pub denominator : ℕ
denominator = 315_576_000_000

checked_mul-pos : (a b : ℕ) → checked_mul (pos a) (pos b) ≡ in_i128 (pos (a * b))
unfolding checked_mul
checked_mul-pos a b = rw (pos-*ℤ-pos a b)

scale_fits : checked_mul (pos 10_000) (pos 31_557_600) ≡ in_i128 (pos denominator)
scale_fits = checked_mul-pos 10_000 31_557_600

-- A rate below 0 or above 1,000 basis points is refused, then a principal below 100, then a product
-- of principal and rate, or of these and the time, of 2^127 or more. Otherwise the rebate is the
-- product over the basis points of a year, rounded down, and is published.
pub rebate_branches :
    (p : ℕ) (principal apy : ℤ) (a time : ℕ) (events : List YieldEvent)
    → ((apy <ℤ pos 0) ⊎ (pos 1_000 <ℤ apy)
        → calculate_rebate_with_params principal apy time events ≡ err invalid_rate)
      × (a ≤ 1_000
          → principal <ℤ pos 100
          → calculate_rebate_with_params principal (pos a) time events ≡ err insufficient_principal)
      × (a ≤ 1_000
          → 100 ≤ p
          → calculate_rebate_with_params (pos p) (pos a) time events ≡ (
              if ltb (p * a) i128_limit && ltb (p * a * time) i128_limit
              then (let rebate = pos (p * a * time / denominator) in
                  ok (rebate, calculated (pos p) (pos a) time rebate ∷ events))
              else err arithmetic_overflow))
unfolding calculate_rebate_with_params
rebate_branches p principal apy a time events = (
  λ out. ground arith,
  λ small short. ground arith,
  λ small enough. ground (arith, checked_mul-pos p a, checked_mul-pos (p * a) time, scale_fits),
)
