-- ===== src/Oracle/Conversion.antt =====
-- The conversion of src/oracle.rs to fiat against the exact fraction.
use native.Mathlib.Nat.{mod-eq_of_lt}
use conduit_contracts.Base.{
  ℕ, zero, suc, ◌+◌, ◌-◌, ◌*◌, ◌/◌, ◌≤◌, ◌<◌, ◌≡◌, subst, some, arith, ok, err, ltb, if◌then◌else◌,
  u64_limit,
}
use conduit_contracts.Oracle.Feed.{OracleConfig, Env, Call, arithmetic_overflow, max_decimals}
use conduit_contracts.Oracle.Payout.{power_of_ten, u128_limit, calculate_fiat_stream_payout}

power_of_ten_pos : (d : ℕ) → 0 < power_of_ten d
unfolding power_of_ten
power_of_ten_pos zero = omega arith
power_of_ten_pos (suc d) = omega (arith, power_of_ten_pos d)

power_of_ten_mono : (d k : ℕ) → power_of_ten d ≤ power_of_ten (d + k)
unfolding power_of_ten
power_of_ten_mono zero k = power_of_ten_pos (0 + k)
power_of_ten_mono (suc d) k =
    let e : suc d + k ≡ suc (d + k) = omega arith in rw e (omega (arith, power_of_ten_mono d k))

largest_power : power_of_ten max_decimals < u128_limit
unfolding power_of_ten
largest_power = omega arith

power_of_ten-lt-u128_limit : (d : ℕ) → d ≤ max_decimals → power_of_ten d < u128_limit
power_of_ten-lt-u128_limit d h =
    let e : d + (max_decimals - d) ≡ max_decimals = omega arith in
    let m : power_of_ten d ≤ power_of_ten max_decimals =
      subst (λ k. power_of_ten d ≤ power_of_ten k) e (power_of_ten_mono d (max_decimals - d)) in
    omega (arith, largest_power)

product_mono : (a b x y : ℕ) → a ≤ x → b ≤ y → a * b ≤ x * y
product_mono a b x y p q = grind arith

product_fits : (a b : ℕ) → a < u64_limit → b < u64_limit → a * b < u128_limit
product_fits a b p q =
    omega (arith, product_mono a b (u64_limit - 1) (u64_limit - 1) (omega arith) (omega arith))

-- With a configuration that `configure_oracle` accepts, a token amount and a price that fit a `u64`,
-- the payout is the product over the power of ten, rounded down, if that fits a `u64`, and an
-- arithmetic overflow if not. It is never cut off, and no other error comes up.
pub payout_exact :
    (get_twap_price : Call ℕ) (token_amount price : ℕ) (e : Env) (config : OracleConfig)
    → get_twap_price e ≡ ok (price, e)
    → e.store.config ≡ some config
    → config.decimals ≤ max_decimals
    → token_amount < u64_limit
    → price < u64_limit
    → calculate_fiat_stream_payout get_twap_price token_amount e ≡ (
        let value = token_amount * price / power_of_ten config.decimals in
        if ltb value u64_limit then ok (value, e) else err arithmetic_overflow)
unfolding calculate_fiat_stream_payout
payout_exact get_twap_price token_amount price e config g c d t p = ground (
  arith,
  power_of_ten-lt-u128_limit config.decimals d,
  power_of_ten_pos config.decimals,
  product_fits token_amount price t p,
  mod-eq_of_lt {n = token_amount * price / power_of_ten config.decimals} {m = u64_limit},
)
