-- ===== src/Oracle/Payout.antt =====
-- src/oracle.rs: `calculate_fiat_stream_payout`.
use conduit_contracts.Base.{
  ℕ, zero, suc, ◌*◌, ◌/◌, ◌^◌, ◌-◌, ◌==◌, ltb, ◌%◌, Option, some, none, if◌then◌else◌, fail_if,
  ok_or, pure, ◌>>=◌, ◌>>◌, u64_limit,
}
use conduit_contracts.Oracle.Feed.{
  Call, oracle_not_configured, arithmetic_overflow, calculation_overflow, invalid_decimals,
}

abbrev pub u128_limit : ℕ
u128_limit = 2 ^ 128

abbrev pub in_u128 : ℕ → Option ℕ
in_u128 n = if ltb n u128_limit then some n else none

-- `10u128.checked_pow(decimals)`.
unfoldable pub power_of_ten : ℕ → ℕ
power_of_ten zero = 1
power_of_ten (suc decimals) = 10 * power_of_ten decimals

abbrev pub checked_pow_10 : ℕ → Option ℕ
checked_pow_10 decimals = in_u128 (power_of_ten decimals)

-- The price is what `get_twap_price` gives. The value is computed and tested, and then computed
-- again and cut to a `u64`.
unfoldable pub calculate_fiat_stream_payout : Call ℕ → ℕ → Call ℕ
calculate_fiat_stream_payout get_twap_price token_amount = do
  current_price ← get_twap_price
  config ← (λ e. ok_or e.store.config oracle_not_configured e)
  precision ← ok_or (checked_pow_10 config.decimals) invalid_decimals
  product ← ok_or (in_u128 (token_amount * current_price)) arithmetic_overflow
  fail_if (ltb (u64_limit - 1) (product / precision)) arithmetic_overflow
  precision' ← ok_or (checked_pow_10 config.decimals) calculation_overflow
  token_val ← ok_or (in_u128 (token_amount * current_price)) calculation_overflow
  value ←
      ok_or (if precision' == 0 then none else some (token_val / precision')) calculation_overflow
  pure (value % u64_limit)
