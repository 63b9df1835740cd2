-- ===== src/Stream/Rebate.antt =====
-- contracts/stream/src/yield_integration.rs: the rebate on a principal, by checked integer
-- arithmetic. Its state is the list of the events so far, the latest first.
use conduit_contracts.Base.{
  ℕ, ◌+◌, ◌/◌, not, ◌&&◌, List, ◌∷◌, ℤ, pos, negsuc, pos_part, sub_ℕ, leb_ℤ, ltb_ℤ, checked_mul, ok,
  err, panic, trap, Action, fail_if, ok_or, modify, pure, ◌>>=◌, ◌>>◌,
}

abbrev pub rebate_bps_scale : ℤ
rebate_bps_scale = pos 10_000

abbrev pub seconds_per_year : ℤ
seconds_per_year = pos 31_557_600

abbrev pub max_rebate_rate_bps : ℤ
max_rebate_rate_bps = pos 1_000

abbrev pub min_rebate_threshold : ℤ
min_rebate_threshold = pos 100

pub data RebateError : Type 0 where
  arithmetic_overflow invalid_rate insufficient_principal : RebateError

pub data YieldEvent : Type 0 where
  deposit withdraw : ℤ → YieldEvent
  calculated : ℤ → ℤ → ℕ → ℤ → YieldEvent
  processed failed : YieldEvent

-- The division of the source, which rounds to zero, by a positive number.
abbrev pub quotient : ℤ → ℕ → ℤ
quotient (pos n) d = pos (n / d)
quotient (negsuc n) d = sub_ℕ 0 ((n + 1) / d)

abbrev pub publish : YieldEvent → Action (List YieldEvent) RebateError (Unit {0})
publish event = modify λ events. event ∷ events

unfoldable pub deposit_to_vault : ℤ → Action (List YieldEvent) RebateError (Unit {0})
deposit_to_vault amount = publish (deposit amount)

unfoldable pub withdraw_from_vault : ℤ → Action (List YieldEvent) RebateError (Unit {0})
withdraw_from_vault amount = publish (withdraw amount)

unfoldable pub calculate_rebate_with_params : ℤ → ℤ → ℕ → Action (List YieldEvent) RebateError ℤ
calculate_rebate_with_params principal apy_bps time_elapsed_seconds = do
  fail_if (not (leb_ℤ (pos 0) apy_bps && leb_ℤ apy_bps max_rebate_rate_bps)) invalid_rate
  fail_if (ltb_ℤ principal min_rebate_threshold) insufficient_principal
  principal_times_rate ← ok_or (checked_mul principal apy_bps) arithmetic_overflow
  numerator ←
      ok_or (checked_mul principal_times_rate (pos time_elapsed_seconds)) arithmetic_overflow
  scale ← ok_or (checked_mul rebate_bps_scale seconds_per_year) arithmetic_overflow
  let rebate = quotient numerator (pos_part scale)
  publish (calculated principal apy_bps time_elapsed_seconds rebate)
  pure rebate

-- 1,000,000 at 500 basis points for a day, and 0 where that fails.
unfoldable pub calculate_rebate : List YieldEvent → ℤ × List YieldEvent
calculate_rebate events =
    elim (calculate_rebate_with_params (pos 1_000_000) (pos 500) 86_400 events) [
      | ok (rebate, events') ↦ (rebate, processed ∷ events')
      | err e ↦ (pos 0, failed ∷ events)
      | panic e ↦ (pos 0, failed ∷ events)
      | trap t ↦ (pos 0, failed ∷ events)
    ]
