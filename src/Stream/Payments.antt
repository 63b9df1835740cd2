-- ===== src/Stream/Payments.antt =====
-- contracts/stream/src/lib.rs: `withdraw`, `top_up` and `extend_duration`.
use conduit_contracts.Base.{
  ℕ, ◌==◌, leb_ℤ, eqb_ℤ, ℤ, pos, min_ℤ, checked_add, checked_mul, checked_add_u64, fail_if, gets,
  ok_or, lift, pure, ◌>>=◌, ◌>>◌,
}
use conduit_contracts.Host.{Host}
use conduit_contracts.Stream.Storage.{
  Event, invalid_amount, nothing_to_withdraw, arithmetic_overflow, invalid_time_range,
}
use conduit_contracts.Stream.State.{
  Call, load, save, save_withdrawn, assert_not_cancelled, require_auth, minus, bump, own_balance,
  transfer,
}
use conduit_contracts.Stream.Math.{withdrawable_amount}
use conduit_contracts.Stream.Events.{publish}

module _ {L : Type 0} ⦃host : Host L⦄ where
  unfoldable pub withdraw : ℤ → Call L ℤ
  unfolding load save_withdrawn assert_not_cancelled bump publish
  withdraw amount = do
    fail_if (leb_ℤ amount (pos 0)) invalid_amount
    bump
    info ← load
    assert_not_cancelled info
    require_auth info.recipient
    available ← (λ e. lift (withdrawable_amount e.now info) e)
    fail_if (eqb_ℤ available (pos 0)) nothing_to_withdraw
    let to_send = min_ℤ amount available
    new_withdrawn ← ok_or (checked_add info.withdrawn to_send) arithmetic_overflow
    save_withdrawn new_withdrawn
    self ← gets (λ e. e.self)
    remaining ← minus (← own_balance info.token) to_send
    transfer info.token self info.recipient to_send
    publish (λ n. Event.withdrawn info.recipient n to_send new_withdrawn remaining)
    pure to_send

  unfoldable pub top_up : ℤ → Call L (Unit {0})
  unfolding load assert_not_cancelled bump publish
  top_up amount = do
    fail_if (leb_ℤ amount (pos 0)) invalid_amount
    info ← load
    require_auth info.sender
    bump
    assert_not_cancelled info
    self ← gets (λ e. e.self)
    transfer info.token info.sender self amount
    new_balance ← own_balance info.token
    publish (λ n. Event.topped_up info.sender n amount new_balance)

  unfoldable pub extend_duration : ℕ → Call L (Unit {0})
  unfolding load save assert_not_cancelled bump publish
  extend_duration extra_time_seconds = do
    fail_if (extra_time_seconds == 0) invalid_time_range
    bump
    info ← load
    assert_not_cancelled info
    require_auth info.sender
    fail_if (info.end_time == 0) invalid_time_range
    required_deposit ←
        ok_or (checked_mul (pos extra_time_seconds) info.rate_per_second) arithmetic_overflow
    self ← gets (λ e. e.self)
    transfer info.token info.sender self required_deposit
    end_time ← ok_or (checked_add_u64 info.end_time extra_time_seconds) arithmetic_overflow
    save (record info { end_time = end_time })
    new_balance ← own_balance info.token
    publish (λ n. Event.topped_up info.sender n required_deposit new_balance)
