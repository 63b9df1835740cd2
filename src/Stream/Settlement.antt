-- ===== src/Stream/Settlement.antt =====
-- contracts/stream/src/lib.rs: `cancel`, `force_cancel` and `clawback`.
use Prim.Native.Nat.{bit_or}
use conduit_contracts.Base.{
  ℕ, ◌-◌, ltb, ltb_ℤ, not, if◌then◌else◌, ℤ, pos, max_ℤ, min_ℤ, fail_if, gets, lift, pure, ◌>>=◌,
  ◌>>◌,
}
use conduit_contracts.Host.{Address, Host}
use conduit_contracts.Stream.Storage.{
  StreamInfo, Event, not_paused, clawback_disabled, pause_threshold_not_met, flag_cancelled,
  is_paused, is_clawback_enabled,
}
use conduit_contracts.Stream.State.{
  Call, load, save, set_cancelled, assert_not_cancelled, require_auth, minus, bump, own_balance,
  transfer,
}
use conduit_contracts.Stream.Math.{streamed_amount}
use conduit_contracts.Stream.Events.{publish}

-- `force_cancel` opens after 30 days of pause.
abbrev pub pause_threshold_secs : ℕ
pause_threshold_secs = 2_592_000

module _ {L : Type 0} ⦃host : Host L⦄ where
  -- `if amount > 0 { tk.transfer(..) }`, out of the contract.
  unfoldable pub pay_out : Address → Address → ℤ → Call L (Unit {0})
  pay_out token to amount = do
    self ← gets (λ e. e.self)
    if ltb_ℤ (pos 0) amount then transfer token self to amount else pure tt

  -- What `cancel` and `force_cancel` do after their guards: the shares are computed, the stream is
  -- marked, then the recipient and the sender are paid.
  unfoldable pub settle : StreamInfo → Call L (Unit {0})
  unfolding save set_cancelled pay_out publish
  settle info = do
    balance ← own_balance info.token
    streamed ← (λ e. lift (streamed_amount e.now info) e)
    earned ← minus streamed info.withdrawn
    let owed_to_recipient = min_ℤ (max_ℤ earned (pos 0)) balance
    rest ← minus balance owed_to_recipient
    let refund_to_sender = max_ℤ rest (pos 0)
    set_cancelled
    save (record info { flags = bit_or info.flags flag_cancelled })
    pay_out info.token info.recipient owed_to_recipient
    pay_out info.token info.sender refund_to_sender
    publish (λ n. Event.cancelled info.sender n refund_to_sender info.withdrawn)

  unfoldable pub cancel : Call L (Unit {0})
  unfolding load assert_not_cancelled bump
  cancel = do bump; info ← load; assert_not_cancelled info; require_auth info.sender; settle info

  unfoldable pub force_cancel : Call L (Unit {0})
  unfolding load assert_not_cancelled bump is_paused
  force_cancel = do
    bump
    info ← load
    assert_not_cancelled info
    fail_if (not (is_paused info)) not_paused
    now ← gets (λ e. e.now)
    fail_if (ltb (now - info.paused_at) pause_threshold_secs) pause_threshold_not_met
    require_auth info.recipient
    settle info

  unfoldable pub clawback : Call L ℤ
  unfolding load assert_not_cancelled bump pay_out publish is_clawback_enabled
  clawback = do
    bump
    info ← load
    assert_not_cancelled info
    fail_if (not (is_clawback_enabled info)) clawback_disabled
    require_auth info.sender
    streamed ← (λ e. lift (streamed_amount e.now info) e)
    earned ← minus streamed info.withdrawn
    let owed = max_ℤ earned (pos 0)
    rest ← minus (← own_balance info.token) owed
    let amount = max_ℤ rest (pos 0)
    pay_out info.token info.sender amount
    publish (λ n. Event.clawback info.sender n amount)
    pure amount
