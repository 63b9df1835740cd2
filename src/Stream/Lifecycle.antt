-- ===== src/Stream/Lifecycle.antt =====
-- contracts/stream/src/lib.rs: `pause`, `resume` and `transfer_recipient`.
use Prim.Native.Nat.{bit_and, bit_or}
use conduit_contracts.Base.{
  ◌-◌, ltb, not, if◌then◌else◌, u32_limit, checked_sub_u64, checked_add_u64, overflow, or_trap,
  fail_if, gets, lift, pure, ◌>>=◌, ◌>>◌,
}
use conduit_contracts.Host.{Address, Host}
use conduit_contracts.Stream.Storage.{Event, already_paused, not_paused, flag_paused, is_paused}
use conduit_contracts.Stream.State.{Call, load, save, assert_not_cancelled, require_auth, bump}
use conduit_contracts.Stream.Math.{withdrawable_amount}
use conduit_contracts.Stream.Events.{publish}

module _ {L : Type 0} ⦃host : Host L⦄ where
  unfoldable pub pause : Call L (Unit {0})
  unfolding load save assert_not_cancelled bump publish is_paused
  pause = do
    bump
    info ← load
    assert_not_cancelled info
    fail_if (is_paused info) already_paused
    require_auth info.sender
    now ← gets (λ e. e.now)
    w ← lift (withdrawable_amount now info)
    save (record info { flags = bit_or info.flags flag_paused; paused_at = now })
    publish (λ n. Event.paused info.sender n now w)

  unfoldable pub resume : Call L (Unit {0})
  unfolding load save assert_not_cancelled bump publish is_paused
  resume = do
    bump
    info ← load
    assert_not_cancelled info
    fail_if (not (is_paused info)) not_paused
    require_auth info.sender
    now ← gets (λ e. e.now)
    paused_duration ← or_trap (checked_sub_u64 now info.paused_at) overflow
    new_start ← or_trap (checked_add_u64 info.start_time paused_duration) overflow
    new_end ←
        if ltb 0 info.end_time
        then or_trap (checked_add_u64 info.end_time paused_duration) overflow
        else pure info.end_time
    save (record info {
      start_time = new_start;
      end_time = new_end;
      paused_at = 0;
      flags = bit_and info.flags (u32_limit - 1 - flag_paused);
    })
    publish (λ n. Event.resumed info.sender n now)

  unfoldable pub transfer_recipient : Address → Call L (Unit {0})
  unfolding load save assert_not_cancelled bump publish
  transfer_recipient new_recipient = do
    bump
    info ← load
    assert_not_cancelled info
    require_auth info.recipient
    save (record info { recipient = new_recipient })
    publish (λ n. Event.recipient_transferred info.recipient n new_recipient)
