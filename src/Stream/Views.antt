-- ===== src/Stream/Views.antt =====
-- contracts/stream/src/lib.rs: the read-only calls.
use mathlib.Core.Option
use conduit_contracts.Base.{
  ℕ, if◌then◌else◌, ℤ, pos, Outcome, ok, err, panic, trap, gets, pure, ◌>>=◌,
}
use conduit_contracts.Stream.Storage.{StreamInfo, Error, is_cancelled}
use conduit_contracts.Stream.State.{Call, load}
use conduit_contracts.Stream.Math.{streamed_amount, withdrawable_amount}

-- `unwrap_or(0)` on a result.
abbrev pub or_zero : Outcome Error ℤ → ℤ
or_zero (ok z) = z
or_zero (err e) = pos 0
or_zero (panic e) = pos 0
or_zero (trap t) = pos 0

module _ {L : Type 0} where
  unfoldable pub withdrawable : Call L ℤ
  unfolding load is_cancelled
  withdrawable = do
    info ← load
    now ← gets (λ e. e.now)
    pure (if is_cancelled info then pos 0 else or_zero (withdrawable_amount now info))

  unfoldable pub streamed_total : Call L ℤ
  unfolding load is_cancelled
  streamed_total = do
    info ← load
    now ← gets (λ e. e.now)
    pure (if is_cancelled info then pos 0 else or_zero (streamed_amount now info))

  unfoldable pub info : Call L StreamInfo
  unfolding load
  info = load

  unfoldable pub event_sequence : Call L ℕ
  event_sequence = gets λ e. Option.get_or e.store.event_sequence 0
