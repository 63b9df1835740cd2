-- ===== src/Stream/Terminal.antt =====
-- After cancellation: every call of contracts/stream/src/lib.rs that changes state is refused.
use conduit_contracts.Base.{
  ℕ, ◌<◌, ◌≡◌, Bool, true, some, arith, ℤ, pos, ◌≤ℤ◌, err, trap, unauthorized, if◌then◌else◌, panic,
}
use conduit_contracts.Host.{Host, Address}
use conduit_contracts.Stream.Storage.{
  StreamInfo, stream_cancelled, already_initialized, invalid_amount, invalid_time_range,
  is_cancelled,
}
use conduit_contracts.Stream.State.{Env}
use conduit_contracts.Stream.Setup.{initialize}
use conduit_contracts.Stream.Payments.{withdraw, top_up, extend_duration}
use conduit_contracts.Stream.Lifecycle.{pause, resume, transfer_recipient}
use conduit_contracts.Stream.Settlement.{cancel, force_cancel, clawback}

module _ {L : Type 0} ⦃host : Host L⦄ where
  -- On a cancelled stream every call that changes state fails, whoever makes it and whenever.
  -- `withdraw` and `top_up` of an amount that is not positive fail with `InvalidAmount`, and
  -- `extend_duration` by 0 seconds with `InvalidTimeRange`; otherwise `top_up` by anybody but the
  -- sender fails the authorization, and `initialize` panics with `AlreadyInitialized`. All the rest
  -- fails with `StreamCancelled`.
  pub cancelled_rejects :
      (e : Env L) (info : StreamInfo)
      → e.store.config ≡ some info
      → is_cancelled info ≡ true
      → ((amount : ℤ)
          → amount ≤ℤ pos 0
          → (withdraw amount e ≡ err invalid_amount) × (top_up amount e ≡ err invalid_amount))
        × (extend_duration 0 e ≡ err invalid_time_range)
        × ((amount : ℤ) → pos 1 ≤ℤ amount → withdraw amount e ≡ err stream_cancelled)
        × ((amount : ℤ)
            → pos 1 ≤ℤ amount
            → top_up amount e
              ≡ (if e.auth info.sender then err stream_cancelled else trap unauthorized))
        × ((extra : ℕ) → 0 < extra → extend_duration extra e ≡ err stream_cancelled)
        × (pause e ≡ err stream_cancelled)
        × (resume e ≡ err stream_cancelled)
        × ((to : Address) → transfer_recipient to e ≡ err stream_cancelled)
        × (cancel e ≡ err stream_cancelled)
        × (force_cancel e ≡ err stream_cancelled)
        × (clawback e ≡ err stream_cancelled)
        × ((sender recipient token : Address) (rate : ℤ) (start end : ℕ) (claw : Bool)
            → initialize sender recipient token rate start end claw e ≡ panic already_initialized)
  unfolding withdraw top_up extend_duration pause resume transfer_recipient cancel force_cancel
      clawback initialize
  cancelled_rejects e info c x = (
    λ amount p. (ground arith, ground arith),
    ground arith,
    λ amount p. ground arith,
    λ amount p. ground arith,
    λ extra p. ground arith,
    ground arith,
    ground arith,
    λ to. ground arith,
    ground arith,
    ground arith,
    ground arith,
    λ sender recipient token rate start end claw. ground arith,
  )
