-- ===== src/Stream/Address.antt =====
-- No call of contracts/stream/src/lib.rs changes the contract's own address.
use conduit_contracts.Base.{◌≡◌, arith, ok, some}
use conduit_contracts.Host.{Host}
use conduit_contracts.Stream.Storage.{StreamInfo}
use conduit_contracts.Stream.State.{Env}
use conduit_contracts.Stream.Payments.{withdraw, top_up, extend_duration}
use conduit_contracts.Stream.Lifecycle.{pause, resume, transfer_recipient}
use conduit_contracts.Stream.Settlement.{settle, pay_out, cancel, force_cancel, clawback}
use conduit_contracts.Stream.Creation.{initialize_again}
use conduit_contracts.Stream.Cancellation.{bumped, cancel-settle, force_cancel-settle}
use conduit_contracts.Stream.Run.{Op, apply}

module _ {L : Type 0} ⦃host : Host L⦄ where
  settle-self :
      (e e' : Env L) (info : StreamInfo)
      → e.store.config ≡ some info
      → settle info e ≡ ok (tt, e')
      → e'.self ≡ e.self
  unfolding settle pay_out
  settle-self e e' info c h = ground arith

  pub apply-self :
      (op : Op) (e e' : Env L) (info : StreamInfo)
      → e.store.config ≡ some info
      → apply op e ≡ ok (tt, e')
      → e'.self ≡ e.self
  unfolding apply withdraw top_up extend_duration pause resume transfer_recipient cancel
      force_cancel clawback pay_out
  apply-self (Op.initialize a b t r s n k) e e' info c h = cc (initialize_again e a b t r s n k c)
  apply-self Op.cancel e e' info c h =
      settle-self (bumped e) e' info c (cancel-settle e e' info c h).2
  apply-self Op.force_cancel e e' info c h =
      settle-self (bumped e) e' info c (force_cancel-settle e e' info c h).4
  apply-self op e e' info c h = ground arith
