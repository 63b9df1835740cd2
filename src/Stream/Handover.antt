-- ===== src/Stream/Handover.antt =====
-- `transfer_recipient` of contracts/stream/src/lib.rs.
use conduit_contracts.Base.{◌≡◌, true, false, some, arith, ok}
use conduit_contracts.Host.{Host, Address}
use conduit_contracts.Stream.Storage.{StreamInfo, is_cancelled}
use conduit_contracts.Stream.State.{Env}
use conduit_contracts.Stream.Lifecycle.{transfer_recipient}

module _ {L : Type 0} ⦃host : Host L⦄ where
  pub transfer_recipient-ok :
      (e e' : Env L) (info : StreamInfo) (to : Address)
      → e.store.config ≡ some info
      → transfer_recipient to e ≡ ok (tt, e')
      → (is_cancelled info ≡ false)
        × (e.auth info.recipient ≡ true)
        × (e'.store.config ≡ some (record info { recipient = to }))
        × (e'.ledger ≡ e.ledger)
  unfolding transfer_recipient
  transfer_recipient-ok e e' info to c h = ground arith
