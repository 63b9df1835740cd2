-- ===== src/Stream/Authority.antt =====
-- Who has to authorize each call of contracts/stream/src/lib.rs.
use conduit_contracts.Base.{◌≡◌, true, false, some, ok}
use conduit_contracts.Host.{Host, Address}
use conduit_contracts.Stream.Storage.{StreamInfo, is_cancelled}
use conduit_contracts.Stream.State.{Env}
use conduit_contracts.Stream.Run.{Op, apply}
use conduit_contracts.Stream.Preservation.{discarded}
use conduit_contracts.Stream.Creation.{initialize_again}
use conduit_contracts.Stream.Withdrawal.{withdraw-Withdrawal}
use conduit_contracts.Stream.Pausing.{pause-Updated, resume-Updated}
use conduit_contracts.Stream.Cancellation.{cancel-settle, force_cancel-settle}
use conduit_contracts.Stream.Clawback.{clawback-Clawed}
use conduit_contracts.Stream.Funding.{top_up-Deposited, extend_duration-Deposited}
use conduit_contracts.Stream.Handover.{transfer_recipient-ok}
use conduit_contracts.Stream.Payments.{withdraw}
use conduit_contracts.Stream.Settlement.{clawback}

-- The recipient withdraws, force-cancels and hands over; all else is the sender's.
abbrev pub responsible : Op → StreamInfo → Address
responsible (Op.withdraw amount) info = info.recipient
responsible Op.force_cancel info = info.recipient
responsible (Op.transfer_recipient to) info = info.recipient
responsible op info = info.sender

module _ {L : Type 0} ⦃host : Host L⦄ where
  -- A call on an initialized stream succeeds only if the stream is not cancelled and the party
  -- responsible for that call authorized it: the recipient for `withdraw`, `force_cancel` and
  -- `transfer_recipient`, the sender for every other.
  pub apply_authorized :
      (op : Op) (e e' : Env L) (info : StreamInfo)
      → e.store.config ≡ some info
      → apply op e ≡ ok (tt, e')
      → (is_cancelled info ≡ false) × (e.auth (responsible op info) ≡ true)
  unfolding apply
  apply_authorized (Op.initialize a b t r s n k) e e' info c h =
      cc (initialize_again e a b t r s n k c)
  apply_authorized (Op.withdraw amount) e e' info c h =
      let (sent, k) = discarded (withdraw amount) e e' h in
      let (_, w) = withdraw-Withdrawal e e' info amount sent c k in (w.uncancelled, w.by_recipient)
  apply_authorized Op.cancel e e' info c h = let (u, a, _) = cancel-settle e e' info c h in (u, a)
  apply_authorized Op.pause e e' info c h =
      let (_, up) = pause-Updated e e' info c h in (up.uncancelled, up.by_sender)
  apply_authorized Op.resume e e' info c h =
      let (_, _, up) = resume-Updated e e' info c h in (up.uncancelled, up.by_sender)
  apply_authorized Op.clawback e e' info c h =
      let (amount, k) = discarded clawback e e' h in
      let (_, claw) = clawback-Clawed e e' info amount c k in (claw.uncancelled, claw.by_sender)
  apply_authorized Op.force_cancel e e' info c h =
      let (u, _, _, a, _) = force_cancel-settle e e' info c h in (u, a)
  apply_authorized (Op.top_up amount) e e' info c h =
      let (_, d) = top_up-Deposited e e' info amount c h in (d.uncancelled, d.by_sender)
  apply_authorized (Op.extend_duration extra) e e' info c h =
      let (_, _, _, d) = extend_duration-Deposited e e' info extra c h in
      (d.uncancelled, d.by_sender)
  apply_authorized (Op.transfer_recipient to) e e' info c h =
      let (u, a, _, _) = transfer_recipient-ok e e' info to c h in (u, a)
