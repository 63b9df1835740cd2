-- ===== src/Stream/Terms.antt =====
-- No call of contracts/stream/src/lib.rs on a stream that is not cancelled by it turns an open-ended
-- stream into a bounded one, or sets or clears the clawback flag.
use conduit_contracts.Base.{◌<◌, ◌≡◌, ◌⊎◌, inl, inr, refl, true, some, arith, ok}
use conduit_contracts.Host.{Host}
use conduit_contracts.Stream.Storage.{StreamInfo, is_cancelled, is_clawback_enabled}
use conduit_contracts.Stream.State.{Env}
use conduit_contracts.Stream.Payments.{withdraw}
use conduit_contracts.Stream.Settlement.{clawback, settle}
use conduit_contracts.Stream.Flags.{
  set_paused_clawback, clear_paused_clawback, set_cancelled_paused,
}
use conduit_contracts.Stream.Invariant.{IsValid}
use conduit_contracts.Stream.Run.{Op, apply}
use conduit_contracts.Stream.Preservation.{discarded}
use conduit_contracts.Stream.Creation.{initialize_again}
use conduit_contracts.Stream.Withdrawal.{withdraw-Withdrawal}
use conduit_contracts.Stream.Pausing.{pause-Updated, resume-Updated}
use conduit_contracts.Stream.Shares.{settle-Settled}
use conduit_contracts.Stream.Cancellation.{cancel-settle, force_cancel-settle, bumped}
use conduit_contracts.Stream.Clawback.{clawback-Clawed}
use conduit_contracts.Stream.Funding.{top_up-Deposited, extend_duration-Deposited}
use conduit_contracts.Stream.Handover.{transfer_recipient-ok}

-- `after` was cancelled, or is bounded only if `before` was and has the same clawback flag.
pub record KeepsKind (before after : StreamInfo) : Type 0 where
  pub same_flag : is_clawback_enabled after ≡ is_clawback_enabled before
  pub was_bounded : 0 < after.end_time → 0 < before.end_time

abbrev pub CancelledOrKept : StreamInfo → StreamInfo → Type 0
CancelledOrKept before after = (is_cancelled after ≡ true) ⊎ KeepsKind before after

module _ {L : Type 0} ⦃host : Host L⦄ where
  abbrev LeavesKind : Env L → StreamInfo → Type 0
  LeavesKind e' info =
      (after : StreamInfo) × (e'.store.config ≡ some after) × CancelledOrKept info after

  settle-LeavesKind :
      (e e' : Env L) (info : StreamInfo)
      → e.store.config ≡ some info
      → IsValid e.now info
      → settle info e ≡ ok (tt, e')
      → LeavesKind e' info
  unfolding is_cancelled
  settle-LeavesKind e e' info c v h =
      let (_, _, _, _, s) = settle-Settled e e' info c h in
      (_, s.stored, inl ((set_cancelled_paused info.flags v.flag_word).now_set))

  same-LeavesKind :
      (e' : Env L) (info after : StreamInfo)
      → e'.store.config ≡ some after
      → after.end_time ≡ info.end_time
      → after.flags ≡ info.flags
      → LeavesKind e' info
  unfolding is_clawback_enabled
  same-LeavesKind e' info after stored same flags = (
    after,
    stored,
    inr (record { same_flag = rw flags refl; was_bounded = λ h. omega (arith, h, same) }),
  )

  pub apply-LeavesKind :
      (op : Op) (e e' : Env L) (info : StreamInfo)
      → e.store.config ≡ some info
      → IsValid e.now info
      → apply op e ≡ ok (tt, e')
      → LeavesKind e' info
  unfolding apply is_clawback_enabled
  apply-LeavesKind (Op.initialize a b t r s n k) e e' info c v h =
      cc (initialize_again e a b t r s n k c)
  apply-LeavesKind (Op.withdraw amount) e e' info c v h =
      let (sent, k) = discarded (withdraw amount) e e' h in
      let (_, w) = withdraw-Withdrawal e e' info amount sent c k in
      same-LeavesKind e' info _ w.stored refl refl
  apply-LeavesKind Op.cancel e e' info c v h =
      settle-LeavesKind (bumped e) e' info c v (cancel-settle e e' info c h).2
  apply-LeavesKind Op.force_cancel e e' info c v h =
      settle-LeavesKind (bumped e) e' info c v (force_cancel-settle e e' info c h).4
  apply-LeavesKind Op.pause e e' info c v h =
      let (_, up) = pause-Updated e e' info c h in
      (
        _,
        up.stored,
        inr (record {
          same_flag = (set_paused_clawback info.flags v.flag_word).kept;
          was_bounded = λ b. b;
        }),
      )
  apply-LeavesKind Op.resume e e' info c v h =
      let (_, _, up) = resume-Updated e e' info c h in
      (
        _,
        up.stored,
        inr (record {
          same_flag = (clear_paused_clawback info.flags v.flag_word).kept;
          was_bounded = λ b. ground arith;
        }),
      )
  apply-LeavesKind Op.clawback e e' info c v h =
      let (amount, k) = discarded clawback e e' h in
      let (_, claw) = clawback-Clawed e e' info amount c k in
      same-LeavesKind e' info info claw.unchanged refl refl
  apply-LeavesKind (Op.top_up amount) e e' info c v h =
      let (_, d) = top_up-Deposited e e' info amount c h in
      same-LeavesKind e' info info d.stored refl refl
  apply-LeavesKind (Op.extend_duration extra) e e' info c v h =
      let (_, bounded, _, d) = extend_duration-Deposited e e' info extra c h in
      (_, d.stored, inr (record { same_flag = refl; was_bounded = λ b. bounded }))
  apply-LeavesKind (Op.transfer_recipient to) e e' info c v h =
      let (_, _, stored, _) = transfer_recipient-ok e e' info to c h in
      same-LeavesKind e' info _ stored refl refl
