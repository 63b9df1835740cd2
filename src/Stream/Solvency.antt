-- ===== src/Stream/Solvency.antt =====
-- A bounded stream of contracts/stream/src/lib.rs that cannot be clawed back holds, until it is
-- cancelled, all that it can still have to pay.
use Prim.Native.Nat.{bit_or}
use conduit_contracts.Base.{
  ℕ, ◌+◌, ◌-◌, ◌*◌, ◌<◌, ◌≡◌, ◌≢◌, ◌⊎◌, inl, inr, refl, ap, ◌∙◌, true, false, some, arith, int_laws,
  ℤ, pos, pos_part, ◌+ℤ◌, ◌≤ℤ◌, ok,
}
use conduit_contracts.Host.{Host, Address}
use conduit_contracts.Stream.Storage.{StreamInfo, is_cancelled, is_clawback_enabled, flag_cancelled}
use conduit_contracts.Stream.State.{Env}
use conduit_contracts.Stream.Payments.{withdraw}
use conduit_contracts.Stream.Settlement.{clawback, settle}
use conduit_contracts.Stream.Flags.{
  set_paused_clawback, clear_paused_clawback, set_cancelled_paused,
}
use conduit_contracts.Stream.Pausing.{pause-Updated, resume-Updated, paused_info, resumed_info}
use conduit_contracts.Stream.Withdrawal.{withdraw_pays}
use conduit_contracts.Stream.Funding.{top_up_funds, extend_duration_funds, extended}
use conduit_contracts.Stream.Cancellation.{bumped, cancel-settle, force_cancel-settle}
use conduit_contracts.Stream.Clawback.{clawback-Clawed}
use conduit_contracts.Stream.Handover.{transfer_recipient-ok}
use conduit_contracts.Stream.Creation.{initialize_again}
use conduit_contracts.Stream.Shares.{settle-Settled}
use conduit_contracts.Stream.Invariant.{IsValid, contract_value}
use conduit_contracts.Stream.Run.{Op, apply}
use conduit_contracts.Stream.Preservation.{discarded}
use conduit_contracts.Stream.Authority.{apply_authorized}
use conduit_contracts.Stream.Address.{apply-self}

-- What is still to be paid out never grows by a resumption.
resumed_value :
    (now : ℕ) (info : StreamInfo)
    → 0 < info.end_time
    → contract_value (resumed_info now info) ≡ contract_value info
resumed_value now info b = ap (λ k. pos_part info.rate_per_second * k) (ground arith)

extended_value :
    (extra : ℕ) (info : StreamInfo)
    → info.start_time < info.end_time
    → contract_value (extended extra info)
      ≡ contract_value info + extra * pos_part info.rate_per_second
extended_value extra info b =
    let e : info.end_time + extra - info.start_time ≡ info.end_time - info.start_time + extra =
      omega arith in
    rw e (grind arith)

module _ {L : Type 0} ⦃host : Host L⦄ where
  abbrev pub held : Env L → StreamInfo → ℤ
  held e info = host.balance e.ledger info.token e.self

  pub record Covers (e : Env L) (info : StreamInfo) : Type 0 where
    pub is_bounded : 0 < info.end_time
    pub unclawable : is_clawback_enabled info ≡ false
    pub covered : pos (contract_value info) ≤ℤ info.withdrawn +ℤ held e info

  -- What a call leaves: a cancelled stream, or one that is covered.
  abbrev pub CancelledOrCovered : Env L → Type 0
  CancelledOrCovered e' =
      (after : StreamInfo) × (e'.store.config ≡ some after)
      × ((is_cancelled after ≡ true) ⊎ Covers e' after)

  settle-CancelledOrCovered :
      (e e' : Env L) (info : StreamInfo)
      → e.store.config ≡ some info
      → IsValid e.now info
      → settle info e ≡ ok (tt, e')
      → CancelledOrCovered e'
  unfolding is_cancelled
  settle-CancelledOrCovered e e' info c v h =
      let (_, _, _, _, s) = settle-Settled e e' info c h in
      (
        record info { flags = bit_or info.flags flag_cancelled },
        s.stored,
        inl ((set_cancelled_paused info.flags v.flag_word).now_set),
      )

  -- A change of the stored stream after which the contract still holds enough.
  changed-Covers :
      (e e' : Env L) (info after : StreamInfo)
      → Covers e info
      → e'.self ≡ e.self
      → 0 < after.end_time
      → is_clawback_enabled after ≡ is_clawback_enabled info
      → after.token ≡ info.token
      → pos (contract_value after) ≤ℤ after.withdrawn +ℤ host.balance e'.ledger info.token e.self
      → Covers e' after
  changed-Covers e e' info after k s b f t v = record {
    is_bounded = b;
    unclawable = f ∙ k.unclawable;
    covered = rw (s, t) v;
  }

  -- Who signs a call is not the contract.
  signer_apart : (e : Env L) (a : Address) → e.auth e.self ≡ false → e.auth a ≡ true → e.self ≢ a
  signer_apart e a quiet signed q = cc (quiet, signed, q)

  -- A change that keeps the balances, what was withdrawn and the worth of the stream.
  kept-covered :
      (e e' : Env L) (info after : StreamInfo)
      → Covers e info
      → e'.ledger ≡ e.ledger
      → after.withdrawn ≡ info.withdrawn
      → contract_value after ≡ contract_value info
      → pos (contract_value after) ≤ℤ after.withdrawn +ℤ host.balance e'.ledger info.token e.self
  kept-covered e e' info after k l w v = rw (l, w, v) (k.covered)

  pub apply-Covers :
      (op : Op) (e e' : Env L) (info : StreamInfo)
      → e.store.config ≡ some info
      → IsValid e.now info
      → Covers e info
      → e.auth e.self ≡ false
      → apply op e ≡ ok (tt, e')
      → CancelledOrCovered e'
  unfolding apply is_clawback_enabled
  apply-Covers (Op.initialize a b t r s n k) e e' info c v f quiet h =
      cc (initialize_again e a b t r s n k c)
  apply-Covers (Op.withdraw amount) e e' info c v f quiet h =
      let (sent, k) = discarded (withdraw amount) e e' h in
      let (_, _, _, _, _, _, stored, moves) =
        withdraw_pays e e' info amount sent c
          (signer_apart e info.recipient quiet
            (apply_authorized (Op.withdraw amount) e e' info c h).1)
          k in
      let s = apply-self (Op.withdraw amount) e e' info c h in
      (
        record info { withdrawn = info.withdrawn +ℤ sent },
        stored,
        inr (
            changed-Covers e e' info _ f s f.is_bounded refl refl
              (rw moves.debit (omega (int_laws, f.covered)))),
      )
  apply-Covers Op.cancel e e' info c v f quiet h =
      settle-CancelledOrCovered (bumped e) e' info c v (cancel-settle e e' info c h).2
  apply-Covers Op.force_cancel e e' info c v f quiet h =
      settle-CancelledOrCovered (bumped e) e' info c v (force_cancel-settle e e' info c h).4
  apply-Covers Op.pause e e' info c v f quiet h =
      let (_, up) = pause-Updated e e' info c h in
      let s = apply-self Op.pause e e' info c h in
      (
        paused_info e.now info,
        up.stored,
        inr (
            changed-Covers e e' info _ f s f.is_bounded
              (set_paused_clawback info.flags v.flag_word).kept refl
              (kept-covered e e' info (paused_info e.now info) f up.same_ledger refl refl)),
      )
  apply-Covers Op.resume e e' info c v f quiet h =
      let (_, _, up) = resume-Updated e e' info c h in
      let s = apply-self Op.resume e e' info c h in
      (
        resumed_info e.now info,
        up.stored,
        inr (
            changed-Covers e e' info _ f s (ground arith)
              (clear_paused_clawback info.flags v.flag_word).kept refl
              (kept-covered e e' info (resumed_info e.now info) f up.same_ledger refl
                (resumed_value e.now info f.is_bounded))),
      )
  apply-Covers Op.clawback e e' info c v f quiet h =
      let (amount, k) = discarded clawback e e' h in
      let (_, claw) = clawback-Clawed e e' info amount c k in cc (claw.enabled, f.unclawable)
  apply-Covers (Op.top_up amount) e e' info c v f quiet h =
      let (positive, _, _, stored, moves) =
        top_up_funds e e' info amount c
          (signer_apart e info.sender quiet (apply_authorized (Op.top_up amount) e e' info c h).1)
          h in
      let s = apply-self (Op.top_up amount) e e' info c h in
      (
        info,
        stored,
        inr (
            changed-Covers e e' info info f s f.is_bounded refl refl
              (rw moves.credit (omega (int_laws, f.covered)))),
      )
  apply-Covers (Op.extend_duration extra) e e' info c v f quiet h =
      let (_, _, _, _, stored, moves) =
        extend_duration_funds e e' info extra c
          (signer_apart e info.sender quiet
            (apply_authorized (Op.extend_duration extra) e e' info c h).1)
          (omega (arith, v.rate_positive)) h in
      let s = apply-self (Op.extend_duration extra) e e' info c h in
      (
        extended extra info,
        stored,
        inr (
            changed-Covers e e' info _ f s (omega (arith, f.is_bounded)) refl refl (
              rw (moves.credit, extended_value extra info (ground (arith, v.bounded)))
                (omega (int_laws, f.covered)))),
      )
  apply-Covers (Op.transfer_recipient to) e e' info c v f quiet h =
      let (_, _, stored, same_ledger) = transfer_recipient-ok e e' info to c h in
      let s = apply-self (Op.transfer_recipient to) e e' info c h in
      (
        record info { recipient = to },
        stored,
        inr (
            changed-Covers e e' info _ f s f.is_bounded refl refl
              (kept-covered e e' info (record info { recipient = to }) f same_ledger refl refl)),
      )
