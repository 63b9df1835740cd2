-- ===== src/Stream/Preservation.antt =====
-- Every call of contracts/stream/src/lib.rs that succeeds keeps the stored state valid.
use Prim.Native.Nat.{bit_or}
use mathlib.Core.Option
use conduit_contracts.Base.{
  ℕ, ◌≡◌, ◌∙◌, refl, some, none, arith, int_laws, ℤ, pos, ◌+ℤ◌, ◌≤ℤ◌, ok, err, panic, trap, pure,
  ◌>>=◌, Option, Outcome,
}
use conduit_contracts.Host.{Host, Address}
use conduit_contracts.Stream.Storage.{StreamInfo, Error, flag_cancelled}
use conduit_contracts.Stream.State.{Env, Call}
use conduit_contracts.Stream.Creation.{initialize_again}
use conduit_contracts.Stream.Payments.{withdraw}
use conduit_contracts.Stream.Settlement.{clawback, settle}
use conduit_contracts.Stream.Run.{Op, apply}
use conduit_contracts.Stream.Invariant.{
  IsValid, withdrawn-IsValid, paused-IsValid, resumed-IsValid, extended-IsValid,
  handed_over-IsValid, cancelled-IsValid,
}
use conduit_contracts.Stream.Withdrawal.{withdraw-Withdrawal, withdraw-within}
use conduit_contracts.Stream.Pausing.{pause-Updated, resume-Updated, paused_info, resumed_info}
use conduit_contracts.Stream.Shares.{settle-Settled}
use conduit_contracts.Stream.Cancellation.{cancel-settle, force_cancel-settle, bumped}
use conduit_contracts.Stream.Clawback.{clawback-Clawed}
use conduit_contracts.Stream.Funding.{top_up-Deposited, extend_duration-Deposited, extended}
use conduit_contracts.Stream.Handover.{transfer_recipient-ok}

-- `after` is a valid continuation of `before`: the parties' terms stand, and what was withdrawn
-- does not shrink.
pub record Continues (now : ℕ) (before after : StreamInfo) : Type 0 where
  pub valid : IsValid now after
  pub same_sender : after.sender ≡ before.sender
  pub same_token : after.token ≡ before.token
  pub same_rate : after.rate_per_second ≡ before.rate_per_second
  pub withdrawn_grows : before.withdrawn ≤ℤ after.withdrawn

pub unchanged-Continues : (now : ℕ) (info : StreamInfo) → IsValid now info → Continues now info info
unchanged-Continues now info v = record {
  valid = v;
  same_sender = refl;
  same_token = refl;
  same_rate = refl;
  withdrawn_grows = omega arith;
}

pub Continues-trans :
    (now later : ℕ) (a b c : StreamInfo)
    → Continues now a b
    → Continues later b c
    → Continues later a c
Continues-trans now later a b c p q = record {
  valid = q.valid;
  same_sender = q.same_sender ∙ p.same_sender;
  same_token = q.same_token ∙ p.same_token;
  same_rate = q.same_rate ∙ p.same_rate;
  withdrawn_grows = omega (arith, p.withdrawn_grows, q.withdrawn_grows);
}

abbrev value : {S : Type 0} → Outcome Error (ℤ × S) → Option ℤ
value (ok (a, s)) = some a
value (err e) = none
value (panic e) = none
value (trap t) = none

-- A change of the times, the flags or the recipient.
continued :
    (now : ℕ) (info : StreamInfo) (recipient : Address) (start end paused flags : ℕ)
    → let after = record info {
      recipient = recipient;
      start_time = start;
      end_time = end;
      paused_at = paused;
      flags = flags;
    } in
      IsValid now after → Continues now info after
continued now info recipient start end paused flags v = record {
  valid = v;
  same_sender = refl;
  same_token = refl;
  same_rate = refl;
  withdrawn_grows = omega arith;
}

module _ {L : Type 0} ⦃host : Host L⦄ where
  pub discarded :
      (m : Call L ℤ) (e e' : Env L)
      → (m >>= λ _. pure tt) e ≡ ok (tt, e')
      → (a : ℤ) × (m e ≡ ok (a, e'))
  discarded m e e' h = (Option.get_or (value (m e)) (pos 0), ground arith)

  -- What is stored after a successful call.
  abbrev pub Stored : Env L → ℕ → StreamInfo → Type 0
  Stored e' now info =
      (after : StreamInfo) × (e'.store.config ≡ some after) × Continues now info after

  settle-Continues :
      (e e' : Env L) (info : StreamInfo)
      → e.store.config ≡ some info
      → IsValid e.now info
      → settle info e ≡ ok (tt, e')
      → Stored e' e.now info
  settle-Continues e e' info c v h =
      let (_, _, _, _, s) = settle-Settled e e' info c h in
      (
        record info { flags = bit_or info.flags flag_cancelled },
        s.stored,
        continued e.now info _ _ _ _ _ (cancelled-IsValid e.now info v),
      )

  pub apply-Continues :
      (op : Op) (e e' : Env L) (info : StreamInfo)
      → e.store.config ≡ some info
      → IsValid e.now info
      → apply op e ≡ ok (tt, e')
      → Stored e' e.now info
  unfolding apply
  apply-Continues (Op.initialize a b t r s n k) e e' info c v h =
      cc (initialize_again e a b t r s n k c)
  apply-Continues (Op.withdraw amount) e e' info c v h =
      let (sent, k) = discarded (withdraw amount) e e' h in
      let (available, w) = withdraw-Withdrawal e e' info amount sent c k in
      let (streamed, streamed_is, within, positive, _) = withdraw-within e e' info amount sent w in
      (
        record info { withdrawn = info.withdrawn +ℤ sent },
        w.stored,
        record {
          valid = withdrawn-IsValid e.now info sent streamed v (omega arith) within streamed_is;
          same_sender = refl;
          same_token = refl;
          same_rate = refl;
          withdrawn_grows = omega int_laws;
        },
      )
  apply-Continues Op.cancel e e' info c v h =
      let (_, _, settled) = cancel-settle e e' info c h in
      settle-Continues (bumped e) e' info c v settled
  apply-Continues Op.force_cancel e e' info c v h =
      let (_, _, _, _, settled) = force_cancel-settle e e' info c h in
      settle-Continues (bumped e) e' info c v settled
  apply-Continues Op.pause e e' info c v h =
      let (_, up) = pause-Updated e e' info c h in
      (
        paused_info e.now info,
        up.stored,
        continued e.now info _ _ _ _ _ (paused-IsValid e.now info v),
      )
  apply-Continues Op.resume e e' info c v h =
      let (_, _, up) = resume-Updated e e' info c h in
      (
        resumed_info e.now info,
        up.stored,
        continued e.now info _ _ _ _ _ (resumed-IsValid e.now info v),
      )
  apply-Continues Op.clawback e e' info c v h =
      let (amount, k) = discarded clawback e e' h in
      let (_, claw) = clawback-Clawed e e' info amount c k in
      (info, claw.unchanged, continued e.now info _ _ _ _ _ v)
  apply-Continues (Op.top_up amount) e e' info c v h =
      let (_, d) = top_up-Deposited e e' info amount c h in
      (info, d.stored, continued e.now info _ _ _ _ _ (v))
  apply-Continues (Op.extend_duration extra) e e' info c v h =
      let (_, b, _, d) = extend_duration-Deposited e e' info extra c h in
      (
        extended extra info,
        d.stored,
        continued e.now info _ _ _ _ _ (extended-IsValid e.now extra info b v),
      )
  apply-Continues (Op.transfer_recipient to) e e' info c v h =
      let (_, _, stored, _) = transfer_recipient-ok e e' info to c h in
      (
        record info { recipient = to },
        stored,
        continued e.now info _ _ _ _ _ (handed_over-IsValid e.now info to v),
      )
