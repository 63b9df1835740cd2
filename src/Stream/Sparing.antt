-- ===== src/Stream/Sparing.antt =====
-- What a call of contracts/stream/src/lib.rs leaves alone: the tokens of every account that neither
-- is the contract nor signs the call.
use native.Mathlib.Decide.{ℕ_discrete}
use conduit_contracts.Base.{◌≡◌, ◌≢◌, inl, inr, sym, true, false, some, int_laws, ℤ, ◌≤ℤ◌, ok, ◌∙◌}
use conduit_contracts.Host.{Host, TokenLaws, Address}
use conduit_contracts.Stream.Storage.{StreamInfo}
use conduit_contracts.Stream.State.{Env}
use conduit_contracts.Stream.Payments.{withdraw}
use conduit_contracts.Stream.Settlement.{clawback, settle}
use conduit_contracts.Stream.Run.{Op, apply}
use conduit_contracts.Stream.Preservation.{discarded}
use conduit_contracts.Stream.Creation.{initialize_again}
use conduit_contracts.Stream.Withdrawal.{withdraw-Withdrawal}
use conduit_contracts.Stream.Pausing.{pause-Updated, resume-Updated}
use conduit_contracts.Stream.Balances.{sign_cases}
use conduit_contracts.Stream.Shares.{PaidOut, settle-Settled}
use conduit_contracts.Stream.Cancellation.{cancel-settle, force_cancel-settle, bumped}
use conduit_contracts.Stream.Clawback.{clawback-Clawed}
use conduit_contracts.Stream.Funding.{top_up-Deposited, extend_duration-Deposited}
use conduit_contracts.Stream.Handover.{transfer_recipient-ok}

module _ {L : Type 0} ⦃host : Host L⦄ where
  -- The account `a` loses nothing of any token.
  abbrev pub Spares : L → L → Address → Type 0
  Spares l l' a = (token : Address) → host.balance l token a ≤ℤ host.balance l' token a

  pub same-Spares : (l l' : L) (a : Address) → l' ≡ l → Spares l l' a
  same-Spares l l' a same token = rw same (omega int_laws)

  pub Spares-trans : (l m r : L) (a : Address) → Spares l m a → Spares m r a → Spares l r a
  Spares-trans l m r a p q token = omega (int_laws, p token, q token)

module _ {L : Type 0} ⦃host : Host L⦄ ⦃laws : TokenLaws L⦄ where
  pub transfer-Spares :
      (l l' : L) (token from to : Address) (amount : ℤ) (a : Address)
      → a ≢ from
      → host.transfer l token from to amount ≡ some l'
      → Spares l l' a
  transfer-Spares l l' token from to amount a ne h s = elim (ℕ_discrete s token) [
    | no other ↦ rw (laws.transfer_separate l token from to amount l' s a h other) (omega int_laws)
    | yes same ↦ elim (ℕ_discrete a to) [
      | no third ↦
          rw (same, host.transfer_frames l token from to amount l' a h ne third) (omega int_laws)
      | yes receives ↦
          rw
            (
              same,
              receives,
              host.transfer_credits l token from to amount l' h (λ q. ne (receives ∙ sym q)),
            )
            (omega (int_laws, laws.transfer_nonneg l token from to amount l' h))
    ]
  ]

  PaidOut-Spares :
      (l l' : L) (token from to : Address) (amount : ℤ) (a : Address)
      → a ≢ from
      → PaidOut l l' token from to amount
      → Spares l l' a
  PaidOut-Spares l l' token from to amount a ne p = elim (sign_cases amount) [
    | inl positive ↦ transfer-Spares l l' token from to amount a ne (p.when_positive positive)
    | inr zero ↦ same-Spares l l' a (p.when_not zero)
  ]

  settle-Spares :
      (e e' : Env L) (info : StreamInfo) (a : Address)
      → e.store.config ≡ some info
      → a ≢ e.self
      → settle info e ≡ ok (tt, e')
      → Spares e.ledger e'.ledger a
  settle-Spares e e' info a c ne h =
      let (_, owed, refund, mid, s) = settle-Settled e e' info c h in
      Spares-trans e.ledger mid e'.ledger a
        (PaidOut-Spares e.ledger mid info.token e.self info.recipient owed a ne s.paid_recipient)
        (PaidOut-Spares mid e'.ledger info.token e.self info.sender refund a ne s.paid_sender)

  unsigned : (e : Env L) (a b : Address) → e.auth a ≡ false → e.auth b ≡ true → a ≢ b
  unsigned e a b quiet signed q = cc (quiet, signed, q)

  -- A successful call takes nothing from an account that did not sign it, but for the contract.
  pub apply-Spares :
      (op : Op) (e e' : Env L) (info : StreamInfo) (a : Address)
      → e.store.config ≡ some info
      → a ≢ e.self
      → e.auth a ≡ false
      → apply op e ≡ ok (tt, e')
      → Spares e.ledger e'.ledger a
  unfolding apply
  apply-Spares (Op.initialize x b t r s n k) e e' info a c ne quiet h =
      cc (initialize_again e x b t r s n k c)
  apply-Spares (Op.withdraw amount) e e' info a c ne quiet h =
      let (sent, k) = discarded (withdraw amount) e e' h in
      let (_, w) = withdraw-Withdrawal e e' info amount sent c k in
      transfer-Spares e.ledger e'.ledger info.token e.self info.recipient sent a ne w.paid
  apply-Spares Op.cancel e e' info a c ne quiet h =
      settle-Spares (bumped e) e' info a c ne (cancel-settle e e' info c h).2
  apply-Spares Op.force_cancel e e' info a c ne quiet h =
      settle-Spares (bumped e) e' info a c ne (force_cancel-settle e e' info c h).4
  apply-Spares Op.pause e e' info a c ne quiet h =
      let (_, up) = pause-Updated e e' info c h in same-Spares e.ledger e'.ledger a up.same_ledger
  apply-Spares Op.resume e e' info a c ne quiet h =
      let (_, _, up) = resume-Updated e e' info c h in
      same-Spares e.ledger e'.ledger a up.same_ledger
  apply-Spares Op.clawback e e' info a c ne quiet h =
      let (amount, k) = discarded clawback e e' h in
      let (_, claw) = clawback-Clawed e e' info amount c k in
      PaidOut-Spares e.ledger e'.ledger info.token e.self info.sender amount a ne claw.paid
  apply-Spares (Op.top_up amount) e e' info a c ne quiet h =
      let (_, d) = top_up-Deposited e e' info amount c h in
      transfer-Spares e.ledger e'.ledger info.token info.sender e.self amount a
        (unsigned e a info.sender quiet d.by_sender) d.paid
  apply-Spares (Op.extend_duration extra) e e' info a c ne quiet h =
      let (_, _, _, d) = extend_duration-Deposited e e' info extra c h in
      transfer-Spares e.ledger e'.ledger info.token info.sender e.self _ a
        (unsigned e a info.sender quiet d.by_sender) d.paid
  apply-Spares (Op.transfer_recipient to) e e' info a c ne quiet h =
      same-Spares e.ledger e'.ledger a (transfer_recipient-ok e e' info to c h).3
