-- ===== src/Stream/Clawback.antt =====
-- `clawback` of contracts/stream/src/lib.rs: the sender takes back what has not streamed.
use conduit_contracts.Base.{
  ◌≡◌, ◌≢◌, refl, true, false, some, arith, ℤ, pos, ◌-ℤ◌, ◌≤ℤ◌, max_ℤ, min_ℤ, ok, checked_sub,
  int_laws, ◌∙◌,
}
use conduit_contracts.Host.{Host}
use conduit_contracts.Stream.Storage.{StreamInfo, is_cancelled, is_clawback_enabled}
use conduit_contracts.Stream.State.{Env}
use conduit_contracts.Stream.Math.{streamed_amount}
use conduit_contracts.Stream.Settlement.{clawback, pay_out}
use conduit_contracts.Stream.Views.{or_zero}
use conduit_contracts.Stream.Shares.{PaidOut}
use conduit_contracts.Stream.Balances.{Moves, PaidOut-Moves}

-- What stays in the contract: what it owes, as far as it holds it.
kept :
    (earned balance owed amount : ℤ)
    → pos 0 ≤ℤ balance
    → owed ≡ max_ℤ earned (pos 0)
    → amount ≡ max_ℤ (balance -ℤ owed) (pos 0)
    → balance -ℤ amount ≡ min_ℤ owed balance
kept earned balance owed amount b o h = rw (h, o) (omega int_laws)

module _ {L : Type 0} ⦃host : Host L⦄ where
  pub record Clawed (e e' : Env L) (info : StreamInfo) (streamed amount : ℤ) : Type 0 where
    pub uncancelled : is_cancelled info ≡ false
    pub enabled : is_clawback_enabled info ≡ true
    pub by_sender : e.auth info.sender ≡ true
    pub streamed_is : streamed_amount e.now info ≡ ok streamed
    pub amount_is :
        amount
        ≡ max_ℤ
            (host.balance e.ledger info.token e.self -ℤ max_ℤ (streamed -ℤ info.withdrawn) (pos 0))
            (pos 0)
    pub unchanged : e'.store.config ≡ some info
    pub paid : PaidOut e.ledger e'.ledger info.token e.self info.sender amount

  pub clawback-Clawed :
      (e e' : Env L) (info : StreamInfo) (amount : ℤ)
      → e.store.config ≡ some info
      → clawback e ≡ ok (amount, e')
      → (streamed : ℤ) × Clawed e e' info streamed amount
  unfolding clawback pay_out checked_sub
  clawback-Clawed e e' info amount c h = (or_zero (streamed_amount e.now info), ground arith)

  -- A successful `clawback`, whose sender is not the contract itself, needs the flag and the
  -- sender. It pays the sender, leaves in the contract exactly what the recipient has earned and
  -- not withdrawn (or all that is there, if that is less), changes no other balance, and leaves
  -- the stream's state as it was.
  pub clawback_leaves_earned :
      (e e' : Env L) (info : StreamInfo) (amount : ℤ)
      → e.store.config ≡ some info
      → e.self ≢ info.sender
      → clawback e ≡ ok (amount, e')
      → (streamed : ℤ) × Clawed e e' info streamed amount
        × Moves e.ledger e'.ledger info.token e.self info.sender amount
        × (host.balance e'.ledger info.token e.self
            ≡ min_ℤ
                (max_ℤ (streamed -ℤ info.withdrawn) (pos 0))
                (host.balance e.ledger info.token e.self))
  clawback_leaves_earned e e' info amount c ne h =
      let (streamed, claw) = clawback-Clawed e e' info amount c h in
      let balance = host.balance e.ledger info.token e.self in
      let earned = streamed -ℤ info.withdrawn in
      let nonneg : pos 0 ≤ℤ amount = rw claw.amount_is (omega int_laws) in
      let moved =
        PaidOut-Moves e.ledger e'.ledger info.token e.self info.sender amount ne nonneg claw.paid in
      (
        streamed,
        claw,
        moved,
        moved.debit
            ∙ kept earned balance (max_ℤ earned (pos 0)) amount
                (host.balance_range e.ledger info.token e.self).0 refl claw.amount_is,
      )
