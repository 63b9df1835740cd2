-- ===== src/Stream/Withdrawal.antt =====
-- `withdraw` of contracts/stream/src/lib.rs: what a successful call pays, and to whom.
use conduit_contracts.Base.{
  ◌≡◌, ◌≢◌, true, false, some, arith, ℤ, pos, ◌+ℤ◌, ◌≤ℤ◌, min_ℤ, checked_add, ok, min_ℤ_bounds,
  +ℤ_parts, eq_of_parts,
}
use conduit_contracts.Host.{Host}
use conduit_contracts.Stream.Storage.{StreamInfo, is_cancelled}
use conduit_contracts.Stream.State.{Env}
use conduit_contracts.Stream.Math.{streamed_amount, withdrawable_amount}
use conduit_contracts.Stream.Payments.{withdraw}
use conduit_contracts.Stream.Views.{or_zero}
use conduit_contracts.Stream.Balances.{Moves, transfer-Moves}
use conduit_contracts.Stream.Accrual.{withdrawable_amount-ok}

module _ {L : Type 0} ⦃host : Host L⦄ where
  pub record Withdrawal (e e' : Env L) (info : StreamInfo) (amount available sent : ℤ)
      : Type 0 where
    pub uncancelled : is_cancelled info ≡ false
    pub by_recipient : e.auth info.recipient ≡ true
    pub due : withdrawable_amount e.now info ≡ ok available
    pub nonzero : available ≢ pos 0
    pub sent_is : sent ≡ min_ℤ amount available
    pub asked : pos 1 ≤ℤ amount
    pub stored : e'.store.config ≡ some (record info { withdrawn = info.withdrawn +ℤ sent })
    pub paid : host.transfer e.ledger info.token e.self info.recipient sent ≡ some e'.ledger

  pub withdraw-Withdrawal :
      (e e' : Env L) (info : StreamInfo) (amount sent : ℤ)
      → e.store.config ≡ some info
      → withdraw amount e ≡ ok (sent, e')
      → (available : ℤ) × Withdrawal e e' info amount available sent
  unfolding withdraw checked_add
  withdraw-Withdrawal e e' info amount sent c h =
      (or_zero (withdrawable_amount e.now info), ground arith)

  -- What is sent is positive, within what was asked, and within what has streamed.
  pub withdraw-within :
      (e e' : Env L) (info : StreamInfo) (amount sent : ℤ) {available : ℤ}
      → Withdrawal e e' info amount available sent
      → (streamed : ℤ) × (streamed_amount e.now info ≡ ok streamed)
        × (info.withdrawn +ℤ sent ≤ℤ streamed)
        × (pos 1 ≤ℤ sent)
        × (sent ≤ℤ amount)
  withdraw-within e e' info amount sent {available} w =
      let (streamed, streamed_is, nonneg, within) = withdrawable_amount-ok e.now info w.due in
      let positive : pos 1 ≤ℤ available =
        ground (arith, eq_of_parts available (pos 0), w.nonzero) in
      let bounds = min_ℤ_bounds amount available in
      let sent_is = w.sent_is in
      let asked = w.asked in
      (
        streamed,
        streamed_is,
        ground (arith, +ℤ_parts info.withdrawn sent, +ℤ_parts info.withdrawn available),
        ground arith,
        ground arith,
      )

  -- A successful withdrawal, whose recipient is not the contract itself, was authorized by the
  -- recipient, pays a positive amount of at most what was asked, and never takes the total
  -- withdrawn above what has streamed. The recipient gains what the contract loses, no other
  -- balance changes, and the counter grows by the same.
  pub withdraw_pays :
      (e e' : Env L) (info : StreamInfo) (amount sent : ℤ)
      → e.store.config ≡ some info
      → e.self ≢ info.recipient
      → withdraw amount e ≡ ok (sent, e')
      → (streamed : ℤ) × (streamed_amount e.now info ≡ ok streamed)
        × (info.withdrawn +ℤ sent ≤ℤ streamed)
        × (pos 1 ≤ℤ sent)
        × (sent ≤ℤ amount)
        × (e.auth info.recipient ≡ true)
        × (e'.store.config ≡ some (record info { withdrawn = info.withdrawn +ℤ sent }))
        × Moves e.ledger e'.ledger info.token e.self info.recipient sent
  withdraw_pays e e' info amount sent c ne h =
      let (available, w) = withdraw-Withdrawal e e' info amount sent c h in
      let (streamed, streamed_is, within, positive, asked) =
        withdraw-within e e' info amount sent w in
      (
        streamed,
        streamed_is,
        within,
        positive,
        asked,
        w.by_recipient,
        w.stored,
        transfer-Moves e.ledger e'.ledger info.token e.self info.recipient sent ne w.paid,
      )
