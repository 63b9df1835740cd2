-- ===== src/Stream/Branches.antt =====
-- `withdraw`, `pause` and `resume` of contracts/stream/src/lib.rs on every branch.
use conduit_contracts.Base.{
  ◌+◌, ◌≤◌, ◌<◌, ◌≡◌, true, false, some, none, arith, ℤ, pos, ◌+ℤ◌, ◌≤ℤ◌, min_ℤ, ok, err, panic,
  trap, unauthorized, token_failed, u64_limit, checked_add, checked_sub, checked_add_u64,
}
use conduit_contracts.Host.{Host}
use conduit_contracts.Stream.Storage.{
  StreamInfo, Error, is_cancelled, invalid_amount, stream_cancelled, nothing_to_withdraw,
  arithmetic_overflow,
}
use conduit_contracts.Stream.State.{Env}
use conduit_contracts.Stream.Math.{withdrawable_amount}
use conduit_contracts.Stream.Accrual.{withdrawable_amount-ok}
use conduit_contracts.Stream.Payments.{withdraw}
use conduit_contracts.Stream.Invariant.{IsValid}
use conduit_contracts.Stream.EventLog.{counter}
use conduit_contracts.Stream.Claim.{withdraw_succeeds, streamed_amount-fits, sums_fit}

module _ {L : Type 0} ⦃host : Host L⦄ where
  -- The sums of a withdrawal fit, so it comes as far as the transfer.
  withdraw_at_transfer :
      (e : Env L) (info : StreamInfo) (amount available : ℤ)
      → e.store.config ≡ some info
      → IsValid e.now info
      → is_cancelled info ≡ false
      → pos 1 ≤ℤ amount
      → e.auth info.recipient ≡ true
      → withdrawable_amount e.now info ≡ ok available
      → pos 1 ≤ℤ available
      → (host.transfer e.ledger info.token e.self info.recipient (min_ℤ amount available) ≡ none
          → withdraw amount e ≡ trap token_failed)
        × ((ledger : L)
            → host.transfer e.ledger info.token e.self info.recipient (min_ℤ amount available)
              ≡ some ledger
            → u64_limit ≤ counter e + 1
            → withdraw amount e ≡ panic arithmetic_overflow)
  unfolding withdraw checked_add checked_sub checked_add_u64
  withdraw_at_transfer e info amount available c v x asked auth due positive =
      let (streamed, streamed_is, _, within) = withdrawable_amount-ok e.now info due in
      let (held_nonneg, held_fits) = host.balance_range e.ledger info.token e.self in
      let (total_fits, rest_fits) =
        sums_fit info.withdrawn amount available streamed (host.balance e.ledger info.token e.self)
          v.withdrawn_nonneg asked positive within
          (streamed_amount-fits e.now info streamed streamed_is) held_nonneg held_fits in
      (λ refused. ground arith, λ ledger accepted late. ground arith)

  -- A withdrawal that went through.
  abbrev pub Sent : Env L → StreamInfo → ℤ → ℤ → L → Type 0
  Sent e info amount available ledger =
      (e' : Env L) × (withdraw amount e ≡ ok (min_ℤ amount available, e'))
      × (e'.ledger ≡ ledger)
      × (e'.store.config
          ≡ some (record info { withdrawn = info.withdrawn +ℤ min_ℤ amount available }))

  -- `withdraw` on every branch, on a valid stream. An amount that is not positive is refused with
  -- `InvalidAmount`, a cancelled stream with `StreamCancelled`, anybody but the recipient by the
  -- host; an amount that cannot be computed gives that error, and nothing available
  -- `NothingToWithdraw`. With something available the call traps if the token contract refuses the
  -- transfer, panics with `ArithmeticOverflow` if the event counter is at its end, and else sends
  -- the lesser of what is asked and what is available, and counts it.
  pub withdraw_branches :
      (e : Env L) (info : StreamInfo) (amount : ℤ)
      → e.store.config ≡ some info
      → IsValid e.now info
      → (amount ≤ℤ pos 0 → withdraw amount e ≡ err invalid_amount)
        × (pos 1 ≤ℤ amount
            → (is_cancelled info ≡ true → withdraw amount e ≡ err stream_cancelled)
              × (is_cancelled info ≡ false
                  → (e.auth info.recipient ≡ false → withdraw amount e ≡ trap unauthorized)
                    × (e.auth info.recipient ≡ true
                        → ((x : Error)
                            → withdrawable_amount e.now info ≡ err x
                            → withdraw amount e ≡ err x)
                          × (withdrawable_amount e.now info ≡ ok (pos 0)
                              → withdraw amount e ≡ err nothing_to_withdraw)
                          × ((available : ℤ)
                              → withdrawable_amount e.now info ≡ ok available
                              → pos 1 ≤ℤ available
                              → let transferred =
                                  host.transfer e.ledger info.token e.self info.recipient
                                    (min_ℤ amount available) in
                                (transferred ≡ none → withdraw amount e ≡ trap token_failed)
                                × ((ledger : L)
                                    → transferred ≡ some ledger
                                    → (u64_limit ≤ counter e + 1
                                        → withdraw amount e ≡ panic arithmetic_overflow)
                                      × (counter e + 1 < u64_limit
                                          → Sent e info amount available ledger))))))
  unfolding withdraw
  withdraw_branches e info amount c v = (
    λ refused. ground arith,
    λ asked. (
      λ gone. ground arith,
      λ x. (
        λ stranger. ground arith,
        λ auth. (
          λ error failed. ground arith,
          λ none_left. ground arith,
          λ available due positive.
              let (refuses, late) =
                withdraw_at_transfer e info amount available c v x asked auth due positive in
              (
                refuses,
                λ ledger accepted. (
                  late ledger accepted,
                  λ counts.
                      (withdraw_succeeds e info amount available ledger c v x due positive asked
                        auth accepted counts).1,
                ),
              ),
        ),
      ),
    ),
  )
