-- ===== src/Stream/Claim.antt =====
-- `withdraw` of contracts/stream/src/lib.rs pays whenever the view `withdrawable` says so.
use conduit_contracts.Base.{
  ℕ, ◌+◌, ◌<◌, ◌≡◌, ◌⊎◌, true, false, some, arith, ℤ, pos, ◌+ℤ◌, ◌-ℤ◌, ◌≤ℤ◌, min_ℤ, min_ℤ_bounds,
  ok, committed, fits_i128, u64_limit, checked_add, checked_sub, checked_mul, checked_add_u64,
  +ℤ_parts, -ℤ_parts,
}
use conduit_contracts.Host.{Host}
use conduit_contracts.Stream.Storage.{StreamInfo, is_cancelled}
use conduit_contracts.Stream.State.{Env}
use conduit_contracts.Stream.Math.{
  streamed_amount, effective_now, accrued_until, withdrawable_amount,
}
use conduit_contracts.Stream.Accrual.{withdrawable_amount-ok}
use conduit_contracts.Stream.Payments.{withdraw}
use conduit_contracts.Stream.Views.{withdrawable}
use conduit_contracts.Stream.Invariant.{IsValid}
use conduit_contracts.Stream.EventLog.{counter}

pub streamed_amount-fits :
    (now : ℕ) (info : StreamInfo) (s : ℤ) → streamed_amount now info ≡ ok s → fits_i128 s ≡ true
unfolding streamed_amount effective_now accrued_until checked_mul
streamed_amount-fits now info s h = ground arith

pub fits_between : (a b : ℤ) → pos 0 ≤ℤ a → a ≤ℤ b → fits_i128 b ≡ true → fits_i128 a ≡ true
fits_between a b n le f = ground arith

-- The difference of two amounts that are not negative fits.
pub fits_difference :
    (a b : ℤ)
    → pos 0 ≤ℤ a
    → fits_i128 a ≡ true
    → pos 0 ≤ℤ b
    → fits_i128 b ≡ true
    → fits_i128 (a -ℤ b) ≡ true
fits_difference a b p f q g = ground (arith, -ℤ_parts a b)

-- The two sums that a withdrawal makes fit an `i128`.
pub sums_fit :
    (paid amount available streamed balance : ℤ)
    → pos 0 ≤ℤ paid
    → pos 1 ≤ℤ amount
    → pos 1 ≤ℤ available
    → (available ≡ pos 0) ⊎ (paid +ℤ available ≤ℤ streamed)
    → fits_i128 streamed ≡ true
    → pos 0 ≤ℤ balance
    → fits_i128 balance ≡ true
    → (fits_i128 (paid +ℤ min_ℤ amount available) ≡ true)
      × (fits_i128 (balance -ℤ min_ℤ amount available) ≡ true)
sums_fit paid amount available streamed balance p a b within f n g =
    let sent = min_ℤ amount available in
    let bounds = min_ℤ_bounds amount available in
    let total = +ℤ_parts paid sent in
    let all = +ℤ_parts paid available in
    let sent_nonneg : pos 0 ≤ℤ sent = ground arith in
    let le : paid +ℤ sent ≤ℤ streamed = ground arith in
    let total_nonneg : pos 0 ≤ℤ paid +ℤ sent = omega arith in
    let sent_le : sent ≤ℤ streamed = omega arith in
    (
      fits_between (paid +ℤ sent) streamed total_nonneg le f,
      fits_difference balance sent n g sent_nonneg
          (fits_between sent streamed sent_nonneg sent_le f),
    )

module _ {L : Type 0} ⦃host : Host L⦄ where
  -- On a valid stream that is not cancelled, the view `withdrawable` gives what is available. If
  -- that is positive, the recipient asks for a positive amount, the token contract accepts the
  -- transfer and the event counter is not at its end, then `withdraw` succeeds: it sends the lesser
  -- of the two and counts it.
  pub withdraw_succeeds :
      (e : Env L) (info : StreamInfo) (amount available : ℤ) (ledger : L)
      → e.store.config ≡ some info
      → IsValid e.now info
      → is_cancelled info ≡ false
      → withdrawable_amount e.now info ≡ ok available
      → pos 1 ≤ℤ available
      → pos 1 ≤ℤ amount
      → e.auth info.recipient ≡ true
      → host.transfer e.ledger info.token e.self info.recipient (min_ℤ amount available)
        ≡ some ledger
      → counter e + 1 < u64_limit
      → (withdrawable e ≡ ok (available, e))
        × ((e' : Env L) × (withdraw amount e ≡ ok (min_ℤ amount available, e'))
            × (e'.ledger ≡ ledger)
            × (e'.store.config
                ≡ some (record info { withdrawn = info.withdrawn +ℤ min_ℤ amount available })))
  unfolding withdraw withdrawable checked_add checked_sub checked_add_u64
  withdraw_succeeds e info amount available ledger c v x due positive asked auth accepted counts =
      let (streamed, streamed_is, _, within) = withdrawable_amount-ok e.now info due in
      let (held_nonneg, held_fits) = host.balance_range e.ledger info.token e.self in
      let (total_fits, rest_fits) =
        sums_fit info.withdrawn amount available streamed (host.balance e.ledger info.token e.self)
          v.withdrawn_nonneg asked positive within
          (streamed_amount-fits e.now info streamed streamed_is) held_nonneg held_fits in
      (ground arith, (committed (withdraw amount) e, ground arith, ground arith, ground arith))
