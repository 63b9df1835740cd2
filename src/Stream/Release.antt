-- ===== src/Stream/Release.antt =====
-- `cancel` and `force_cancel` of contracts/stream/src/lib.rs succeed where the tokens can be paid.
use Prim.Native.Nat.{bit_or}
use conduit_contracts.Base.{
  ℕ, ◌+◌, ◌-◌, ◌≤◌, ◌<◌, ◌≡◌, true, false, some, arith, ℤ, pos, ◌-ℤ◌, ◌≤ℤ◌, min_ℤ, max_ℤ, ok, inl,
  inr, int_laws, fits_i128, checked_sub, checked_add_u64, u64_limit, committed,
}
use conduit_contracts.Host.{Address, Host}
use conduit_contracts.Stream.Storage.{StreamInfo, flag_cancelled, is_cancelled, is_paused}
use conduit_contracts.Stream.State.{Env, saved, save, set_cancelled}
use conduit_contracts.Stream.Math.{streamed_amount, effective_now, accrued_until}
use conduit_contracts.Stream.Accrual.{accrued_until-ok}
use conduit_contracts.Stream.Invariant.{IsValid}
use conduit_contracts.Stream.Settlement.{
  settle, pay_out, cancel, force_cancel, pause_threshold_secs,
}
use conduit_contracts.Stream.Shares.{PaidOut}
use conduit_contracts.Stream.Balances.{sign_cases}
use conduit_contracts.Stream.Cancellation.{bumped}
use conduit_contracts.Stream.EventLog.{counter}
use conduit_contracts.Stream.Claim.{streamed_amount-fits, fits_difference, fits_between}

accrued_until-nonneg :
    (until : ℕ) (info : StreamInfo) (streamed : ℤ)
    → pos 0 ≤ℤ info.rate_per_second
    → accrued_until until info ≡ ok streamed
    → pos 0 ≤ℤ streamed
accrued_until-nonneg until info streamed r h = rw (accrued_until-ok until info r h).1 (omega arith)

streamed_amount-nonneg :
    (now : ℕ) (info : StreamInfo) (streamed : ℤ)
    → pos 0 ≤ℤ info.rate_per_second
    → streamed_amount now info ≡ ok streamed
    → pos 0 ≤ℤ streamed
unfolding streamed_amount
streamed_amount-nonneg now info streamed r h = ground (
  arith,
  λ (e : accrued_until (effective_now now info) info ≡ ok streamed).
      accrued_until-nonneg (effective_now now info) info streamed r e,
)

-- The two differences that a settlement forms fit an `i128`.
shares_fit :
    (streamed withdrawn balance : ℤ)
    → pos 0 ≤ℤ streamed
    → fits_i128 streamed ≡ true
    → pos 0 ≤ℤ withdrawn
    → fits_i128 withdrawn ≡ true
    → pos 0 ≤ℤ balance
    → fits_i128 balance ≡ true
    → (fits_i128 (streamed -ℤ withdrawn) ≡ true)
      × (fits_i128 (balance -ℤ min_ℤ (max_ℤ (streamed -ℤ withdrawn) (pos 0)) balance) ≡ true)
shares_fit streamed withdrawn balance sn sf wn wf bn bf =
    let owed = min_ℤ (max_ℤ (streamed -ℤ withdrawn) (pos 0)) balance in
    let nonneg : pos 0 ≤ℤ owed = omega int_laws in
    let within : owed ≤ℤ balance = omega int_laws in
    (
      fits_difference streamed withdrawn sn sf wn wf,
      fits_difference balance owed bn bf nonneg (fits_between owed balance nonneg within bf),
    )

module _ {L : Type 0} ⦃host : Host L⦄ where
  -- The recipient's share, and the sender's.
  abbrev pub owed_of : Env L → StreamInfo → ℤ → ℤ
  owed_of e info streamed =
      min_ℤ (max_ℤ (streamed -ℤ info.withdrawn) (pos 0)) (host.balance e.ledger info.token e.self)

  abbrev pub refund_of : Env L → StreamInfo → ℤ → ℤ
  refund_of e info streamed =
      max_ℤ (host.balance e.ledger info.token e.self -ℤ owed_of e info streamed) (pos 0)

  -- What has streamed can be computed, and the token contract carries out both payments.
  pub record Payable (e : Env L) (info : StreamInfo) (streamed : ℤ) (mid last : L) : Type 0 where
    pub streamed_is : streamed_amount e.now info ≡ ok streamed
    pub withdrawn_fits : fits_i128 info.withdrawn ≡ true
    pub to_recipient :
        PaidOut e.ledger mid info.token e.self info.recipient (owed_of e info streamed)
    pub to_sender : PaidOut mid last info.token e.self info.sender (refund_of e info streamed)

  PaidOut-pay_out :
      (e : Env L) (token to : Address) (amount : ℤ) (l : L)
      → PaidOut e.ledger l token e.self to amount
      → pay_out token to amount e ≡ ok (tt, record e { ledger = l })
  unfolding pay_out
  PaidOut-pay_out e token to amount l p = elim (sign_cases amount) [
    | inl positive ↦ ground (arith, p.when_positive positive)
    | inr zero ↦ ground (arith, p.when_not zero)
  ]

  -- The state when the stream is marked and nobody is paid yet.
  abbrev ready : Env L → StreamInfo → Env L
  ready e info =
      let marked = record info { flags = bit_or info.flags flag_cancelled } in
      record e { store = saved marked (saved marked e.store) }

  Payable-settle :
      (e : Env L) (info : StreamInfo) (streamed : ℤ) (mid last : L)
      → e.store.config ≡ some info
      → IsValid e.now info
      → Payable e info streamed mid last
      → counter e + 1 < u64_limit
      → (e' : Env L) × (settle info e ≡ ok (tt, e'))
        × (e'.ledger ≡ last)
        × (e'.store.config ≡ some (record info { flags = bit_or info.flags flag_cancelled }))
  unfolding settle save set_cancelled checked_sub checked_add_u64
  Payable-settle e info streamed mid last c v p counts =
      let (held_nonneg, held_fits) = host.balance_range e.ledger info.token e.self in
      let (earned_fits, rest_fits) =
        shares_fit streamed info.withdrawn (host.balance e.ledger info.token e.self)
          (streamed_amount-nonneg e.now info streamed (omega (arith, v.rate_positive))
            p.streamed_is)
          (streamed_amount-fits e.now info streamed p.streamed_is) v.withdrawn_nonneg
          p.withdrawn_fits held_nonneg held_fits in
      let paid =
        PaidOut-pay_out (ready e info) info.token info.recipient (owed_of e info streamed) mid
          p.to_recipient in
      let refunded =
        PaidOut-pay_out (record (ready e info) { ledger = mid }) info.token info.sender
          (refund_of e info streamed) last p.to_sender in
      (committed (settle info) e, ground arith, ground arith, ground arith)

  -- What a settlement leaves: the tokens after both payments, and the stream marked.
  abbrev pub IsSettled : Env L → StreamInfo → L → Env L → Type 0
  IsSettled e info last e' =
      (e'.ledger ≡ last)
      × (e'.store.config ≡ some (record info { flags = bit_or info.flags flag_cancelled }))

  -- On a valid stream that is not cancelled, where what has streamed can be computed, what was
  -- withdrawn fits an `i128`, the token contract carries out both payments and the event counter is
  -- not at its end: `cancel` succeeds if the sender authorized it, and `force_cancel` succeeds if
  -- the recipient did and the stream has been paused for 30 days. Either pays both shares and marks
  -- the stream.
  pub settlement_succeeds :
      (e : Env L) (info : StreamInfo) (streamed : ℤ) (mid last : L)
      → e.store.config ≡ some info
      → IsValid e.now info
      → is_cancelled info ≡ false
      → Payable e info streamed mid last
      → counter e + 1 < u64_limit
      → (e.auth info.sender ≡ true
          → (e' : Env L) × (cancel e ≡ ok (tt, e')) × IsSettled e info last e')
        × (e.auth info.recipient ≡ true
            → is_paused info ≡ true
            → pause_threshold_secs ≤ e.now - info.paused_at
            → (e' : Env L) × (force_cancel e ≡ ok (tt, e')) × IsSettled e info last e')
  unfolding cancel force_cancel
  settlement_succeeds e info streamed mid last c v running p counts =
      let (e', settles, ledger, marked) =
        Payable-settle (bumped e) info streamed mid last c v
          (record {
            streamed_is = p.streamed_is;
            withdrawn_fits = p.withdrawn_fits;
            to_recipient = p.to_recipient;
            to_sender = p.to_sender;
          })
          counts in
      (
        λ signed. (e', ground (arith, settles), (ledger, marked)),
        λ signed paused waited. (e', ground (arith, settles), (ledger, marked)),
      )
