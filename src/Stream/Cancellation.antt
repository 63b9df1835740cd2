-- ===== src/Stream/Cancellation.antt =====
-- `cancel` and `force_cancel` of contracts/stream/src/lib.rs: who may call them, and how they
-- divide the escrowed balance.
use Prim.Native.Nat.{bit_or}
use mathlib.Core.Path.{ap₂}
use conduit_contracts.Base.{
  ◌+◌, ◌-◌, ◌∙◌, ◌≤◌, ◌≡◌, ◌≢◌, sym, true, false, some, arith, int_laws, ℤ, pos, ◌+ℤ◌, ◌-ℤ◌, ◌≤ℤ◌,
  min_ℤ, max_ℤ, ok,
}
use conduit_contracts.Host.{Host, Address}
use conduit_contracts.Stream.Storage.{StreamInfo, flag_cancelled, is_cancelled, is_paused}
use conduit_contracts.Stream.State.{Env, ttl_threshold, ttl_extend_to}
use conduit_contracts.Stream.Math.{streamed_amount}
use conduit_contracts.Stream.Settlement.{settle, cancel, force_cancel, pause_threshold_secs}
use conduit_contracts.Stream.Shares.{settle-Settled}
use conduit_contracts.Stream.Balances.{PaidOut-Moves}

share_bounds :
    (earned balance owed : ℤ)
    → pos 0 ≤ℤ balance
    → owed ≡ min_ℤ (max_ℤ earned (pos 0)) balance
    → (pos 0 ≤ℤ owed) × (owed ≤ℤ balance) × (max_ℤ (balance -ℤ owed) (pos 0) ≡ balance -ℤ owed)
share_bounds earned balance owed b h = rw h (omega int_laws, omega int_laws, omega int_laws)

minus_self : (a : ℤ) → a -ℤ a ≡ pos 0
minus_self a = omega int_laws

module _ {L : Type 0} ⦃host : Host L⦄ where
  abbrev pub bumped : Env L → Env L
  bumped e = record e { ttl = host.extend_ttl ttl_threshold ttl_extend_to e.ttl }

  pub cancel-settle :
      (e e' : Env L) (info : StreamInfo)
      → e.store.config ≡ some info
      → cancel e ≡ ok (tt, e')
      → (is_cancelled info ≡ false)
        × (e.auth info.sender ≡ true)
        × (settle info (bumped e) ≡ ok (tt, e'))
  unfolding cancel
  cancel-settle e e' info c h = ground arith

  pub force_cancel-settle :
      (e e' : Env L) (info : StreamInfo)
      → e.store.config ≡ some info
      → force_cancel e ≡ ok (tt, e')
      → (is_cancelled info ≡ false)
        × (is_paused info ≡ true)
        × (pause_threshold_secs ≤ e.now - info.paused_at)
        × (e.auth info.recipient ≡ true)
        × (settle info (bumped e) ≡ ok (tt, e'))
  unfolding force_cancel
  force_cancel-settle e e' info c h = ground arith

  -- Where both may be called, the two calls do the same.
  pub force_cancel-eq-cancel :
      (e : Env L) (info : StreamInfo)
      → e.store.config ≡ some info
      → e.auth info.sender ≡ true
      → e.auth info.recipient ≡ true
      → is_paused info ≡ true
      → pause_threshold_secs ≤ e.now - info.paused_at
      → force_cancel e ≡ cancel e
  unfolding force_cancel cancel
  force_cancel-eq-cancel e info c s r p t = ground arith

  -- The shares of a settlement, and the balances after it.
  pub record Divided (e e' : Env L) (info : StreamInfo) (streamed owed : ℤ) : Type 0 where
    pub streamed_is : streamed_amount e.now info ≡ ok streamed
    pub owed_is :
        owed
        ≡ min_ℤ
            (max_ℤ (streamed -ℤ info.withdrawn) (pos 0))
            (host.balance e.ledger info.token e.self)
    pub marked : e'.store.config ≡ some (record info { flags = bit_or info.flags flag_cancelled })
    pub emptied : host.balance e'.ledger info.token e.self ≡ pos 0
    pub recipient_paid :
        host.balance e'.ledger info.token info.recipient
        ≡ host.balance e.ledger info.token info.recipient +ℤ owed
    pub sender_refunded :
        host.balance e'.ledger info.token info.sender
        ≡ host.balance e.ledger info.token info.sender
          +ℤ (host.balance e.ledger info.token e.self -ℤ owed)
    pub others_kept :
        (a : Address)
        → a ≢ e.self
        → a ≢ info.recipient
        → a ≢ info.sender
        → host.balance e'.ledger info.token a ≡ host.balance e.ledger info.token a

  settle-Divided :
      (e e' : Env L) (info : StreamInfo)
      → e.store.config ≡ some info
      → e.self ≢ info.recipient
      → e.self ≢ info.sender
      → info.recipient ≢ info.sender
      → settle info e ≡ ok (tt, e')
      → (streamed : ℤ) × (owed : ℤ) × Divided e e' info streamed owed
  settle-Divided e e' info c sr ss rs h =
      let (streamed, owed, refund, mid, paid) = settle-Settled e e' info c h in
      let balance = host.balance e.ledger info.token e.self in
      let (owed_nonneg, covered, rest) =
        share_bounds (streamed -ℤ info.withdrawn) balance owed
          (host.balance_range e.ledger info.token e.self).0 paid.owed_is in
      let refund_is : refund ≡ balance -ℤ owed = paid.refund_is ∙ rest in
      let refund_nonneg : pos 0 ≤ℤ refund = rw refund_is (omega int_laws) in
      let first =
        PaidOut-Moves e.ledger mid info.token e.self info.recipient owed sr owed_nonneg
          paid.paid_recipient in
      let second =
        PaidOut-Moves mid e'.ledger info.token e.self info.sender refund ss refund_nonneg
          paid.paid_sender in
      (
        streamed,
        owed,
        record {
          streamed_is = paid.streamed_is;
          owed_is = paid.owed_is;
          marked = paid.stored;
          emptied = second.debit ∙ ap₂ ◌-ℤ◌ first.debit refund_is ∙ minus_self _;
          recipient_paid = second.frame info.recipient (λ q. sr (sym q)) rs ∙ first.credit;
          sender_refunded =
              second.credit
              ∙ ap₂ ◌+ℤ◌ (first.frame info.sender (λ q. ss (sym q)) (λ q. rs (sym q))) refund_is;
          others_kept = λ a p q r. second.frame a p r ∙ first.frame a p q;
        },
      )

  -- The time to live plays no part in the shares.
  Divided-bumped :
      (e e' : Env L) (info : StreamInfo) (streamed owed : ℤ)
      → Divided (bumped e) e' info streamed owed
      → Divided e e' info streamed owed
  Divided-bumped e e' info streamed owed d = record {
    streamed_is = d.streamed_is;
    owed_is = d.owed_is;
    marked = d.marked;
    emptied = d.emptied;
    recipient_paid = d.recipient_paid;
    sender_refunded = d.sender_refunded;
    others_kept = d.others_kept;
  }

  -- Of a stream whose contract, sender and recipient are three different accounts: a successful
  -- `cancel` was authorized by the sender, and the stream was not cancelled. It marks the
  -- stream, pays the recipient what has streamed and was not withdrawn (no less than nothing,
  -- and no more than the contract holds), refunds all the rest to the sender, and leaves the
  -- contract with a balance of zero.
  pub cancel_divides :
      (e e' : Env L) (info : StreamInfo)
      → e.store.config ≡ some info
      → e.self ≢ info.recipient
      → e.self ≢ info.sender
      → info.recipient ≢ info.sender
      → cancel e ≡ ok (tt, e')
      → (streamed : ℤ) × (owed : ℤ) × Divided e e' info streamed owed
        × (e.auth info.sender ≡ true)
        × (is_cancelled info ≡ false)
  cancel_divides e e' info c sr ss rs h =
      let (uncancelled, authorized, settled) = cancel-settle e e' info c h in
      let (streamed, owed, d) = settle-Divided (bumped e) e' info c sr ss rs settled in
      (streamed, owed, Divided-bumped e e' info streamed owed d, authorized, uncancelled)

  -- Of a stream whose contract, sender and recipient are three different accounts: a successful
  -- `force_cancel` was authorized by the recipient of an uncancelled stream that has been paused
  -- for at least 30 days. It marks the stream, pays the recipient what has streamed and was not
  -- withdrawn (no less than nothing, and no more than the contract holds), refunds all the rest
  -- to the sender, and leaves the contract with a balance of zero.
  pub force_cancel_divides :
      (e e' : Env L) (info : StreamInfo)
      → e.store.config ≡ some info
      → e.self ≢ info.recipient
      → e.self ≢ info.sender
      → info.recipient ≢ info.sender
      → force_cancel e ≡ ok (tt, e')
      → (streamed : ℤ) × (owed : ℤ) × Divided e e' info streamed owed
        × (e.auth info.recipient ≡ true)
        × (is_paused info ≡ true)
        × (info.paused_at + pause_threshold_secs ≤ e.now)
        × (is_cancelled info ≡ false)
  force_cancel_divides e e' info c sr ss rs h =
      let (uncancelled, paused, long, authorized, settled) = force_cancel-settle e e' info c h in
      let (streamed, owed, d) = settle-Divided (bumped e) e' info c sr ss rs settled in
      (
        streamed,
        owed,
        Divided-bumped e e' info streamed owed d,
        authorized,
        paused,
        omega arith,
        uncancelled,
      )
