-- ===== src/Stream/Shares.antt =====
-- The settlement shared by `cancel` and `force_cancel`, and `clawback`, of
-- contracts/stream/src/lib.rs: the shares that a successful call pays.
use Prim.Native.Nat.{bit_or}
use mathlib.Core.Option
use conduit_contracts.Base.{
  ◌≡◌, some, arith, ℤ, pos, ◌-ℤ◌, ◌≤ℤ◌, min_ℤ, max_ℤ, ltb_ℤ, if◌then◌else◌, checked_sub, ok,
}
use conduit_contracts.Host.{Host, Address}
use conduit_contracts.Stream.Storage.{StreamInfo, flag_cancelled}
use conduit_contracts.Stream.State.{Env}
use conduit_contracts.Stream.Math.{streamed_amount}
use conduit_contracts.Stream.Settlement.{settle}
use conduit_contracts.Stream.Views.{or_zero}

module _ {L : Type 0} ⦃host : Host L⦄ where
  -- A payment that is made only if it is positive.
  pub record PaidOut (l l' : L) (token from to : Address) (amount : ℤ) : Type 0 where
    pub when_positive : pos 1 ≤ℤ amount → host.transfer l token from to amount ≡ some l'
    pub when_not : amount ≤ℤ pos 0 → l' ≡ l

  abbrev paid_ledger : L → Address → Address → Address → ℤ → L
  paid_ledger l token from to amount =
      if ltb_ℤ (pos 0) amount then Option.get_or (host.transfer l token from to amount) l else l

  pub record Settled (e e' : Env L) (info : StreamInfo) (streamed owed refund : ℤ) (mid : L)
      : Type 0 where
    pub streamed_is : streamed_amount e.now info ≡ ok streamed
    pub owed_is :
        owed
        ≡ min_ℤ
            (max_ℤ (streamed -ℤ info.withdrawn) (pos 0))
            (host.balance e.ledger info.token e.self)
    pub refund_is : refund ≡ max_ℤ (host.balance e.ledger info.token e.self -ℤ owed) (pos 0)
    pub stored : e'.store.config ≡ some (record info { flags = bit_or info.flags flag_cancelled })
    pub paid_recipient : PaidOut e.ledger mid info.token e.self info.recipient owed
    pub paid_sender : PaidOut mid e'.ledger info.token e.self info.sender refund

  pub settle-Settled :
      (e e' : Env L) (info : StreamInfo)
      → e.store.config ≡ some info
      → settle info e ≡ ok (tt, e')
      → (streamed : ℤ) × (owed : ℤ) × (refund : ℤ) × (mid : L) × Settled e e' info streamed owed
          refund mid
  unfolding settle checked_sub
  settle-Settled e e' info c h =
      let streamed = or_zero (streamed_amount e.now info) in
      let balance = host.balance e.ledger info.token e.self in
      let owed = min_ℤ (max_ℤ (streamed -ℤ info.withdrawn) (pos 0)) balance in
      (
        streamed,
        owed,
        max_ℤ (balance -ℤ owed) (pos 0),
        paid_ledger e.ledger info.token e.self info.recipient owed,
        ground arith,
      )
