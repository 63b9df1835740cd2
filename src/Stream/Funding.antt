-- ===== src/Stream/Funding.antt =====
-- `top_up` and `extend_duration` of contracts/stream/src/lib.rs: what the sender pays in.
use conduit_contracts.Base.{
  ℕ, ◌+◌, ◌*◌, ◌<◌, ◌≡◌, ◌≢◌, true, false, some, arith, ℤ, pos, pos_part, ◌≤ℤ◌, ◌*ℤ◌, ok,
  checked_mul, checked_add_u64, u64_limit, pos_of_nonneg, pos-*ℤ-pos, ap, ◌∙◌, sym,
}
use conduit_contracts.Host.{Host}
use conduit_contracts.Stream.Storage.{StreamInfo, is_cancelled}
use conduit_contracts.Stream.State.{Env}
use conduit_contracts.Stream.Payments.{top_up, extend_duration}
use conduit_contracts.Stream.Balances.{Moves, transfer-Moves}

abbrev pub extended : ℕ → StreamInfo → StreamInfo
extended extra info = record info { end_time = info.end_time + extra }

module _ {L : Type 0} ⦃host : Host L⦄ where
  pub record Deposited (e e' : Env L) (before after : StreamInfo) (amount : ℤ) : Type 0 where
    pub uncancelled : is_cancelled before ≡ false
    pub by_sender : e.auth before.sender ≡ true
    pub stored : e'.store.config ≡ some after
    pub paid : host.transfer e.ledger before.token before.sender e.self amount ≡ some e'.ledger

  pub top_up-Deposited :
      (e e' : Env L) (info : StreamInfo) (amount : ℤ)
      → e.store.config ≡ some info
      → top_up amount e ≡ ok (tt, e')
      → (pos 1 ≤ℤ amount) × Deposited e e' info info amount
  unfolding top_up
  top_up-Deposited e e' info amount c h = ground arith

  pub extend_duration-Deposited :
      (e e' : Env L) (info : StreamInfo) (extra : ℕ)
      → e.store.config ≡ some info
      → extend_duration extra e ≡ ok (tt, e')
      → (0 < extra)
        × (0 < info.end_time)
        × (info.end_time + extra < u64_limit)
        × Deposited e e' info (extended extra info) (pos extra *ℤ info.rate_per_second)
  unfolding extend_duration checked_mul checked_add_u64
  extend_duration-Deposited e e' info extra c h = ground arith

  -- On a stream with a rate that is not negative, whose sender is not the contract itself: a
  -- successful `extend_duration` was authorized by the sender of an uncancelled bounded stream. It
  -- moves the end by the extra time, with no overflow of the time, and takes from the sender exactly
  -- the rate times the extra time.
  pub extend_duration_funds :
      (e e' : Env L) (info : StreamInfo) (extra : ℕ)
      → e.store.config ≡ some info
      → e.self ≢ info.sender
      → pos 0 ≤ℤ info.rate_per_second
      → extend_duration extra e ≡ ok (tt, e')
      → (0 < info.end_time)
        × (info.end_time + extra < u64_limit)
        × (e.auth info.sender ≡ true)
        × (is_cancelled info ≡ false)
        × (e'.store.config ≡ some (extended extra info))
        × Moves e.ledger e'.ledger info.token info.sender e.self
            (pos (extra * pos_part info.rate_per_second))
  extend_duration_funds e e' info extra c ne r h =
      let (_, bounded, fits, d) = extend_duration-Deposited e e' info extra c h in
      let deposit : pos extra *ℤ info.rate_per_second
          ≡ pos (extra * pos_part info.rate_per_second) =
        ap (λ z. pos extra *ℤ z) (pos_of_nonneg info.rate_per_second r)
        ∙ pos-*ℤ-pos extra (pos_part info.rate_per_second) in
      let moves : Moves e.ledger e'.ledger info.token info.sender e.self
          (pos extra *ℤ info.rate_per_second) =
        transfer-Moves e.ledger e'.ledger info.token info.sender e.self
          (pos extra *ℤ info.rate_per_second) (λ q. ne (sym q)) d.paid in
      (bounded, fits, d.by_sender, d.uncancelled, d.stored, rw deposit at moves)

  -- A successful `top_up` was authorized by the sender of an uncancelled stream, moves the positive
  -- amount from the sender to the contract, and changes nothing of the stream's terms or counters.
  pub top_up_funds :
      (e e' : Env L) (info : StreamInfo) (amount : ℤ)
      → e.store.config ≡ some info
      → e.self ≢ info.sender
      → top_up amount e ≡ ok (tt, e')
      → (pos 1 ≤ℤ amount)
        × (e.auth info.sender ≡ true)
        × (is_cancelled info ≡ false)
        × (e'.store.config ≡ some info)
        × Moves e.ledger e'.ledger info.token info.sender e.self amount
  top_up_funds e e' info amount c ne h =
      let (positive, d) = top_up-Deposited e e' info amount c h in
      (
        positive,
        d.by_sender,
        d.uncancelled,
        d.stored,
        transfer-Moves e.ledger e'.ledger info.token info.sender e.self amount (λ q. ne (sym q))
            d.paid,
      )
