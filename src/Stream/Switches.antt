-- ===== src/Stream/Switches.antt =====
-- `pause` and `resume` of contracts/stream/src/lib.rs on every branch.
use conduit_contracts.Base.{
  ℕ, ◌+◌, ◌-◌, ◌≤◌, ◌<◌, ◌≡◌, ◌⊎◌, true, false, some, arith, ℤ, ok, err, panic, trap, unauthorized,
  overflow, committed, u64_limit, checked_sub_u64, checked_add_u64,
}
use conduit_contracts.Host.{Host}
use conduit_contracts.Stream.Storage.{
  StreamInfo, Error, is_cancelled, is_paused, arithmetic_overflow, already_paused, not_paused,
}
use conduit_contracts.Stream.State.{Env, Call}
use conduit_contracts.Stream.Math.{withdrawable_amount}
use conduit_contracts.Stream.Lifecycle.{pause, resume}
use conduit_contracts.Stream.Pausing.{paused_info, resumed_info}
use conduit_contracts.Stream.EventLog.{counter}

-- The times that `resume` computes are defined and fit a `u64`.
abbrev pub Resumable : ℕ → StreamInfo → Type 0
Resumable now info =
    (info.paused_at ≤ now)
    × (info.start_time + (now - info.paused_at) < u64_limit)
    × (0 < info.end_time → info.end_time + (now - info.paused_at) < u64_limit)

-- One of them is not.
abbrev pub NotResumable : ℕ → StreamInfo → Type 0
NotResumable now info =
    (now < info.paused_at)
    ⊎ (u64_limit ≤ info.start_time + (now - info.paused_at))
    ⊎ ((0 < info.end_time) × (u64_limit ≤ info.end_time + (now - info.paused_at)))

module _ {L : Type 0} ⦃host : Host L⦄ where
  -- The call goes through, stores `after` and moves no tokens.
  abbrev pub Stores : Call L (Unit {0}) → Env L → StreamInfo → Type 0
  Stores call e after =
      (e' : Env L) × (call e ≡ ok (tt, e'))
      × (e'.store.config ≡ some after)
      × (e'.ledger ≡ e.ledger)

  -- `pause` and `resume` on every branch, on a stream that is not cancelled. In the state that they
  -- lead to they are refused, with `AlreadyPaused` and `NotPaused`; in the other,
  -- anybody but the sender is refused by the host. For the sender `pause` gives the error of an
  -- amount that cannot be computed, and `resume` traps where a time underflows or passes a `u64`.
  -- Otherwise both panic with `ArithmeticOverflow` if the event counter is at its end, and else go
  -- through, store the paused or the resumed stream, and move no tokens.
  pub switch_branches :
      (e : Env L) (info : StreamInfo)
      → e.store.config ≡ some info
      → is_cancelled info ≡ false
      → (is_paused info ≡ true → pause e ≡ err already_paused)
        × (is_paused info ≡ false → resume e ≡ err not_paused)
        × (is_paused info ≡ false
            → (e.auth info.sender ≡ false → pause e ≡ trap unauthorized)
              × (e.auth info.sender ≡ true
                  → ((x : Error) → withdrawable_amount e.now info ≡ err x → pause e ≡ err x)
                    × ((available : ℤ)
                        → withdrawable_amount e.now info ≡ ok available
                        → (u64_limit ≤ counter e + 1 → pause e ≡ panic arithmetic_overflow)
                          × (counter e + 1 < u64_limit → Stores pause e (paused_info e.now info)))))
        × (is_paused info ≡ true
            → (e.auth info.sender ≡ false → resume e ≡ trap unauthorized)
              × (e.auth info.sender ≡ true
                  → (NotResumable e.now info → resume e ≡ trap overflow)
                    × (Resumable e.now info
                        → (u64_limit ≤ counter e + 1 → resume e ≡ panic arithmetic_overflow)
                          × (counter e + 1 < u64_limit
                              → Stores resume e (resumed_info e.now info)))))
  unfolding pause resume checked_sub_u64 checked_add_u64
  switch_branches e info c u = (
    λ on. ground arith,
    λ off. ground arith,
    λ off. (
      λ stranger. ground arith,
      λ sender. (
        λ x failed. ground arith,
        λ available due. (
          λ late. ground arith,
          λ counts. (committed pause e, ground arith, ground arith, ground arith),
        ),
      ),
    ),
    λ on. (
      λ stranger. ground arith,
      λ sender. (
        λ unfit. ground arith,
        λ fit. (
          λ late. ground arith,
          λ counts. (committed resume e, ground arith, ground arith, ground arith),
        ),
      ),
    ),
  )
