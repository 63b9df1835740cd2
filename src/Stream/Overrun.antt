-- ===== src/Stream/Overrun.antt =====
-- A stream of contracts/stream/src/lib.rs that is past its end and has been paused since before it:
-- what `resume` and `extend_duration` do to the amount that `streamed_amount` reports.
use conduit_contracts.Base.{
  ℕ, ◌+◌, ◌-◌, ◌*◌, ◌≤◌, ◌<◌, ◌≡◌, ◌⊎◌, inl, inr, true, some, arith, pos, pos_part, ok, i128_limit,
}
use conduit_contracts.Host.{Host}
use conduit_contracts.Stream.Storage.{StreamInfo, is_paused}
use conduit_contracts.Stream.State.{Env}
use conduit_contracts.Stream.Math.{streamed_amount, effective_now}
use conduit_contracts.Stream.Lifecycle.{resume}
use conduit_contracts.Stream.Payments.{extend_duration}
use conduit_contracts.Stream.Accrual.{accrued_until_lem, scale}
use conduit_contracts.Stream.Pausing.{resumed_info, resume-Updated, resumed_info-is_paused}
use conduit_contracts.Stream.Funding.{extended, extend_duration-Deposited}
use conduit_contracts.Stream.Invariant.{IsValid, contract_value}

-- Paused between its start and its end, with the end in the past of `now`.
pub record IsOverrun (now : ℕ) (info : StreamInfo) : Type 0 where
  pub paused : is_paused info ≡ true
  pub bounded : 0 < info.end_time
  pub paused_after_start : info.start_time ≤ info.paused_at
  pub paused_before_end : info.paused_at < info.end_time
  pub end_past : info.end_time < now
  pub value_fits : contract_value info < i128_limit

-- What had streamed when the pause began.
abbrev pub at_pause : StreamInfo → ℕ
at_pause info = pos_part info.rate_per_second * (info.paused_at - info.start_time)

at_pause-lt :
    (now : ℕ) (info : StreamInfo)
    → IsValid now info
    → IsOverrun now info
    → at_pause info < contract_value info
at_pause-lt now info v o =
    let step =
      scale (pos_part info.rate_per_second) {a = info.paused_at - info.start_time + 1}
        {b = info.end_time - info.start_time} (omega (arith, o)) in
    let positive : 1 ≤ pos_part info.rate_per_second = ground (arith, v) in
    grind (arith, step, positive)

overrun_streamed :
    (now : ℕ) (info : StreamInfo)
    → IsValid now info
    → IsOverrun now info
    → streamed_amount now info ≡ ok (pos (contract_value info))
unfolding streamed_amount effective_now
overrun_streamed now info v o = ground (arith, v, o, accrued_until_lem info.end_time info)

resumed_streamed :
    (now : ℕ) (info : StreamInfo)
    → IsValid now info
    → IsOverrun now info
    → streamed_amount now (resumed_info now info) ≡ ok (pos (at_pause info))
unfolding streamed_amount effective_now
resumed_streamed now info v o = ground (
  arith,
  v,
  o,
  at_pause-lt now info v o,
  resumed_info-is_paused now info v.flag_word,
  accrued_until_lem now (resumed_info now info),
)

extended_streamed :
    (now extra : ℕ) (info : StreamInfo)
    → IsValid now info
    → IsOverrun now info
    → now ≤ info.end_time + extra
    → streamed_amount now (extended extra info) ≡ ok (pos (at_pause info))
unfolding streamed_amount effective_now is_paused
extended_streamed now extra info v o le =
    ground (
      arith,
      v,
      o,
      at_pause-lt now info v o,
      accrued_until_lem info.paused_at (extended extra info),
    )

module _ {L : Type 0} ⦃host : Host L⦄ where
  -- On a valid stream that was paused between its start and its end, that is past its end and whose
  -- value fits an `i128`, the whole value counts as streamed; a successful `resume`, or a successful
  -- `extend_duration` that moves the end to the time of the call or later, takes it back to what
  -- had streamed when the pause began, which is less.
  pub overrun_takes_back :
      (e e' : Env L) (info : StreamInfo)
      → e.store.config ≡ some info
      → IsValid e.now info
      → IsOverrun e.now info
      → (resume e ≡ ok (tt, e'))
        ⊎ ((extra : ℕ) × (e.now ≤ info.end_time + extra) × (extend_duration extra e ≡ ok (tt, e')))
      → (after : StreamInfo) × (e'.store.config ≡ some after)
        × (streamed_amount e.now info ≡ ok (pos (contract_value info)))
        × (streamed_amount e.now after ≡ ok (pos (at_pause info)))
        × (at_pause info < contract_value info)
  overrun_takes_back e e' info c v o (inl h) =
      let (_, _, up) = resume-Updated e e' info c h in
      (
        _,
        up.stored,
        overrun_streamed e.now info v o,
        resumed_streamed e.now info v o,
        at_pause-lt e.now info v o,
      )
  overrun_takes_back e e' info c v o (inr (extra, le, h)) =
      let (_, _, _, d) = extend_duration-Deposited e e' info extra c h in
      (
        _,
        d.stored,
        overrun_streamed e.now info v o,
        extended_streamed e.now extra info v o le,
        at_pause-lt e.now info v o,
      )
