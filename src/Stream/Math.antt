-- ===== src/Stream/Math.antt =====
-- contracts/stream/src/math.rs: what has streamed, and what can be withdrawn.
use conduit_contracts.Base.{
  ℕ, ◌&&◌, if◌then◌else◌, ltb, none, some, ℤ, pos, max_ℤ, Outcome, ok, err, panic, trap,
  checked_mul, checked_sub_u64, saturating_sub,
}
use conduit_contracts.Stream.Storage.{StreamInfo, Error, arithmetic_overflow, is_paused}

-- `effective_now`: the clamp to the end, else the freeze at the pause.
unfoldable pub effective_now : ℕ → StreamInfo → ℕ
unfolding is_paused
effective_now now info =
    if ltb 0 info.end_time && ltb info.end_time now
    then info.end_time
    else if is_paused info
    then info.paused_at
    else now

-- `rate × elapsed`, with both steps checked.
unfoldable pub accrued_until : ℕ → StreamInfo → Outcome Error ℤ
accrued_until until info = elim (checked_sub_u64 until info.start_time) [
  | none ↦ err arithmetic_overflow
  | some elapsed ↦ elim (checked_mul info.rate_per_second (pos elapsed)) [
    | none ↦ err arithmetic_overflow
    | some streamed ↦ ok streamed
  ]
]

unfoldable pub streamed_amount : ℕ → StreamInfo → Outcome Error ℤ
unfolding effective_now accrued_until
streamed_amount now info =
    if ltb now info.start_time then ok (pos 0) else accrued_until (effective_now now info) info

unfoldable pub withdrawable_amount : ℕ → StreamInfo → Outcome Error ℤ
unfolding streamed_amount
withdrawable_amount now info = elim (streamed_amount now info) [
  | ok streamed ↦ ok (max_ℤ (saturating_sub streamed info.withdrawn) (pos 0))
  | err e ↦ err e
  | panic e ↦ panic e
  | trap t ↦ trap t
]
