-- ===== src/Stream/Earnings.antt =====
-- The time that a stream of contracts/stream/src/math.rs has run, on both sides of each change that
-- a call makes to the stored state.
use Prim.Native.Nat.{bit_or}
use conduit_contracts.Base.{
  ℕ, ◌-◌, ◌*◌, ◌≤◌, ◌<◌, ◌≡◌, true, arith, ltb, if◌then◌else◌, ℤ, pos, pos_part, ◌≤ℤ◌, ok,
}
use conduit_contracts.Stream.Storage.{StreamInfo, is_paused, flag_cancelled}
use conduit_contracts.Stream.Math.{streamed_amount, effective_now, accrued_until}
use conduit_contracts.Stream.Accrual.{accrued_until-ok, scale}
use conduit_contracts.Stream.Flags.{set_cancelled_paused}
use conduit_contracts.Stream.Pausing.{
  paused_info, resumed_info, paused_info-is_paused, resumed_info-is_paused,
}
use conduit_contracts.Stream.Funding.{extended}
use conduit_contracts.Stream.Invariant.{IsValid}

-- The seconds that count towards the recipient at `now`.
unfoldable pub time_run : ℕ → StreamInfo → ℕ
unfolding effective_now
time_run now info = if ltb now info.start_time then 0 else effective_now now info - info.start_time

pub streamed_amount-time_run :
    (now : ℕ) (info : StreamInfo) {s : ℤ}
    → pos 0 ≤ℤ info.rate_per_second
    → streamed_amount now info ≡ ok s
    → s ≡ pos (pos_part info.rate_per_second * time_run now info)
unfolding streamed_amount time_run effective_now
streamed_amount-time_run now info {s} r h = ground (
  arith,
  λ (e : accrued_until info.end_time info ≡ ok s). accrued_until-ok info.end_time info r e,
  λ (e : accrued_until info.paused_at info ≡ ok s). accrued_until-ok info.paused_at info r e,
  λ (e : accrued_until now info ≡ ok s). accrued_until-ok now info r e,
)

-- A stream that was paused before its end is not past its end at `t`.
abbrev pub NotOverrun : ℕ → StreamInfo → Type 0
NotOverrun t info =
    is_paused info ≡ true → 0 < info.end_time → info.paused_at < info.end_time → t ≤ info.end_time

pub later-time_run :
    (now later : ℕ) (info : StreamInfo)
    → now ≤ later
    → IsValid now info
    → time_run now info ≤ time_run later info
unfolding time_run effective_now
later-time_run now later info le v = ground arith

pub paused-time_run :
    (now : ℕ) (info : StreamInfo)
    → IsValid now info
    → time_run now info ≤ time_run now (paused_info now info)
unfolding time_run effective_now
paused-time_run now info v = ground (arith, paused_info-is_paused now info v.flag_word)

pub resumed-time_run :
    (now : ℕ) (info : StreamInfo)
    → IsValid now info
    → is_paused info ≡ true
    → NotOverrun now info
    → time_run now info ≤ time_run now (resumed_info now info)
unfolding time_run effective_now
resumed-time_run now info v p o = ground (arith, resumed_info-is_paused now info v.flag_word)

pub extended-time_run :
    (now extra : ℕ) (info : StreamInfo)
    → 0 < info.end_time
    → IsValid now info
    → NotOverrun now info
    → time_run now info ≤ time_run now (extended extra info)
unfolding time_run effective_now is_paused
extended-time_run now extra info b v o = ground arith

pub cancelled-time_run :
    (now : ℕ) (info : StreamInfo)
    → IsValid now info
    → time_run now info ≤ time_run now (record info { flags = bit_or info.flags flag_cancelled })
unfolding time_run effective_now is_paused
cancelled-time_run now info v = ground (arith, set_cancelled_paused info.flags v.flag_word)

-- What has streamed is no less where the time run is no less.
pub streamed_amount-le :
    (now later : ℕ) (info after : StreamInfo) {s s' : ℤ}
    → pos 0 ≤ℤ info.rate_per_second
    → after.rate_per_second ≡ info.rate_per_second
    → time_run now info ≤ time_run later after
    → streamed_amount now info ≡ ok s
    → streamed_amount later after ≡ ok s'
    → s ≤ℤ s'
streamed_amount-le now later info after r same le h h' = ground (
  arith,
  same,
  scale (pos_part info.rate_per_second) le,
  streamed_amount-time_run now info r h,
  streamed_amount-time_run later after (rw same r) h',
)
