-- ===== src/Stream/Accrual.antt =====
-- contracts/stream/src/math.rs against a closed form of what a stream has earned.
use mathlib.Core.Logic.{◌⊎◌}
use conduit_contracts.Base.{
  ℕ, ◌-◌, ◌*◌, ◌≤◌, ◌<◌, ◌≡◌, false, arith, ltb, ◌==◌, if◌then◌else◌, min, ℤ, pos, pos_part, ◌≤ℤ◌,
  i128_limit, ok, err, checked_mul, checked_sub_u64, pos-*ℤ-pos, pos_of_nonneg, saturating_sub,
  max_ℤ_bounds, -ℤ_parts, +ℤ_parts, ◌+ℤ◌,
}
use conduit_contracts.Stream.Views.{or_zero}
use conduit_contracts.Stream.Storage.{StreamInfo, arithmetic_overflow, is_paused}
use conduit_contracts.Stream.Math.{
  streamed_amount, withdrawable_amount, accrued_until, effective_now,
}

-- The time up to which an unpaused stream has run: `end` is 0 where the stream is open-ended.
abbrev pub clamped : ℕ → ℕ → ℕ
clamped end now = if end == 0 then now else min now end

-- What an unpaused stream has earned by `now`.
abbrev pub entitlement : ℕ → StreamInfo → ℕ
entitlement now info = pos_part info.rate_per_second * (clamped info.end_time now - info.start_time)

-- The terms that `initialize` accepts.
pub record HasTerms (info : StreamInfo) : Type 0 where
  pub rate_positive : pos 1 ≤ℤ info.rate_per_second
  pub bounded : (info.end_time ≡ 0) ⊎ (info.start_time < info.end_time)

pub accrued_until_lem :
    (until : ℕ) (info : StreamInfo)
    → pos 0 ≤ℤ info.rate_per_second
    → info.start_time ≤ until
    → accrued_until until info ≡ (
        let due = pos_part info.rate_per_second * (until - info.start_time) in
        if ltb due i128_limit then ok (pos due) else err arithmetic_overflow)
unfolding accrued_until checked_mul checked_sub_u64
accrued_until_lem until info r h = ground (
  arith,
  pos_of_nonneg info.rate_per_second r,
  pos-*ℤ-pos (pos_part info.rate_per_second) (until - info.start_time),
)

pub accrued_until-ok :
    (until : ℕ) (info : StreamInfo) {s : ℤ}
    → pos 0 ≤ℤ info.rate_per_second
    → accrued_until until info ≡ ok s
    → (info.start_time ≤ until)
      × (s ≡ pos (pos_part info.rate_per_second * (until - info.start_time)))
unfolding accrued_until checked_mul checked_sub_u64
accrued_until-ok until info r h = ground (
  arith,
  pos_of_nonneg info.rate_per_second r,
  pos-*ℤ-pos (pos_part info.rate_per_second) (until - info.start_time),
)

-- For a stream with the terms that `initialize` accepts and that is not paused, the streamed amount
-- is the rate times the time from the start to now or to the end, whichever is earlier (nothing
-- before the start), and an arithmetic overflow exactly if that is 2^127 or more.
pub streamed_amount-entitlement :
    (now : ℕ) (info : StreamInfo)
    → HasTerms info
    → is_paused info ≡ false
    → streamed_amount now info ≡ (
        if ltb (entitlement now info) i128_limit
        then ok (pos (entitlement now info))
        else err arithmetic_overflow)
unfolding streamed_amount effective_now
streamed_amount-entitlement now info h p =
    ground (arith, accrued_until_lem (clamped info.end_time now) info)

pub scale : (r : ℕ) {a b : ℕ} → a ≤ b → r * a ≤ r * b
scale r h = grind arith

entitlement_mono :
    (now later : ℕ) (info : StreamInfo)
    → now ≤ later
    → entitlement now info ≤ entitlement later info
entitlement_mono now later info le = scale (pos_part info.rate_per_second) (ground arith)

entitlement_cap :
    (now : ℕ) (info : StreamInfo)
    → 0 < info.end_time
    → entitlement now info ≤ pos_part info.rate_per_second * (info.end_time - info.start_time)
entitlement_cap now info b = scale (pos_part info.rate_per_second) (ground arith)

-- The end of a bounded stream is also the end of what it earns.
pub streamed_amount_cap :
    (now : ℕ) (info : StreamInfo) {s : ℤ}
    → HasTerms info
    → is_paused info ≡ false
    → 0 < info.end_time
    → streamed_amount now info ≡ ok s
    → s ≤ℤ pos (pos_part info.rate_per_second * (info.end_time - info.start_time))
streamed_amount_cap now info h p b e =
    ground (arith, entitlement_cap now info b, streamed_amount-entitlement now info h p)

pub streamed_amount_mono :
    (now later : ℕ) (info : StreamInfo) {s t : ℤ}
    → HasTerms info
    → is_paused info ≡ false
    → now ≤ later
    → streamed_amount now info ≡ ok s
    → streamed_amount later info ≡ ok t
    → s ≤ℤ t
streamed_amount_mono now later info h p le es et = ground (
  arith,
  entitlement_mono now later info le,
  streamed_amount-entitlement now info h p,
  streamed_amount-entitlement later info h p,
)

-- The withdrawable amount is what has streamed and was not withdrawn, or nothing.
pub withdrawable_amount-ok :
    (now : ℕ) (info : StreamInfo) {available : ℤ}
    → withdrawable_amount now info ≡ ok available
    → (s : ℤ) × (streamed_amount now info ≡ ok s)
      × (pos 0 ≤ℤ available)
      × ((available ≡ pos 0) ⊎ (info.withdrawn +ℤ available ≤ℤ s))
unfolding withdrawable_amount saturating_sub
withdrawable_amount-ok now info {available} h = (
  or_zero (streamed_amount now info),
  ground arith,
  ground (
    arith,
    max_ℤ_bounds (saturating_sub (or_zero (streamed_amount now info)) info.withdrawn) (pos 0),
  ),
  ground (
    arith,
    max_ℤ_bounds (saturating_sub (or_zero (streamed_amount now info)) info.withdrawn) (pos 0),
    -ℤ_parts (or_zero (streamed_amount now info)) info.withdrawn,
    +ℤ_parts info.withdrawn available,
  ),
)
