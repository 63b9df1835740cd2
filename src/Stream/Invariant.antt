-- ===== src/Stream/Invariant.antt =====
-- What holds of a stream's stored state between any two calls of contracts/stream/src/lib.rs.
use Prim.Native.Nat.{bit_or}
use conduit_contracts.Base.{
  ℕ, ◌+◌, ◌-◌, ◌*◌, ◌≤◌, ◌<◌, ◌≡◌, ◌⊎◌, true, arith, ℤ, pos, pos_part, ◌≤ℤ◌, ok, ◌+ℤ◌, +ℤ_parts,
}
use conduit_contracts.Host.{Address}
use conduit_contracts.Stream.Storage.{StreamInfo, is_paused, flag_cancelled}
use conduit_contracts.Stream.Accrual.{accrued_until-ok, scale}
use conduit_contracts.Stream.Math.{streamed_amount, effective_now, accrued_until}
use conduit_contracts.Stream.Flags.{
  flag_limit, set_paused_cancelled, clear_paused_cancelled, set_cancelled_paused,
}
use conduit_contracts.Stream.Pausing.{paused_info, resumed_info}
use conduit_contracts.Stream.Funding.{extended}

-- All that a bounded stream can ever earn.
abbrev pub contract_value : StreamInfo → ℕ
contract_value info = pos_part info.rate_per_second * (info.end_time - info.start_time)

pub record IsValid (now : ℕ) (info : StreamInfo) : Type 0 where
  pub rate_positive : pos 1 ≤ℤ info.rate_per_second
  pub bounded : (info.end_time ≡ 0) ⊎ (info.start_time < info.end_time)
  pub flag_word : info.flags < flag_limit
  pub paused_in_past : is_paused info ≡ true → info.paused_at ≤ now
  pub withdrawn_nonneg : pos 0 ≤ℤ info.withdrawn
  pub within_value : 0 < info.end_time → info.withdrawn ≤ℤ pos (contract_value info)

accrued_until-le :
    (until : ℕ) (info : StreamInfo) {s : ℤ}
    → pos 0 ≤ℤ info.rate_per_second
    → accrued_until until info ≡ ok s
    → until ≤ info.end_time
    → s ≤ℤ pos (contract_value info)
accrued_until-le until info {s} r h le =
    let (started, s_is) = accrued_until-ok until info r h in
    let bound =
      scale (pos_part info.rate_per_second) {a = until - info.start_time}
        {b = info.end_time - info.start_time} (omega arith) in
    rw s_is (omega arith)

pub streamed_amount-le-contract_value :
    (now : ℕ) (info : StreamInfo) {s : ℤ}
    → IsValid now info
    → 0 < info.end_time
    → streamed_amount now info ≡ ok s
    → s ≤ℤ pos (contract_value info)
unfolding streamed_amount effective_now
streamed_amount-le-contract_value now info {s} v b h = ground (
  arith,
  λ (e : accrued_until info.end_time info ≡ ok s).
      accrued_until-le info.end_time info (omega (arith, v)) e (omega arith),
  λ (e : accrued_until info.paused_at info ≡ ok s) (le : info.paused_at ≤ info.end_time).
      accrued_until-le info.paused_at info (omega (arith, v)) e le,
  λ (e : accrued_until now info ≡ ok s) (le : now ≤ info.end_time).
      accrued_until-le now info (omega (arith, v)) e le,
)

-- Each change that a call makes to the stored state keeps it valid.
pub withdrawn-IsValid :
    (now : ℕ) (info : StreamInfo) (sent s : ℤ)
    → IsValid now info
    → pos 0 ≤ℤ sent
    → info.withdrawn +ℤ sent ≤ℤ s
    → streamed_amount now info ≡ ok s
    → IsValid now (record info { withdrawn = info.withdrawn +ℤ sent })
unfolding is_paused
withdrawn-IsValid now info sent s v p le h = ground (
  arith,
  +ℤ_parts info.withdrawn sent,
  λ (b : 0 < info.end_time). streamed_amount-le-contract_value now info v b h,
)

pub paused-IsValid :
    (now : ℕ) (info : StreamInfo) → IsValid now info → IsValid now (paused_info now info)
unfolding is_paused
paused-IsValid now info v = ground (arith, set_paused_cancelled info.flags v.flag_word)

pub resumed-IsValid :
    (now : ℕ) (info : StreamInfo) → IsValid now info → IsValid now (resumed_info now info)
unfolding is_paused
resumed-IsValid now info v = ground (
  arith,
  clear_paused_cancelled info.flags v.flag_word,
  scale (pos_part info.rate_per_second) {a = info.end_time - info.start_time}
      {b = info.end_time + (now - info.paused_at) - (info.start_time + (now - info.paused_at))}
      (omega arith),
)

pub extended-IsValid :
    (now extra : ℕ) (info : StreamInfo)
    → 0 < info.end_time
    → IsValid now info
    → IsValid now (extended extra info)
unfolding is_paused
extended-IsValid now extra info b v = ground (
  arith,
  scale (pos_part info.rate_per_second) {a = info.end_time - info.start_time}
      {b = info.end_time + extra - info.start_time} (omega arith),
)

pub handed_over-IsValid :
    (now : ℕ) (info : StreamInfo) (to : Address)
    → IsValid now info
    → IsValid now (record info { recipient = to })
unfolding is_paused
handed_over-IsValid now info to v = ground arith

pub cancelled-IsValid :
    (now : ℕ) (info : StreamInfo)
    → IsValid now info
    → IsValid now (record info { flags = bit_or info.flags flag_cancelled })
unfolding is_paused
cancelled-IsValid now info v = ground (arith, set_cancelled_paused info.flags v.flag_word)

-- The passing of time keeps a state valid.
pub later-IsValid :
    (now later : ℕ) (info : StreamInfo) → now ≤ later → IsValid now info → IsValid later info
later-IsValid now later info le v = record {
  rate_positive = v.rate_positive;
  bounded = v.bounded;
  flag_word = v.flag_word;
  paused_in_past = λ p. omega (arith, v.paused_in_past p);
  withdrawn_nonneg = v.withdrawn_nonneg;
  within_value = v.within_value;
}
