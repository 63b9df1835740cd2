-- ===== src/Stream/EarlyPause.antt =====
-- A stream of contracts/stream/src/lib.rs that is paused before its start: what becomes of the calls
-- that pay, from the start on.
use conduit_contracts.Base.{
  ℕ, ◌-◌, ◌≤◌, ◌<◌, ◌≡◌, true, false, some, arith, ℤ, pos, ◌≤ℤ◌, ok, err, i128_limit, ◌∙◌,
  checked_sub_u64,
}
use conduit_contracts.Host.{Host}
use conduit_contracts.Stream.Storage.{
  StreamInfo, arithmetic_overflow, is_paused, is_cancelled, is_clawback_enabled,
}
use conduit_contracts.Stream.State.{Env}
use conduit_contracts.Stream.Math.{
  streamed_amount, withdrawable_amount, accrued_until, effective_now,
}
use conduit_contracts.Stream.Accrual.{accrued_until_lem}
use conduit_contracts.Stream.Payments.{withdraw}
use conduit_contracts.Stream.Views.{streamed_total}
use conduit_contracts.Stream.Lifecycle.{pause}
use conduit_contracts.Stream.Settlement.{
  cancel, force_cancel, clawback, settle, pause_threshold_secs,
}
use conduit_contracts.Stream.Flags.{set_paused_cancelled, set_paused_clawback}
use conduit_contracts.Stream.Pausing.{paused_info, pause-Updated, paused_info-is_paused}
use conduit_contracts.Stream.Invariant.{IsValid, contract_value, later-IsValid, paused-IsValid}
use conduit_contracts.Stream.PausedTime.{NotPast}

-- The pause lies before the start, so the elapsed time underflows.
paused_before_start :
    (t : ℕ) (info : StreamInfo)
    → is_paused info ≡ true
    → info.paused_at < info.start_time
    → info.start_time ≤ t
    → NotPast info t
    → streamed_amount t info ≡ err arithmetic_overflow
unfolding streamed_amount effective_now accrued_until checked_sub_u64
paused_before_start t info p q s b = ground arith

past_end :
    (t : ℕ) (info : StreamInfo)
    → IsValid t info
    → 0 < info.end_time
    → info.end_time < t
    → contract_value info < i128_limit
    → streamed_amount t info ≡ ok (pos (contract_value info))
unfolding streamed_amount effective_now
past_end t info v b l f = ground (arith, v, accrued_until_lem info.end_time info)

module _ {L : Type 0} ⦃host : Host L⦄ where
  -- Every call that has to know what has streamed fails with it.
  blocked :
      (e : Env L) (info : StreamInfo)
      → e.store.config ≡ some info
      → is_cancelled info ≡ false
      → is_paused info ≡ true
      → streamed_amount e.now info ≡ err arithmetic_overflow
      → ((amount : ℤ)
          → pos 1 ≤ℤ amount
          → e.auth info.recipient ≡ true
          → withdraw amount e ≡ err arithmetic_overflow)
        × (e.auth info.sender ≡ true → cancel e ≡ err arithmetic_overflow)
        × (e.auth info.recipient ≡ true
            → pause_threshold_secs ≤ e.now - info.paused_at
            → force_cancel e ≡ err arithmetic_overflow)
        × (e.auth info.sender ≡ true
            → is_clawback_enabled info ≡ true
            → clawback e ≡ err arithmetic_overflow)
  unfolding withdraw withdrawable_amount cancel force_cancel clawback settle
  blocked e info c u p s = (
    λ amount a auth. ground arith,
    λ auth. ground arith,
    λ auth waited. ground arith,
    λ auth flag. ground arith,
  )

  -- A valid stream that a successful `pause` stops before its start, with the storage that this
  -- left, at any later time from the start on. Until the end is past (on an open-ended stream: for
  -- good) every call that pays fails with `ArithmeticOverflow`, though the party responsible signed
  -- it: `withdraw` of a positive amount, `cancel`, `force_cancel` after 30 days of pause, and
  -- `clawback` with the flag; the view shows 0. Once the end of a bounded stream whose value fits an
  -- `i128` is past, the view shows that whole value.
  pub early_pause_blocks :
      (e e₁ e₂ : Env L) (info : StreamInfo)
      → e.store.config ≡ some info
      → IsValid e.now info
      → pause e ≡ ok (tt, e₁)
      → e.now < info.start_time
      → e₂.store ≡ e₁.store
      → info.start_time ≤ e₂.now
      → (NotPast info e₂.now
          → ((amount : ℤ)
              → pos 1 ≤ℤ amount
              → e₂.auth info.recipient ≡ true
              → withdraw amount e₂ ≡ err arithmetic_overflow)
            × (e₂.auth info.sender ≡ true → cancel e₂ ≡ err arithmetic_overflow)
            × (e₂.auth info.recipient ≡ true
                → pause_threshold_secs ≤ e₂.now - e.now
                → force_cancel e₂ ≡ err arithmetic_overflow)
            × (e₂.auth info.sender ≡ true
                → is_clawback_enabled info ≡ true
                → clawback e₂ ≡ err arithmetic_overflow)
            × (streamed_total e₂ ≡ ok (pos 0, e₂)))
        × (0 < info.end_time
            → info.end_time < e₂.now
            → contract_value info < i128_limit
            → streamed_total e₂ ≡ ok (pos (contract_value info), e₂))
  unfolding streamed_total is_cancelled is_clawback_enabled
  early_pause_blocks e e₁ e₂ info c v h early same started =
      let (u, up) = pause-Updated e e₁ info c h in
      let halted = paused_info e.now info in
      let stored : e₂.store.config ≡ some halted = rw same up.stored in
      let set = set_paused_cancelled info.flags v.flag_word in
      let on = paused_info-is_paused e.now info v.flag_word in
      let running : is_cancelled halted ≡ false = set.kept ∙ up.uncancelled in
      let valid = later-IsValid e.now e₂.now halted (omega arith) (paused-IsValid e.now info v) in
      (
        λ b.
            let fails = paused_before_start e₂.now halted on early started b in
            let (w, x, f, k) = blocked e₂ halted stored running on fails in
            (
              w,
              x,
              f,
              λ auth flag. k auth ((set_paused_clawback info.flags v.flag_word).kept ∙ flag),
              ground (arith, stored, running, fails),
            ),
        λ bounded past fits.
            let all = past_end e₂.now halted valid bounded past fits in
            ground (arith, stored, running, all),
      )
