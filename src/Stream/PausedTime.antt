-- ===== src/Stream/PausedTime.antt =====
-- What a pause, and a pause followed by a resume, do to the amount that `streamed_amount` of
-- contracts/stream/src/math.rs reports at later times.
use conduit_contracts.Base.{ℕ, ◌-◌, ◌≤◌, ◌<◌, ◌≡◌, ◌⊎◌, refl, true, false, some, arith, ok}
use conduit_contracts.Host.{Host}
use conduit_contracts.Stream.Storage.{StreamInfo, is_paused}
use conduit_contracts.Stream.State.{Env}
use conduit_contracts.Stream.Math.{streamed_amount, accrued_until, effective_now}
use conduit_contracts.Stream.Lifecycle.{pause, resume}
use conduit_contracts.Stream.Flags.{flag_limit}
use conduit_contracts.Stream.Pausing.{
  paused_info, resumed_info, pause-Updated, resume-Updated, streamed_amount-resumed,
  paused_info-is_paused,
}

-- The end of the stream, where it has one, is not before `t`.
abbrev pub NotPast : StreamInfo → ℕ → Type 0
NotPast info t = (info.end_time ≡ 0) ⊎ (t ≤ info.end_time)

streamed_amount-paused :
    (p t : ℕ) (info : StreamInfo)
    → info.flags < flag_limit
    → is_paused info ≡ false
    → info.start_time ≤ p
    → p ≤ t
    → NotPast info t
    → streamed_amount t (paused_info p info) ≡ streamed_amount p info
unfolding streamed_amount effective_now accrued_until
streamed_amount-paused p t info f u s pt b = ground (arith, paused_info-is_paused p info f)

module _ {L : Type 0} ⦃host : Host L⦄ where
  -- After a successful `pause` of a stream that has started, what has streamed stays what it was
  -- at the pause, at every later time up to the end of the stream.
  pub pause_freezes :
      (e e' : Env L) (info : StreamInfo) (t : ℕ)
      → e.store.config ≡ some info
      → info.flags < flag_limit
      → pause e ≡ ok (tt, e')
      → info.start_time ≤ e.now
      → e.now ≤ t
      → NotPast info t
      → (after : StreamInfo) × (e'.store.config ≡ some after)
        × (streamed_amount t after ≡ streamed_amount e.now info)
  pause_freezes e e' info t c f h s le b =
      let (u, up) = pause-Updated e e' info c h in
      (paused_info e.now info, up.stored, streamed_amount-paused e.now t info f u s le b)

  -- A stream that is paused, and resumed in a later call on the storage that the pause left, has
  -- from then on streamed what the stream without a pause had streamed earlier by the length of
  -- the pause; what was withdrawn and who is paid stay the same.
  pub resume_excludes_pause :
      (e e₁ e₂ e₃ : Env L) (info : StreamInfo)
      → e.store.config ≡ some info
      → info.flags < flag_limit
      → pause e ≡ ok (tt, e₁)
      → e₂.store ≡ e₁.store
      → e.now ≤ e₂.now
      → resume e₂ ≡ ok (tt, e₃)
      → (after : StreamInfo) × (e₃.store.config ≡ some after)
        × (after.withdrawn ≡ info.withdrawn)
        × (after.recipient ≡ info.recipient)
        × ((t : ℕ)
            → e₂.now ≤ t
            → streamed_amount t after ≡ streamed_amount (t - (e₂.now - e.now)) info)
  resume_excludes_pause e e₁ e₂ e₃ info c f h same le k =
      let (u, up) = pause-Updated e e₁ info c h in
      let stored : e₂.store.config ≡ some (paused_info e.now info) = rw same up.stored in
      let (_, _, up') = resume-Updated e₂ e₃ (paused_info e.now info) stored k in
      (
        resumed_info e₂.now (paused_info e.now info),
        up'.stored,
        refl,
        refl,
        λ t later. streamed_amount-resumed e.now e₂.now t info f u le later,
      )

-- A stream that was paused before its end counts, once its end is past, as if it had run to its
-- end: the pause is forgotten.
paused_past_end :
    (t : ℕ) (info : StreamInfo)
    → is_paused info ≡ true
    → 0 < info.end_time
    → info.start_time ≤ info.end_time
    → info.paused_at < info.end_time
    → info.end_time < t
    → streamed_amount t info ≡ accrued_until info.end_time info
unfolding streamed_amount effective_now
paused_past_end t info p b s q l = ground arith
