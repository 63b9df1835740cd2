-- ===== src/Stream/Pausing.antt =====
-- `pause` and `resume` of contracts/stream/src/lib.rs: what they change, and what a pause does to
-- the amount that has streamed.
use Prim.Native.Nat.{bit_and, bit_or}
use conduit_contracts.Base.{
  ℕ, ◌+◌, ◌-◌, ◌≤◌, ◌<◌, ◌≡◌, true, false, some, arith, ltb, if◌then◌else◌, u32_limit, ok,
  checked_sub_u64, checked_add_u64,
}
use conduit_contracts.Host.{Host}
use conduit_contracts.Stream.Storage.{StreamInfo, flag_paused, is_paused, is_cancelled}
use conduit_contracts.Stream.State.{Env}
use conduit_contracts.Stream.Math.{streamed_amount, accrued_until, effective_now}
use conduit_contracts.Stream.Lifecycle.{pause, resume}
use conduit_contracts.Stream.Flags.{flag_limit, set_paused_cancelled, clear_paused_cancelled}

abbrev pub paused_info : ℕ → StreamInfo → StreamInfo
paused_info now info = record info { flags = bit_or info.flags flag_paused; paused_at = now }

abbrev pub resumed_info : ℕ → StreamInfo → StreamInfo
resumed_info now info = record info {
  start_time = info.start_time + (now - info.paused_at);
  end_time = if ltb 0 info.end_time then info.end_time + (now - info.paused_at) else info.end_time;
  paused_at = 0;
  flags = bit_and info.flags (u32_limit - 1 - flag_paused);
}

module _ {L : Type 0} ⦃host : Host L⦄ where
  -- What a call that kept the balances, and was made by the sender of an uncancelled stream, did.
  pub record Updated (e e' : Env L) (before after : StreamInfo) : Type 0 where
    pub uncancelled : is_cancelled before ≡ false
    pub by_sender : e.auth before.sender ≡ true
    pub stored : e'.store.config ≡ some after
    pub same_ledger : e'.ledger ≡ e.ledger
    pub same_time : e'.now ≡ e.now

  pub pause-Updated :
      (e e' : Env L) (info : StreamInfo)
      → e.store.config ≡ some info
      → pause e ≡ ok (tt, e')
      → (is_paused info ≡ false) × Updated e e' info (paused_info e.now info)
  unfolding pause
  pause-Updated e e' info c h = ground arith

  pub resume-Updated :
      (e e' : Env L) (info : StreamInfo)
      → e.store.config ≡ some info
      → resume e ≡ ok (tt, e')
      → (is_paused info ≡ true)
        × (info.paused_at ≤ e.now)
        × Updated e e' info (resumed_info e.now info)
  unfolding resume checked_sub_u64 checked_add_u64
  resume-Updated e e' info c h = ground arith

pub paused_info-is_paused :
    (now : ℕ) (info : StreamInfo)
    → info.flags < flag_limit
    → is_paused (paused_info now info) ≡ true
unfolding is_paused
paused_info-is_paused now info h = (set_paused_cancelled info.flags h).now_set

pub resumed_info-is_paused :
    (now : ℕ) (info : StreamInfo)
    → info.flags < flag_limit
    → is_paused (resumed_info now info) ≡ false
unfolding is_paused
resumed_info-is_paused now info h = (clear_paused_cancelled info.flags h).now_clear

-- Shifting both times of a stream shifts what it streams.
accrued_until-shift :
    (d until : ℕ) (info later : StreamInfo)
    → later.start_time ≡ info.start_time + d
    → later.rate_per_second ≡ info.rate_per_second
    → accrued_until (until + d) later ≡ accrued_until until info
unfolding accrued_until checked_sub_u64
accrued_until-shift d until info later s r = rw (s, r) (ground arith)

pub streamed_amount-resumed :
    (p n t : ℕ) (info : StreamInfo)
    → info.flags < flag_limit
    → is_paused info ≡ false
    → p ≤ n
    → n ≤ t
    → streamed_amount t (resumed_info n (paused_info p info)) ≡ streamed_amount (t - (n - p)) info
unfolding streamed_amount effective_now
streamed_amount-resumed p n t info f u pn nt = ground (
  arith,
  resumed_info-is_paused n (paused_info p info) (set_paused_cancelled info.flags f).in_range,
  accrued_until-shift (n - p) (t - (n - p)) info (resumed_info n (paused_info p info)),
  accrued_until-shift (n - p) info.end_time info (resumed_info n (paused_info p info)),
)
