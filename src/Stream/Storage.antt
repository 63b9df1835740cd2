-- ===== src/Stream/Storage.antt =====
-- contracts/stream/src/storage.rs, errors.rs and the event payloads of events.rs: the stored data.
use Prim.Native.Nat.{bit_and}
use conduit_contracts.Base.{ℕ, ◌==◌, Bool, not, Option, none, ℤ}
use conduit_contracts.Host.{Address}

abbrev pub flag_paused : ℕ
flag_paused = 1

abbrev pub flag_clawback_enabled : ℕ
flag_clawback_enabled = 2

abbrev pub flag_cancelled : ℕ
flag_cancelled = 4

pub data Error : Type 0 where
  not_authorized stream_not_found stream_cancelled stream_not_started stream_ended : Error
  nothing_to_withdraw insufficient_deposit invalid_time_range already_paused not_paused : Error
  clawback_disabled arithmetic_overflow pause_threshold_not_met already_initialized : Error
  invalid_amount : Error

-- The times are `u64`, the flags `u32`, the amounts `i128`.
pub record StreamInfo : Type 0 where
  pub sender : Address
  pub recipient : Address
  pub token : Address
  pub rate_per_second : ℤ
  pub start_time : ℕ
  pub end_time : ℕ
  pub withdrawn : ℤ
  pub paused_at : ℕ
  pub flags : ℕ

unfoldable pub is_paused : StreamInfo → Bool
is_paused info = not (bit_and info.flags flag_paused == 0)

unfoldable pub is_cancelled : StreamInfo → Bool
is_cancelled info = not (bit_and info.flags flag_cancelled == 0)

unfoldable pub is_clawback_enabled : StreamInfo → Bool
is_clawback_enabled info = not (bit_and info.flags flag_clawback_enabled == 0)

-- Instance storage, with a field for each `DataKey`; `none` is a key that was never set.
pub record Store : Type 0 where
  pub sender : Option Address
  pub recipient : Option Address
  pub token : Option Address
  pub rate_per_second : Option ℤ
  pub start_time : Option ℕ
  pub end_time : Option ℕ
  pub withdrawn : Option ℤ
  pub paused_at : Option ℕ
  pub flags : Option ℕ
  pub clawback_enabled : Option Bool
  pub cancelled : Option Bool
  pub config : Option StreamInfo
  pub event_sequence : Option ℕ

-- The storage of a contract that was just deployed.
abbrev pub empty_store : Store
empty_store = record {
  sender = none;
  recipient = none;
  token = none;
  rate_per_second = none;
  start_time = none;
  end_time = none;
  withdrawn = none;
  paused_at = none;
  flags = none;
  clawback_enabled = none;
  cancelled = none;
  config = none;
  event_sequence = none;
}

-- A published event: its subject, its sequence number, and its payload.
pub data Event : Type 0 where
  withdrawn : Address → ℕ → ℤ → ℤ → ℤ → Event
  cancelled : Address → ℕ → ℤ → ℤ → Event
  paused : Address → ℕ → ℕ → ℤ → Event
  resumed : Address → ℕ → ℕ → Event
  topped_up : Address → ℕ → ℤ → ℤ → Event
  clawback : Address → ℕ → ℤ → Event
  recipient_transferred : Address → ℕ → Address → Event
