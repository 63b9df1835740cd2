-- ===== src/Stream/Setup.antt =====
-- contracts/stream/src/lib.rs: `initialize`.
use Prim.Native.Nat.{bit_or}
use conduit_contracts.Base.{
  ℕ, Bool, ◌&&◌, if◌then◌else◌, ltb, leb, leb_ℤ, none, some, ℤ, pos, panic_if, modify, ◌>>◌, Option,
  true, false,
}
use conduit_contracts.Host.{Address, Host}
use conduit_contracts.Stream.Storage.{
  StreamInfo, Store, already_initialized, invalid_amount, invalid_time_range, flag_clawback_enabled,
}
use conduit_contracts.Stream.State.{Call, bump, save}

abbrev pub has : {A : Type 0} → Option A → Bool
has o = elim o [ some a ↦ true | none ↦ false ]

-- The writes of the separate keys that stand before the consolidated save.
abbrev pub first_writes : StreamInfo → Store → Store
first_writes info s = record s {
  sender = some info.sender;
  recipient = some info.recipient;
  token = some info.token;
  rate_per_second = some info.rate_per_second;
  start_time = some info.start_time;
  end_time = some info.end_time;
  withdrawn = some (pos 0);
  paused_at = some 0;
  flags = some info.flags;
  event_sequence = some 0;
}

abbrev pub initial_info : Address → Address → Address → ℤ → ℕ → ℕ → Bool → StreamInfo
initial_info sender recipient token rate start end clawback_enabled = record {
  sender = sender;
  recipient = recipient;
  token = token;
  rate_per_second = rate;
  start_time = start;
  end_time = end;
  withdrawn = pos 0;
  paused_at = 0;
  flags = if clawback_enabled then bit_or 0 flag_clawback_enabled else 0;
}

module _ {L : Type 0} ⦃host : Host L⦄ where
  unfoldable pub initialize : Address → Address → Address → ℤ → ℕ → ℕ → Bool → Call L (Unit {0})
  unfolding bump save
  initialize sender recipient token rate start end clawback_enabled e =
      let info = initial_info sender recipient token rate start end clawback_enabled in
      (do
        panic_if (has e.store.config) already_initialized
        panic_if (leb_ℤ rate (pos 0)) invalid_amount
        panic_if (ltb 0 end && leb end start) invalid_time_range
        bump
        modify (λ e'. record e' { store = first_writes info e'.store })
        save info)
        e
