-- ===== src/Stream/State.antt =====
-- contracts/stream/src/state.rs and ttl.rs: the environment of a call, and how the stream's state
-- is loaded and saved.
use Prim.Native.Nat.{bit_and, bit_or}
use mathlib.Core.Option
use conduit_contracts.Base.{
  ℕ, ◌-◌, Bool, false, none, some, if◌then◌else◌, List, ℤ, pos, u32_limit, ok, trap, fail_if,
  Action, unauthorized, overflow, missing_entry, token_failed, gets, modify, trap_unless, or_trap,
  pure, checked_sub, ◌>>=◌,
}
use conduit_contracts.Host.{Address, Host}
use conduit_contracts.Stream.Storage.{
  StreamInfo, Store, Event, Error, stream_cancelled, flag_paused, flag_clawback_enabled,
  flag_cancelled, is_cancelled,
}

-- What a call sees: the ledger's timestamp, its own address, who authorized the invocation, its
-- instance storage and that storage's time to live, the token contracts, and the events so far,
-- the latest first.
pub record Env (L : Type 0) : Type 0 where
  pub now : ℕ
  pub self : Address
  pub auth : Address → Bool
  pub store : Store
  pub ttl : ℕ
  pub ledger : L
  pub events : List Event

abbrev pub Call : Type 0 → Type 0 → Type 0
Call L A = Action (Env L) Error A

abbrev pub ttl_threshold : ℕ
ttl_threshold = 100_000

abbrev pub ttl_extend_to : ℕ
ttl_extend_to = 200_000

-- The flags that the legacy keys stand for.
abbrev pub legacy_flags : Store → ℕ
legacy_flags s =
    let flags = Option.get_or s.flags 0 in
    let with_clawback : ℕ =
      if Option.get_or s.clawback_enabled false
      then bit_or flags flag_clawback_enabled
      else flags in
    if Option.get_or s.cancelled false then bit_or with_clawback flag_cancelled else with_clawback

-- `save` writes the consolidated key and every legacy key.
unfoldable pub saved : StreamInfo → Store → Store
saved info s = record s {
  config = some info;
  sender = some info.sender;
  recipient = some info.recipient;
  token = some info.token;
  rate_per_second = some info.rate_per_second;
  start_time = some info.start_time;
  end_time = some info.end_time;
  withdrawn = some info.withdrawn;
  paused_at = some info.paused_at;
  flags = some info.flags;
}

module _ {L : Type 0} where
  -- The legacy path of `load`: each field from its own key, `unwrap` where there is no default.
  unfoldable pub load_legacy : Call L StreamInfo
  load_legacy e =
      (do
        sender ← or_trap e.store.sender missing_entry
        recipient ← or_trap e.store.recipient missing_entry
        token ← or_trap e.store.token missing_entry
        rate ← or_trap e.store.rate_per_second missing_entry
        start ← or_trap e.store.start_time missing_entry
        end ← or_trap e.store.end_time missing_entry
        pure (record {
          sender = sender;
          recipient = recipient;
          token = token;
          rate_per_second = rate;
          start_time = start;
          end_time = end;
          withdrawn = Option.get_or e.store.withdrawn (pos 0);
          paused_at = Option.get_or e.store.paused_at 0;
          flags = legacy_flags e.store;
        }))
        e

  unfoldable pub load : Call L StreamInfo
  load e = elim e.store.config [ some info ↦ ok (info, e) | none ↦ load_legacy e ]

  unfoldable pub save : StreamInfo → Call L (Unit {0})
  unfolding saved
  save info = modify λ e. record e { store = saved info e.store }

  unfoldable pub save_withdrawn : ℤ → Call L (Unit {0})
  unfolding load save
  save_withdrawn amount = do info ← load; save (record info { withdrawn = amount })

  unfoldable pub set_paused : Bool → Call L (Unit {0})
  unfolding load save
  set_paused paused = do
    info ← load
    save (record info {
      flags =
          if paused
          then bit_or info.flags flag_paused
          else bit_and info.flags (u32_limit - 1 - flag_paused);
    })

  unfoldable pub set_cancelled : Call L (Unit {0})
  unfolding load save
  set_cancelled = do info ← load; save (record info { flags = bit_or info.flags flag_cancelled })

  unfoldable pub assert_not_cancelled : StreamInfo → Call L (Unit {0})
  unfolding is_cancelled
  assert_not_cancelled info = fail_if (is_cancelled info) stream_cancelled

  -- `address.require_auth()`.
  abbrev pub require_auth : Address → Call L (Unit {0})
  require_auth a e = trap_unless (e.auth a) unauthorized e

  -- Plain `a - b` on `i128`, which traps on overflow.
  abbrev pub minus : ℤ → ℤ → Call L ℤ
  minus a b = or_trap (checked_sub a b) overflow

  module _ ⦃host : Host L⦄ where
    -- ttl.rs
    unfoldable pub bump : Call L (Unit {0})
    bump = modify λ e. record e { ttl = host.extend_ttl ttl_threshold ttl_extend_to e.ttl }

    -- `token::Client::balance`, of the contract itself.
    abbrev pub own_balance : Address → Call L ℤ
    own_balance token = gets λ e. host.balance e.ledger token e.self

    -- `token::Client::transfer`; a refusal traps.
    abbrev pub transfer : Address → Address → Address → ℤ → Call L (Unit {0})
    transfer token from to amount e = elim (host.transfer e.ledger token from to amount) [
      | none ↦ trap token_failed
      | some ledger ↦ ok (tt, record e { ledger = ledger })
    ]
