-- ===== src/Factory/Storage.antt =====
-- contracts/factory/src/storage.rs, errors.rs, events.rs and pause.rs: the stored data, and the
-- state of a call.
use mathlib.Core.Option
use conduit_contracts.Base.{
  ℕ, ◌==◌, Bool, false, if◌then◌else◌, Option, none, some, List, ◌∷◌, ℤ, Action, gets, modify, trap,
  ok, trap_unless, unauthorized, token_failed,
}
use conduit_contracts.Host.{Address, Host}
use conduit_contracts.Governor.Storage.{Store as GovernorStore}
use conduit_contracts.Stream.Storage.{Store as StreamStore}

pub data Error : Type 0 where
  not_initialized invalid_deposit invalid_rate invalid_time_range insufficient_deposit : Error
  backdated_stream already_initialized rate_exceeds_max duration_too_short : Error
  arithmetic_overflow contract_paused already_paused not_paused duration_exceeds_max : Error
  governor_not_responding empty_batch batch_too_large invalid_signature nonce_already_used : Error
  network_mismatch signature_expired : Error

-- A map, and its update at one key.
abbrev pub at : {V : Type 0} → (ℕ → V) → ℕ → V → ℕ → V
at f k v j = if j == k then v else f j

-- The instance entries as options, `none` for a key that was never set; each persistent entry as a
-- map from the keys' arguments, with the entries' times to live beside it.
-- The key `SignatureNonce` has no field: no code reads or writes it.
pub record Store : Type 0 where
  pub stream_count : Option ℕ
  pub stream_wasm_hash : Option ℕ
  pub governor_address : Option Address
  pub paused : Option Bool
  pub last_bumped_id : Option ℕ
  pub stream_addr : ℕ → Option Address
  pub by_sender : Address → Option (List ℕ)
  pub by_recipient : Address → Option (List ℕ)
  pub stream_addr_ttl : ℕ → ℕ
  pub by_sender_ttl : Address → ℕ
  pub by_recipient_ttl : Address → ℕ

-- A deployed stream contract: its code and its storage.
pub record Instance : Type 0 where
  pub code : ℕ
  pub store : StreamStore

pub data Event : Type 0 where
  paused unpaused : Address → ℕ → Event

-- What a call sees: the ledger's timestamp, its own address, who authorized the invocation, its
-- storage and instance time to live, the token contracts, the deployed governors and streams, and
-- the events so far, the latest first.
pub record Env (L : Type 0) : Type 0 where
  pub now : ℕ
  pub self : Address
  pub auth : Address → Bool
  pub store : Store
  pub ttl : ℕ
  pub ledger : L
  pub governors : Address → Option GovernorStore
  pub streams : Address → Option Instance
  pub events : List Event

abbrev pub Call : Type 0 → Type 0 → Type 0
Call L A = Action (Env L) Error A

module _ {L : Type 0} where
  abbrev pub update : (Store → Store) → Call L (Unit {0})
  update f = modify λ e. record e { store = f e.store }

  abbrev pub require_auth : Address → Call L (Unit {0})
  require_auth a e = trap_unless (e.auth a) unauthorized e

  -- pause.rs
  unfoldable pub is_paused : Call L Bool
  is_paused = gets λ e. Option.get_or e.store.paused false

  unfoldable pub set_paused : Bool → Call L (Unit {0})
  set_paused flag = update λ s. record s { paused = some flag }

  -- `env.events().publish`
  unfoldable pub publish : Event → Call L (Unit {0})
  publish event = modify λ e. record e { events = event ∷ e.events }

  abbrev pub transfer : ⦃host : Host L⦄ → Address → Address → Address → ℤ → Call L (Unit {0})
  transfer ⦃host⦄ token from to amount e = elim (host.transfer e.ledger token from to amount) [
    | none ↦ trap token_failed
    | some ledger ↦ ok (tt, record e { ledger = ledger })
  ]
