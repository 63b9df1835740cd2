-- ===== src/Oracle/Feed.antt =====
-- src/oracle.rs: the oracle's storage, its setters, and the second half of `get_twap_price`.
use conduit_contracts.Base.{
  ℕ, ◌-◌, ◌==◌, ltb, Bool, true, false, not, Option, some, none, Action, unauthorized, fail_if,
  ok_or, trap_unless, gets, modify, pure, ◌>>=◌, ◌>>◌,
}
use conduit_contracts.Host.{Address}

pub record OracleConfig : Type 0 where
  pub oracle_address : Address
  pub decimals : ℕ
  pub asset_peg : ℕ
  pub max_staleness : ℕ

pub record PriceData : Type 0 where
  pub price : ℕ
  pub updated_at : ℕ

pub data Error : Type 0 where
  oracle_stale_price oracle_not_configured invalid_price oracle_locked calculation_overflow : Error
  not_authorized already_initialized no_price_available arithmetic_overflow : Error
  invalid_decimals : Error

-- Instance storage, with a field for each `DataKey`.
pub record Store : Type 0 where
  pub admin : Option Address
  pub config : Option OracleConfig
  pub price : Option PriceData

-- What a call sees: the ledger's timestamp, who authorized it, and the storage.
pub record Env : Type 0 where
  pub now : ℕ
  pub auth : Address → Bool
  pub store : Store

abbrev pub Call : Type 0 → Type 0
Call A = Action Env Error A

abbrev pub update : (Store → Store) → Call (Unit {0})
update f = modify λ e. record e { store = f e.store }

abbrev pub has : {A : Type 0} → Option A → Bool
has o = elim o [ some a ↦ true | none ↦ false ]

abbrev pub require_auth : Address → Call (Unit {0})
require_auth a e = trap_unless (e.auth a) unauthorized e

unfoldable pub require_admin : Address → Call (Unit {0})
require_admin caller = do
  admin ← (λ e. ok_or e.store.admin oracle_not_configured e)
  fail_if (not (caller == admin)) not_authorized
  require_auth caller

unfoldable pub initialize : Address → Call (Unit {0})
initialize admin = do
  initialized ← gets (λ e. has e.store.admin)
  fail_if initialized already_initialized
  update (λ s. record s { admin = some admin })

-- The largest power of ten that is taken as the number of decimals.
abbrev pub max_decimals : ℕ
max_decimals = 38

unfoldable pub configure_oracle : Address → OracleConfig → Call (Unit {0})
unfolding require_admin
configure_oracle caller config = do
  require_admin caller
  fail_if (ltb max_decimals config.decimals) invalid_decimals
  update (λ s. record s { config = some config })

unfoldable pub submit_price : Address → ℕ → Call (Unit {0})
unfolding require_admin
submit_price caller price = do
  require_admin caller
  fail_if (price == 0) invalid_price
  now ← gets (λ e. e.now)
  update (λ s. record s { price = some (record { price = price; updated_at = now }) })

-- `get_twap_price` from where the configuration is read out of `DataKey::Config`.
unfoldable pub stored_price : Call ℕ
stored_price = do
  config ← (λ e. ok_or e.store.config oracle_not_configured e)
  observed ← (λ e. ok_or e.store.price no_price_available e)
  now ← gets (λ e. e.now)
  fail_if (ltb config.max_staleness (now - observed.updated_at)) oracle_stale_price
  fail_if (observed.price == 0) invalid_price
  pure observed.price
