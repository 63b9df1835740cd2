-- ===== src/Oracle/Prices.antt =====
-- Who may set what in src/oracle.rs, and what a submitted price is worth later.
use conduit_contracts.Base.{
  ℕ, ◌-◌, ◌≤◌, ◌<◌, ◌≡◌, true, some, arith, ok, err, ltb, if◌then◌else◌, ◌⊎◌, inl, inr,
}
use conduit_contracts.Host.{Address}
use conduit_contracts.Oracle.Feed
use conduit_contracts.Oracle.Feed.{
  OracleConfig, PriceData, Store, Env, Call, already_initialized, oracle_stale_price, stored_price,
  max_decimals, has,
}

pub data Op : Type 0 where
  initialize : Address → Op
  configure_oracle : Address → OracleConfig → Op
  submit_price : Address → ℕ → Op

unfoldable pub apply : Op → Call (Unit {0})
apply (Op.initialize admin) = Feed.initialize admin
apply (Op.configure_oracle caller config) = Feed.configure_oracle caller config
apply (Op.submit_price caller price) = Feed.submit_price caller price

-- Once there is an admin, a call succeeds only if the admin makes and authorized it; it keeps the
-- admin, and either stores a configuration with at most 38 decimals or stores a price that is not 0
-- with the time of the call, and nothing else.
pub apply_by_admin :
    (op : Op) (e e' : Env) (admin : Address)
    → e.store.admin ≡ some admin
    → apply op e ≡ ok (tt, e')
    → (e.auth admin ≡ true)
      × (e'.store.admin ≡ some admin)
      × (((config : OracleConfig) × (op ≡ Op.configure_oracle admin config)
            × (config.decimals ≤ max_decimals)
            × (e'.store ≡ record e.store { config = some config }))
          ⊎ ((price : ℕ) × (op ≡ Op.submit_price admin price)
              × (0 < price)
              × (e'.store ≡ record e.store {
                price = some (record { price = price; updated_at = e.now });
              })))
unfolding apply Feed.initialize Feed.configure_oracle Feed.submit_price
apply_by_admin (Op.initialize a) e e' admin s h = ground arith
apply_by_admin (Op.configure_oracle a config) e e' admin s h =
    (ground arith, ground arith, inl (config, ground arith, ground arith, ground arith))
apply_by_admin (Op.submit_price a price) e e' admin s h =
    (ground arith, ground arith, inr (price, ground arith, ground arith, ground arith))

-- A price that was submitted to a configured oracle is given out, as it was, as long as it is not
-- older than the configuration allows, and is refused as stale from then on; it is never an invalid
-- price.
pub submitted_price_lem :
    (caller : Address) (price : ℕ) (e e' later : Env) (config : OracleConfig)
    → Feed.submit_price caller price e ≡ ok (tt, e')
    → later.store ≡ e'.store
    → e.store.config ≡ some config
    → stored_price later ≡ (
        if ltb config.max_staleness (later.now - e.now)
        then err oracle_stale_price
        else ok (price, later))
unfolding Feed.submit_price stored_price
submitted_price_lem caller price e e' later config h same c = ground arith
