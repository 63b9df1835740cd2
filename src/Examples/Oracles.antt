-- ===== src/Examples/Oracles.antt =====
-- The oracle on concrete inputs.
use conduit_contracts.Base.{
  ℕ, ◌*◌, ◌/◌, ◌≤◌, ◌<◌, ◌≡◌, ◌⊎◌, refl, true, some, arith, ok, err, ltb, if◌then◌else◌, u64_limit,
  committed,
}
use conduit_contracts.Oracle.Feed.{
  OracleConfig, Env, arithmetic_overflow, max_decimals, configure_oracle, stored_price,
}
use conduit_contracts.Oracle.Payout.{power_of_ten, calculate_fiat_stream_payout}
use conduit_contracts.Oracle.Prices.{Op, apply, apply_by_admin}
use conduit_contracts.Oracle.Conversion.{payout_exact}

abbrev seven : OracleConfig
seven = record { oracle_address = 8; decimals = 7; asset_peg = 1; max_staleness = 60 }

-- A price of 5 with seven decimals, 20 seconds old.
abbrev feed : Env
feed = record {
  now = 120;
  auth = λ a. true;
  store = record {
    admin = some 1;
    config = some seven;
    price = some (record { price = 50_000_000; updated_at = 100 });
  };
}

price_given : stored_price feed ≡ ok (50_000_000, feed)
unfolding stored_price
price_given = refl

payout_exact_example : calculate_fiat_stream_payout stored_price 123_456 feed ≡ (
    let value = 123_456 * 50_000_000 / power_of_ten 7 in
    if ltb value u64_limit then ok (value, feed) else err arithmetic_overflow)
payout_exact_example =
    payout_exact stored_price 123_456 50_000_000 feed seven price_given refl (omega arith)
      (omega arith) (omega arith)

abbrev configured : Env
configured = committed (apply (Op.configure_oracle 1 seven)) feed

configure_runs : apply (Op.configure_oracle 1 seven) feed ≡ ok (tt, configured)
unfolding apply configure_oracle
configure_runs = refl

apply_by_admin_example :
    (feed.auth 1 ≡ true)
    × (configured.store.admin ≡ some 1)
    × (((config : OracleConfig) × (Op.configure_oracle 1 seven ≡ Op.configure_oracle 1 config)
          × (config.decimals ≤ max_decimals)
          × (configured.store ≡ record feed.store { config = some config }))
        ⊎ ((price : ℕ) × (Op.configure_oracle 1 seven ≡ Op.submit_price 1 price)
            × (0 < price)
            × (configured.store
                ≡ record feed.store { price = some (record { price = price; updated_at = 120 }) })))
apply_by_admin_example =
    apply_by_admin (Op.configure_oracle 1 seven) feed configured 1 refl configure_runs
