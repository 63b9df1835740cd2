-- ===== src/Oracle/Older.antt =====
-- src/oracle.rs: the first half of `get_twap_price`, up to its `Ok(mock_price)`. It is an older
-- version of the function that was left in front of the new one.
use mathlib.Core.Option
use conduit_contracts.Base.{
  ℕ, ◌-◌, ◌≤◌, ◌≡◌, ◌==◌, arith, ltb, Bool, true, false, Option, none, some, if◌then◌else◌,
}
use conduit_contracts.Oracle.Feed.{
  OracleConfig, Error, oracle_locked, oracle_not_configured, oracle_stale_price, invalid_price,
}

pub data Answer : Type 0 where
  ok : ℕ → Answer
  err : Error → Answer

-- The two entries that it uses, under the symbols `O_Lock` and `OracleCfg`: neither is a `DataKey`.
pub record OlderStore : Type 0 where
  pub lock : Option Bool
  pub oracle_cfg : Option OracleConfig

abbrev pub mock_price : ℕ
mock_price = 50_000_000

abbrev set_lock : Bool → OlderStore → OlderStore
set_lock flag s = record s { lock = some flag }

-- The subtractions are the source's `saturating_sub`.
unfoldable pub older_twap_price : ℕ → OlderStore → Answer × OlderStore
older_twap_price current_time s =
    if Option.get_or s.lock false
    then (err oracle_locked, s)
    else (let locked = set_lock true s in
        elim s.oracle_cfg [
          | none ↦ (err oracle_not_configured, set_lock false locked)
          | some config ↦
              let last_updated = current_time - 30 in
              if ltb config.max_staleness (current_time - last_updated)
              then (err oracle_stale_price, set_lock false locked)
              else if mock_price == 0
              then (err invalid_price, set_lock false locked)
              else (ok mock_price, set_lock false locked)
        ])

-- On a free lock it always gives the lock back, and what it answers depends on the time only in the
-- first 30 seconds: the made-up price, unless less staleness than that is allowed.
older_twap_price_lem :
    (current_time : ℕ) (s : OlderStore)
    → Option.get_or s.lock false ≡ false
    → 30 ≤ current_time
    → older_twap_price current_time s ≡ (
      elim s.oracle_cfg [
        | none ↦ err oracle_not_configured
        | some config ↦
            if ltb config.max_staleness 30 then err oracle_stale_price else ok 50_000_000
      ],
      record s { lock = some false },
    )
unfolding older_twap_price
older_twap_price_lem current_time s free late = ground arith
