-- ===== src/Governor/Config.antt =====
-- contracts/governor/src/config.rs: the parameters that other contracts read.
use mathlib.Core.Option
use conduit_contracts.Base.{ℕ, ℤ, pos, pure, ok_or, ◌>>=◌}
use conduit_contracts.Host.{Address}
use conduit_contracts.Governor.Storage.{Call, not_initialized}

pub record GovernorConfig : Type 0 where
  pub fee_bps : ℕ
  pub fee_recipient : Address
  pub min_duration_seconds : ℕ
  pub max_duration_seconds : ℕ
  pub max_rate_per_second : ℤ
  pub factory_address : Address

abbrev pub default_fee_bps : ℕ
default_fee_bps = 30

abbrev pub default_min_duration : ℕ
default_min_duration = 3_600

-- 10 years.
abbrev pub default_max_duration : ℕ
default_max_duration = 315_360_000

abbrev pub default_max_rate : ℤ
default_max_rate = pos 1_000_000_000_000_000

unfoldable pub load : Call GovernorConfig
load e =
    (do
      fee_recipient ← ok_or e.store.fee_recipient not_initialized
      factory_address ← ok_or e.store.factory_address not_initialized
      pure (record {
        fee_bps = Option.get_or e.store.fee_bps default_fee_bps;
        fee_recipient = fee_recipient;
        min_duration_seconds = Option.get_or e.store.min_duration_seconds default_min_duration;
        max_duration_seconds = Option.get_or e.store.max_duration_seconds default_max_duration;
        max_rate_per_second = Option.get_or e.store.max_rate_per_second default_max_rate;
        factory_address = factory_address;
      }))
      e
