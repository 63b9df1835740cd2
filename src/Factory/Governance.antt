-- ===== src/Factory/Governance.antt =====
-- contracts/factory/src/governance.rs: the governor's parameters, and the bounds that they set.
use conduit_contracts.Base.{
  ℕ, ltb, ltb_ℤ, if◌then◌else◌, none, some, ℤ, ok, err, panic, trap, fail_if, pure, ◌>>◌, ◌>>=◌,
  or_trap, checked_sub_u64, overflow, false,
}
use conduit_contracts.Host.{Address}
use conduit_contracts.Governor.Config.{GovernorConfig}
use conduit_contracts.Governor.Calls.{config as governor_config}
use conduit_contracts.Factory.Storage.{
  Call, governor_not_responding, rate_exceeds_max, duration_too_short, duration_exceeds_max,
}

module _ {L : Type 0} where
  -- A governor that is not there, or whose `config` fails, does not respond.
  unfoldable pub config : Address → Call L GovernorConfig
  unfolding governor_config
  config governor e = elim (e.governors governor) [
    | none ↦ err governor_not_responding
    | some store ↦ elim (governor_config (record { auth = λ _. false; store = store; ttl = 0 })) [
      | ok (c, _) ↦ ok (c, e)
      | err x ↦ err governor_not_responding
      | panic x ↦ err governor_not_responding
      | trap t ↦ err governor_not_responding
    ]
  ]

  unfoldable pub enforce_bounds : GovernorConfig → ℤ → ℕ → ℕ → Call L (Unit {0})
  enforce_bounds c rate_per_sec start end = do
    fail_if (ltb_ℤ c.max_rate_per_second rate_per_sec) rate_exceeds_max
    if ltb 0 end
        then (do
          duration ← or_trap (checked_sub_u64 end start) overflow
          fail_if (ltb duration c.min_duration_seconds) duration_too_short
          fail_if (ltb c.max_duration_seconds duration) duration_exceeds_max)
        else pure tt
