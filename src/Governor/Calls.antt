-- ===== src/Governor/Calls.antt =====
-- contracts/governor/src/lib.rs: the calls of the governor.
use mathlib.Core.Option
use conduit_contracts.Base.{
  ℕ, ◌==◌, ltb, leb_ℤ, Bool, true, false, Option, some, none, ℤ, pos, checked_mul, modify, fail_if,
  panic_if, ok_or, ◌>>=◌, ◌>>◌, gets,
}
use conduit_contracts.Host.{Address, TtlRule}
use conduit_contracts.Governor.Storage.{
  Role, admin, fee_manager, rate_manager, already_initialized, invalid_param, Call, Store,
}
use conduit_contracts.Governor.Role.{grant, revoke, require_role, bump}
use conduit_contracts.Governor.Config.{
  GovernorConfig, load, default_fee_bps, default_min_duration, default_max_duration,
  default_max_rate,
}

abbrev pub update : (Store → Store) → Call (Unit {0})
update f = modify λ e. record e { store = f e.store }

abbrev pub has : {A : Type 0} → Option A → Bool
has o = elim o [ some a ↦ true | none ↦ false ]

unfoldable pub config : Call GovernorConfig
unfolding load
config = load

module _ ⦃rule : TtlRule⦄ where
  unfoldable pub initialize : Address → Address → Address → Call (Unit {0})
  unfolding bump grant
  initialize authority fee_recipient factory_address = do
    initialized ← gets (λ e. has e.store.factory_address)
    panic_if initialized already_initialized
    bump
    update (λ s. record s {
      fee_bps = some default_fee_bps;
      fee_recipient = some fee_recipient;
      min_duration_seconds = some default_min_duration;
      max_duration_seconds = some default_max_duration;
      max_rate_per_second = some default_max_rate;
      factory_address = some factory_address;
    })
    grant admin authority
    grant fee_manager authority
    grant rate_manager authority

  unfoldable pub grant_role : Address → Role → Address → Call (Unit {0})
  unfolding require_role
  grant_role caller role account = do require_role caller admin; grant role account

  unfoldable pub revoke_role : Address → Role → Address → Call (Unit {0})
  unfolding require_role
  revoke_role caller role account = do require_role caller admin; revoke role account

  unfoldable pub transfer_authority : Address → Address → Call (Unit {0})
  unfolding require_role
  transfer_authority caller new_authority = do
    require_role caller admin
    grant admin new_authority
    revoke admin caller

  unfoldable pub set_fee_bps : Address → ℕ → Call (Unit {0})
  unfolding require_role
  set_fee_bps caller fee_bps = do
    require_role caller fee_manager
    fail_if (ltb 10_000 fee_bps) invalid_param
    update (λ s. record s { fee_bps = some fee_bps })

  unfoldable pub set_fee_recipient : Address → Address → Call (Unit {0})
  unfolding require_role
  set_fee_recipient caller recipient = do
    require_role caller fee_manager
    update (λ s. record s { fee_recipient = some recipient })

  unfoldable pub set_min_duration : Address → ℕ → Call (Unit {0})
  unfolding require_role
  set_min_duration caller seconds = do
    require_role caller rate_manager
    fail_if (seconds == 0) invalid_param
    max_rate ← gets (λ e. Option.get_or e.store.max_rate_per_second default_max_rate)
    product ← ok_or (checked_mul max_rate (pos seconds)) invalid_param
    update (λ s. record s { min_duration_seconds = some seconds })

  unfoldable pub set_max_rate : Address → ℤ → Call (Unit {0})
  unfolding require_role
  set_max_rate caller max_rate = do
    require_role caller rate_manager
    fail_if (leb_ℤ max_rate (pos 0)) invalid_param
    min_duration ← gets (λ e. Option.get_or e.store.min_duration_seconds default_min_duration)
    product ← ok_or (checked_mul max_rate (pos min_duration)) invalid_param
    update (λ s. record s { max_rate_per_second = some max_rate })

  unfoldable pub set_max_duration : Address → ℕ → Call (Unit {0})
  unfolding require_role
  set_max_duration caller seconds = do
    require_role caller rate_manager
    fail_if (seconds == 0) invalid_param
    update (λ s. record s { max_duration_seconds = some seconds })
