-- ===== src/Governor/Access.antt =====
-- Who may make each call of contracts/governor/src/lib.rs, and what it can change.
use conduit_contracts.Base.{◌≡◌, true, arith, ok}
use conduit_contracts.Host.{TtlRule}
use conduit_contracts.Governor.Storage.{Role, admin, fee_manager, rate_manager, Env, Store}
use conduit_contracts.Governor.Role.{holds, grant, revoke}
use conduit_contracts.Governor.Calls.{
  grant_role, revoke_role, transfer_authority, set_fee_bps, set_fee_recipient, set_min_duration,
  set_max_rate, set_max_duration,
}
use conduit_contracts.Governor.Operation.{Op, apply, caller, required}

-- The slices of the state that the roles own.
pub record SameRoles (s s' : Store) : Type 0 where
  pub same_keys : s'.roles ≡ s.roles
  pub same_count : s'.admin_count ≡ s.admin_count

pub record SameFees (s s' : Store) : Type 0 where
  pub same_fee : s'.fee_bps ≡ s.fee_bps
  pub same_recipient : s'.fee_recipient ≡ s.fee_recipient

pub record SameBounds (s s' : Store) : Type 0 where
  pub same_min : s'.min_duration_seconds ≡ s.min_duration_seconds
  pub same_max : s'.max_duration_seconds ≡ s.max_duration_seconds
  pub same_rate : s'.max_rate_per_second ≡ s.max_rate_per_second

-- What a call that asks for `role` leaves alone.
abbrev pub Leaves : Role → Store → Store → Type 0
Leaves admin s s' = SameFees s s' × SameBounds s s'
Leaves fee_manager s s' = SameRoles s s' × SameBounds s s'
Leaves rate_manager s s' = SameRoles s s' × SameFees s s'

module _ ⦃rule : TtlRule⦄ where
  -- A call succeeds only if its caller authorized it and holds the role that it asks for, and then
  -- it changes only that role's slice of the state: an admin the roles, a fee manager the fee and
  -- its recipient, a rate manager the bounds on durations and rates. The address of the factory
  -- never changes.
  pub apply_confined :
      (op : Op) (e e' : Env)
      → apply op e ≡ ok (tt, e')
      → (e.auth (caller op) ≡ true)
        × (holds (required op) (caller op) e ≡ true)
        × Leaves (required op) e.store e'.store
        × (e'.store.factory_address ≡ e.store.factory_address)
  unfolding apply grant_role revoke_role transfer_authority set_fee_bps set_fee_recipient
      set_min_duration set_max_rate set_max_duration grant revoke
  apply_confined (Op.set_fee_bps c x) e e' h = ground arith
  apply_confined op e e' h = ground arith
