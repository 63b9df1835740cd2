-- ===== src/Governor/Operation.antt =====
-- The calls of contracts/governor/src/lib.rs as one data type.
use conduit_contracts.Base.{ℕ, ℤ}
use conduit_contracts.Host.{Address, TtlRule}
use conduit_contracts.Governor.Storage.{Role, admin, fee_manager, rate_manager, Call}
use conduit_contracts.Governor.Calls

pub data Op : Type 0 where
  grant_role revoke_role : Address → Role → Address → Op
  transfer_authority : Address → Address → Op
  set_fee_bps : Address → ℕ → Op
  set_fee_recipient : Address → Address → Op
  set_min_duration : Address → ℕ → Op
  set_max_rate : Address → ℤ → Op
  set_max_duration : Address → ℕ → Op

abbrev pub caller : Op → Address
caller (Op.grant_role c r a) = c
caller (Op.revoke_role c r a) = c
caller (Op.transfer_authority c a) = c
caller (Op.set_fee_bps c x) = c
caller (Op.set_fee_recipient c x) = c
caller (Op.set_min_duration c x) = c
caller (Op.set_max_rate c x) = c
caller (Op.set_max_duration c x) = c

-- The role that each call asks for.
abbrev pub required : Op → Role
required (Op.grant_role c r a) = admin
required (Op.revoke_role c r a) = admin
required (Op.transfer_authority c a) = admin
required (Op.set_fee_bps c x) = fee_manager
required (Op.set_fee_recipient c x) = fee_manager
required (Op.set_min_duration c x) = rate_manager
required (Op.set_max_rate c x) = rate_manager
required (Op.set_max_duration c x) = rate_manager

module _ ⦃rule : TtlRule⦄ where
  unfoldable pub apply : Op → Call (Unit {0})
  apply (Op.grant_role c r a) = Calls.grant_role c r a
  apply (Op.revoke_role c r a) = Calls.revoke_role c r a
  apply (Op.transfer_authority c a) = Calls.transfer_authority c a
  apply (Op.set_fee_bps c x) = Calls.set_fee_bps c x
  apply (Op.set_fee_recipient c x) = Calls.set_fee_recipient c x
  apply (Op.set_min_duration c x) = Calls.set_min_duration c x
  apply (Op.set_max_rate c x) = Calls.set_max_rate c x
  apply (Op.set_max_duration c x) = Calls.set_max_duration c x
