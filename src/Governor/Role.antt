-- ===== src/Governor/Role.antt =====
-- contracts/governor/src/role.rs and ttl.rs: membership, grants and revocations.
use mathlib.Core.Option
use conduit_contracts.Base.{
  ℕ, ◌+◌, ◌-◌, Bool, not, ltb, leb, if◌then◌else◌, Option, some, none, u32_limit, pure, gets,
  modify, fail_if, or_trap, trap_unless, unauthorized, overflow, ◌>>=◌, ◌>>◌,
}
use conduit_contracts.Host.{Address, TtlRule}
use conduit_contracts.Governor.Storage.{
  Role, admin, last_admin, not_authorized, RoleKey, Env, Call, same_role, has_key, insert_key,
  remove_key, ttl_threshold, ttl_extend_to,
}

abbrev pub key : Role → Address → RoleKey
key role account = record { role = role; account = account }

abbrev pub holds : Role → Address → Env → Bool
holds role account e = has_key (key role account) e.store.roles

unfoldable pub has_role : Role → Address → Call Bool
has_role role account = gets (holds role account)

unfoldable pub admin_count : Call ℕ
admin_count = gets λ e. Option.get_or e.store.admin_count 0

-- `env.storage().instance().set` of a role key, of the count, and the removal of a role key.
abbrev pub set_key : RoleKey → Call (Unit {0})
set_key k = modify λ e. record e { store = record e.store { roles = insert_key k e.store.roles } }

abbrev pub unset_key : RoleKey → Call (Unit {0})
unset_key k = modify λ e. record e { store = record e.store { roles = remove_key k e.store.roles } }

abbrev pub set_admin_count : ℕ → Call (Unit {0})
set_admin_count n = modify λ e. record e { store = record e.store { admin_count = some n } }

abbrev pub in_u32 : ℕ → Option ℕ
in_u32 n = if ltb n u32_limit then some n else none

-- The count of admins that a grant, and a revocation, of `role` leaves.
unfoldable pub count_up : Role → Call (Unit {0})
unfolding admin_count
count_up role =
    if same_role role admin
    then (do
      count ← admin_count
      next ← or_trap (in_u32 (count + 1)) overflow
      set_admin_count next)
    else pure tt

unfoldable pub count_down : Role → Call (Unit {0})
unfolding admin_count
count_down role =
    if same_role role admin
    then (do count ← admin_count; fail_if (leb count 1) last_admin; set_admin_count (count - 1))
    else pure tt

unfoldable pub grant : Role → Address → Call (Unit {0})
unfolding has_role count_up
grant role account = do
  held ← has_role role account
  if held then pure tt else (do set_key (key role account); count_up role)

unfoldable pub revoke : Role → Address → Call (Unit {0})
unfolding has_role count_down
revoke role account = do
  held ← has_role role account
  if not held then pure tt else (do count_down role; unset_key (key role account))

abbrev pub require_auth : Address → Call (Unit {0})
require_auth a e = trap_unless (e.auth a) unauthorized e

module _ ⦃rule : TtlRule⦄ where
  unfoldable pub bump : Call (Unit {0})
  bump = modify λ e. record e { ttl = rule.extend_ttl ttl_threshold ttl_extend_to e.ttl }

  unfoldable pub require_role : Address → Role → Call (Unit {0})
  unfolding has_role bump
  require_role caller role = do
    require_auth caller
    held ← has_role role caller
    fail_if (not held) not_authorized
    bump
