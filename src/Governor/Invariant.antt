-- ===== src/Governor/Invariant.antt =====
-- What holds of the governor's storage between any two calls of contracts/governor/src/lib.rs.
use mathlib.Core.Option
use conduit_contracts.Base.{ℕ, ◌≤◌, ◌≡◌, true, some, arith, ok, ℤ, pos, ◌≤ℤ◌, ◌*ℤ◌, fits_i128}
use conduit_contracts.Host.{Address}
use conduit_contracts.Governor.Storage.{Role, admin, Env, Store}
use conduit_contracts.Governor.Config.{
  default_fee_bps, default_min_duration, default_max_duration, default_max_rate,
}
use conduit_contracts.Governor.Role.{key, grant, revoke}
use conduit_contracts.Governor.Membership.{
  admins, IsUnique, insert_key-IsUnique, remove_key-IsUnique, admins-remove,
}

-- The parameters, with their defaults where a key was never set.
abbrev pub fee_of : Store → ℕ
fee_of s = Option.get_or s.fee_bps default_fee_bps

abbrev pub min_duration_of : Store → ℕ
min_duration_of s = Option.get_or s.min_duration_seconds default_min_duration

abbrev pub max_duration_of : Store → ℕ
max_duration_of s = Option.get_or s.max_duration_seconds default_max_duration

abbrev pub max_rate_of : Store → ℤ
max_rate_of s = Option.get_or s.max_rate_per_second default_max_rate

-- The role keys are distinct, the count is the number of admins, and there is one.
pub record HasAdmin (s : Store) : Type 0 where
  pub unique : IsUnique s.roles
  pub counted : s.admin_count ≡ some (admins s.roles)
  pub governed : 1 ≤ admins s.roles

-- The parameters are in their ranges, and the largest rate over the shortest duration fits.
pub record InRange (s : Store) : Type 0 where
  pub fee_capped : fee_of s ≤ 10_000
  pub min_positive : 1 ≤ min_duration_of s
  pub max_positive : 1 ≤ max_duration_of s
  pub rate_positive : pos 1 ≤ℤ max_rate_of s
  pub product_fits : fits_i128 (max_rate_of s *ℤ pos (min_duration_of s)) ≡ true

pub grant-HasAdmin :
    (role : Role) (account : Address) (e e' : Env)
    → HasAdmin e.store
    → grant role account e ≡ ok (tt, e')
    → HasAdmin e'.store
unfolding grant
grant-HasAdmin admin account e e' v h =
    ground (arith, insert_key-IsUnique (key admin account) e.store.roles v.unique)
grant-HasAdmin role account e e' v h =
    ground (arith, insert_key-IsUnique (key role account) e.store.roles v.unique)

pub revoke-HasAdmin :
    (role : Role) (account : Address) (e e' : Env)
    → HasAdmin e.store
    → revoke role account e ≡ ok (tt, e')
    → HasAdmin e'.store
unfolding revoke
revoke-HasAdmin admin account e e' v h = ground (
  arith,
  remove_key-IsUnique (key admin account) e.store.roles v.unique,
  admins-remove (key admin account) e.store.roles v.unique,
)
revoke-HasAdmin role account e e' v h = ground (
  arith,
  remove_key-IsUnique (key role account) e.store.roles v.unique,
  admins-remove (key role account) e.store.roles v.unique,
)
