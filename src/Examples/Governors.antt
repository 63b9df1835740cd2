-- ===== src/Examples/Governors.antt =====
-- The governor's calls on concrete inputs, and the theorems about them at such inputs.
use conduit_contracts.Base.{
  ◌<◌, ◌≡◌, refl, true, false, some, arith, List, [], ◌∷◌, pos, ok, err, panic, committed,
}
use conduit_contracts.Host.{Address}
use conduit_contracts.Governor.Storage.{
  Env, admin, fee_manager, rate_manager, empty_store, last_admin, already_initialized,
}
use conduit_contracts.Governor.Role.{key, holds}
use conduit_contracts.Governor.Calls.{initialize, transfer_authority, set_fee_bps}
use conduit_contracts.Governor.Operation.{Op, apply}
use conduit_contracts.Governor.Membership.{admins}
use conduit_contracts.Governor.Invariant.{HasAdmin, InRange}
use conduit_contracts.Governor.Access.{Leaves, apply_confined}
use conduit_contracts.Governor.Governance.{Transaction, run}
use conduit_contracts.Governor.Start.{governed_from_start}
use conduit_contracts.Governor.Handover.{transfer_authority_moves, transfer_authority_self}
use conduit_contracts.Examples.Table.{plain_rule}

abbrev blank : Env
blank = record { auth = λ a. true; store = empty_store; ttl = 500 }

-- 5 holds every role.
abbrev governed : Env
governed = record blank {
  store = record {
    fee_bps = some 30;
    fee_recipient = some 6;
    min_duration_seconds = some 3_600;
    max_rate_per_second = some (pos 1_000);
    max_duration_seconds = some 1_000_000;
    factory_address = some 7;
    roles = key admin 5 ∷ key fee_manager 5 ∷ key rate_manager 5 ∷ [];
    admin_count = some 1;
  };
}

governed-HasAdmin : HasAdmin governed.store
governed-HasAdmin = record {
  unique = (refl, (refl, (refl, tt)));
  counted = refl;
  governed = omega arith;
}

abbrev after_fee : Env
after_fee = committed (apply (Op.set_fee_bps 5 45)) governed

set_fee_bps_runs : apply (Op.set_fee_bps 5 45) governed ≡ ok (tt, after_fee)
unfolding apply set_fee_bps
set_fee_bps_runs = refl

apply_confined_example :
    (governed.auth 5 ≡ true)
    × (holds fee_manager 5 governed ≡ true)
    × Leaves fee_manager governed.store after_fee.store
    × (after_fee.store.factory_address ≡ some 7)
apply_confined_example = apply_confined (Op.set_fee_bps 5 45) governed after_fee set_fee_bps_runs

-- A second admin, a handover, and two calls that are refused.
abbrev history : List Transaction
history =
    (Op.grant_role 5 admin 8, (λ a. true), 500)
    ∷ (Op.transfer_authority 5 9, (λ a. true), 400)
    ∷ (Op.set_fee_bps 5 20_000, (λ a. true), 300)
    ∷ (Op.revoke_role 4 admin 8, (λ a. true), 200)
    ∷ []

governed_from_start_example :
    (begun : Env) × (initialize 5 6 7 blank ≡ ok (tt, begun))
    × ((a : Address) × (holds admin a (run history begun) ≡ true))
    × HasAdmin (run history begun).store
    × InRange (run history begun).store
    × ((run history begun).store.factory_address ≡ some 7)
    × ((a b c : Address) → initialize a b c (run history begun) ≡ panic already_initialized)
governed_from_start_example = governed_from_start 5 6 7 blank history refl

transfer_authority_moves_example :
    (e' : Env) × (transfer_authority 5 9 governed ≡ ok (tt, e'))
    × (holds admin 9 e' ≡ true)
    × (holds admin 5 e' ≡ false)
transfer_authority_moves_example =
    transfer_authority_moves 5 9 governed governed-HasAdmin (omega arith) refl refl (omega arith)

transfer_authority_self_example :
    (admins governed.store.roles ≡ 1 → transfer_authority 5 5 governed ≡ err last_admin)
    × (1 < admins governed.store.roles
        → (e' : Env) × (transfer_authority 5 5 governed ≡ ok (tt, e')) × (holds admin 5 e' ≡ false))
transfer_authority_self_example = transfer_authority_self 5 governed governed-HasAdmin refl refl
