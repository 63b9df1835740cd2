-- ===== src/Governor/Governance.antt =====
-- Every call of contracts/governor/src/lib.rs keeps the governor governed and its parameters in
-- range.
use conduit_contracts.Base.{
  ℕ, ◌≡◌, Bool, true, arith, ok, checked_mul, ◌*ℤ◌, panic, refl, committed, committed_cases, inl,
  inr, List, [], ◌∷◌,
}
use conduit_contracts.Host.{Address, TtlRule}
use conduit_contracts.Governor.Storage.{
  Role, admin, fee_manager, rate_manager, Env, already_initialized, empty_store, ttl_threshold,
  ttl_extend_to,
}
use conduit_contracts.Governor.Role.{grant, revoke, holds}
use conduit_contracts.Governor.Calls.{
  initialize, grant_role, revoke_role, transfer_authority, set_fee_bps, set_fee_recipient,
  set_min_duration, set_max_rate, set_max_duration,
}
use conduit_contracts.Governor.Membership.{admins-pos}
use conduit_contracts.Governor.Operation.{Op, apply}
use conduit_contracts.Governor.Access.{apply_confined}
use conduit_contracts.Governor.Invariant.{HasAdmin, InRange, grant-HasAdmin, revoke-HasAdmin}

module _ ⦃rule : TtlRule⦄ where
  abbrev bumped : Env → Env
  bumped e = record e { ttl = rule.extend_ttl ttl_threshold ttl_extend_to e.ttl }

  -- A guarded call that succeeds has made its guarded part succeed, on the same storage.
  grant_role-grant :
      (c : Address) (r : Role) (a : Address) (e e' : Env)
      → grant_role c r a e ≡ ok (tt, e')
      → grant r a (bumped e) ≡ ok (tt, e')
  unfolding grant_role
  grant_role-grant c r a e e' h = ground arith

  revoke_role-revoke :
      (c : Address) (r : Role) (a : Address) (e e' : Env)
      → revoke_role c r a e ≡ ok (tt, e')
      → revoke r a (bumped e) ≡ ok (tt, e')
  unfolding revoke_role
  revoke_role-revoke c r a e e' h = ground arith

  transfer_authority-steps :
      (c a : Address) (e e' : Env)
      → transfer_authority c a e ≡ ok (tt, e')
      → (grant admin a (bumped e) ≡ ok (tt, committed (grant admin a) (bumped e)))
        × (revoke admin c (committed (grant admin a) (bumped e)) ≡ ok (tt, e'))
  unfolding transfer_authority
  transfer_authority-steps c a e e' h = (ground arith, ground arith)

  apply-HasAdmin :
      (op : Op) (e e' : Env) → HasAdmin e.store → apply op e ≡ ok (tt, e') → HasAdmin e'.store
  unfolding apply set_fee_bps set_fee_recipient set_min_duration set_max_rate set_max_duration
  apply-HasAdmin (Op.grant_role c r a) e e' v h =
      grant-HasAdmin r a (bumped e) e' v (grant_role-grant c r a e e' h)
  apply-HasAdmin (Op.revoke_role c r a) e e' v h =
      revoke-HasAdmin r a (bumped e) e' v (revoke_role-revoke c r a e e' h)
  apply-HasAdmin (Op.transfer_authority c a) e e' v h =
      let mid = committed (grant admin a) (bumped e) in
      let (granted, revoked) = transfer_authority-steps c a e e' h in
      revoke-HasAdmin admin c mid e' (grant-HasAdmin admin a (bumped e) mid v granted) revoked
  apply-HasAdmin (Op.set_fee_bps c x) e e' v h = ground arith
  apply-HasAdmin (Op.set_fee_recipient c x) e e' v h = ground arith
  apply-HasAdmin (Op.set_min_duration c x) e e' v h = ground arith
  apply-HasAdmin (Op.set_max_rate c x) e e' v h = ground arith
  apply-HasAdmin (Op.set_max_duration c x) e e' v h = ground arith

  apply-InRange :
      (op : Op) (e e' : Env) → InRange e.store → apply op e ≡ ok (tt, e') → InRange e'.store
  unfolding apply set_fee_bps set_fee_recipient set_min_duration set_max_rate set_max_duration
      checked_mul
  apply-InRange (Op.grant_role c r a) e e' v h =
      ground (arith, apply_confined (Op.grant_role c r a) e e' (unfold apply in h))
  apply-InRange (Op.revoke_role c r a) e e' v h =
      ground (arith, apply_confined (Op.revoke_role c r a) e e' (unfold apply in h))
  apply-InRange (Op.transfer_authority c a) e e' v h =
      ground (arith, apply_confined (Op.transfer_authority c a) e e' (unfold apply in h))
  apply-InRange (Op.set_fee_bps c x) e e' v h = ground arith
  apply-InRange (Op.set_fee_recipient c x) e e' v h = ground arith
  apply-InRange (Op.set_min_duration c x) e e' v h = ground arith
  apply-InRange (Op.set_max_rate c x) e e' v h = ground arith
  apply-InRange (Op.set_max_duration c x) e e' v h = ground arith

  -- `initialize` on a fresh governor makes `authority` its one admin, and the first parameters are
  -- in range; after it, a second call is refused.
  pub initialize_governs :
      (authority fee_recipient factory : Address) (e : Env)
      → e.store ≡ empty_store
      → (e' : Env) × (initialize authority fee_recipient factory e ≡ ok (tt, e'))
        × HasAdmin e'.store
        × InRange e'.store
        × (holds admin authority e' ≡ true)
        × (holds fee_manager authority e' ≡ true)
        × (holds rate_manager authority e' ≡ true)
        × ((a b c : Address) → initialize a b c e' ≡ panic already_initialized)
  unfolding initialize ◌*ℤ◌
  initialize_governs authority fee_recipient factory e h = (
    committed (initialize authority fee_recipient factory) e,
    ground arith,
    ground arith,
    ground arith,
    ground arith,
    ground arith,
    ground arith,
    λ a b c. ground arith,
  )

  -- One call as a transaction: who signed it, and the time to live at its start.
  abbrev pub Transaction : Type 0
  Transaction = Op × (Address → Bool) × ℕ

  unfoldable pub execute : Transaction → Env → Env
  execute (op, auth, ttl) e = committed (apply op) (record e { auth = auth; ttl = ttl })

  unfoldable pub run : List Transaction → Env → Env
  run [] e = e
  run (t ∷ ts) e = run ts (execute t e)

  execute-valid :
      (t : Transaction) (e : Env)
      → HasAdmin e.store
      → InRange e.store
      → HasAdmin (execute t e).store × InRange (execute t e).store
  unfolding execute
  execute-valid (op, auth, ttl) e v r =
      let begun = record e { auth = auth; ttl = ttl } in
      elim (committed_cases (apply op) begun (apply op begun) refl) [
        | inl (e', h, same) ↦
            rw same (apply-HasAdmin op begun e' v h, apply-InRange op begun e' r h)
        | inr same ↦ rw same (v, r)
      ]

  run-valid :
      (ts : List Transaction) (e : Env)
      → HasAdmin e.store
      → InRange e.store
      → HasAdmin (run ts e).store × InRange (run ts e).store
  unfolding run
  run-valid [] e v r = (v, r)
  run-valid (t ∷ ts) e v r =
      let (v', r') = execute-valid t e v r in run-valid ts (execute t e) v' r'

  -- Whatever calls are made on a governed governor, by anybody and with any outcome: some account
  -- still holds `Admin`, the admin count is the number of accounts that do, the fee is at most
  -- 10,000 basis points, the durations and the rate are positive, and the largest rate over the
  -- shortest duration fits an `i128`.
  pub run_stays_governed :
      (ts : List Transaction) (e : Env)
      → HasAdmin e.store
      → InRange e.store
      → ((a : Address) × (holds admin a (run ts e) ≡ true))
        × HasAdmin (run ts e).store
        × InRange (run ts e).store
  run_stays_governed ts e v r =
      let (v', r') = run-valid ts e v r in (admins-pos (run ts e).store.roles v'.governed, v', r')
