-- ===== src/Governor/Handover.antt =====
-- Role changes of contracts/governor/src/lib.rs: who holds what afterwards.
use conduit_contracts.Base.{
  ◌+◌, ◌<◌, ◌≡◌, ◌≢◌, true, false, ◌||◌, ◌&&◌, not, arith, ok, err, committed, u32_limit,
}
use conduit_contracts.Host.{Address, TtlRule}
use conduit_contracts.Governor.Storage.{Role, admin, Env, last_admin, same_key, insert_key}
use conduit_contracts.Governor.Role.{key, grant, revoke, holds}
use conduit_contracts.Governor.Calls.{grant_role, revoke_role, transfer_authority}
use conduit_contracts.Governor.Membership.{
  admins, has_key-insert, has_key-remove, same_key_refl, same_key_eq, two_admins,
}
use conduit_contracts.Governor.Invariant.{HasAdmin}

module _ ⦃rule : TtlRule⦄ where
  -- After a successful grant exactly the pair granted has been added to who holds what, and after a
  -- successful revocation exactly the pair revoked has been taken away.
  role_changes :
      (caller : Address) (role : Role) (account : Address) (e e' : Env) (q : Role) (a : Address)
      → (grant_role caller role account e ≡ ok (tt, e')
          → holds q a e' ≡ (same_key (key q a) (key role account) || holds q a e))
        × (revoke_role caller role account e ≡ ok (tt, e')
            → holds q a e' ≡ (not (same_key (key role account) (key q a)) && holds q a e))
  unfolding grant_role revoke_role grant revoke
  role_changes caller role account e e' q a = (
    λ h. ground (
      arith,
      has_key-insert (key role account) (key q a) e.store.roles,
      same_key_eq (key q a) (key role account),
    ),
    λ h. ground (
      arith,
      has_key-remove (key role account) (key q a) e.store.roles,
      same_key_eq (key role account) (key q a),
    ),
  )

  -- An admin of a governed governor can always hand over to another account (if the count of
  -- admins does not overflow): the call succeeds, the other is an admin and the caller is none.
  pub transfer_authority_moves :
      (caller to : Address) (e : Env)
      → HasAdmin e.store
      → admins e.store.roles + 1 < u32_limit
      → e.auth caller ≡ true
      → holds admin caller e ≡ true
      → caller ≢ to
      → (e' : Env) × (transfer_authority caller to e ≡ ok (tt, e'))
        × (holds admin to e' ≡ true)
        × (holds admin caller e' ≡ false)
  unfolding transfer_authority grant revoke
  transfer_authority_moves caller to e v fits auth held ne =
      let granted = insert_key (key admin to) e.store.roles in
      (
        committed (transfer_authority caller to) e,
        ground (
          arith,
          two_admins caller to e.store.roles v.unique held,
          has_key-insert (key admin to) (key admin caller) e.store.roles,
        ),
        ground (
          arith,
          two_admins caller to e.store.roles v.unique held,
          has_key-insert (key admin to) (key admin caller) e.store.roles,
          has_key-insert (key admin to) (key admin to) e.store.roles,
          has_key-remove (key admin caller) (key admin to) granted,
          same_key_refl (key admin to),
        ),
        ground (
          arith,
          two_admins caller to e.store.roles v.unique held,
          has_key-insert (key admin to) (key admin caller) e.store.roles,
          has_key-remove (key admin caller) (key admin caller) granted,
          same_key_refl (key admin caller),
        ),
      )

  -- An admin who hands over to itself is not left as it was: the only admin is refused with
  -- `LastAdmin`, and one of several loses the role.
  pub transfer_authority_self :
      (caller : Address) (e : Env)
      → HasAdmin e.store
      → e.auth caller ≡ true
      → holds admin caller e ≡ true
      → (admins e.store.roles ≡ 1 → transfer_authority caller caller e ≡ err last_admin)
        × (1 < admins e.store.roles
            → (e' : Env) × (transfer_authority caller caller e ≡ ok (tt, e'))
              × (holds admin caller e' ≡ false))
  unfolding transfer_authority grant revoke
  transfer_authority_self caller e v auth held = (
    λ one. ground arith,
    λ more. (
      committed (transfer_authority caller caller) e,
      ground arith,
      ground (
        arith,
        has_key-remove (key admin caller) (key admin caller) e.store.roles,
        same_key_refl (key admin caller),
      ),
    ),
  )
