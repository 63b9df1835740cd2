-- ===== src/Governor/Start.antt =====
-- The life of a governor of contracts/governor/src/lib.rs from its `initialize` on.
use conduit_contracts.Base.{
  ◌≡◌, ◌∙◌, refl, true, some, inl, inr, arith, ok, panic, committed_cases, List, [], ◌∷◌,
}
use conduit_contracts.Host.{Address, TtlRule}
use conduit_contracts.Governor.Storage.{admin, Env, empty_store, already_initialized}
use conduit_contracts.Governor.Role.{holds}
use conduit_contracts.Governor.Calls.{initialize}
use conduit_contracts.Governor.Operation.{apply}
use conduit_contracts.Governor.Access.{apply_confined}
use conduit_contracts.Governor.Invariant.{HasAdmin, InRange}
use conduit_contracts.Governor.Governance.{
  Transaction, execute, run, initialize_governs, run_stays_governed,
}

module _ ⦃rule : TtlRule⦄ where
  execute-factory :
      (t : Transaction) (e : Env) → (execute t e).store.factory_address ≡ e.store.factory_address
  unfolding execute
  execute-factory (op, auth, ttl) e =
      let begun = record e { auth = auth; ttl = ttl } in
      elim (committed_cases (apply op) begun (apply op begun) refl) [
        | inl (e', h, same) ↦ rw same ((apply_confined op begun e' h).3)
        | inr same ↦ rw same refl
      ]

  run-factory :
      (ts : List Transaction) (e : Env) → (run ts e).store.factory_address ≡ e.store.factory_address
  unfolding run
  run-factory [] e = refl
  run-factory (t ∷ ts) e = run-factory ts (execute t e) ∙ execute-factory t e

  initialize-factory :
      (authority fee_recipient factory : Address) (e e' : Env)
      → initialize authority fee_recipient factory e ≡ ok (tt, e')
      → e'.store.factory_address ≡ some factory
  unfolding initialize
  initialize-factory authority fee_recipient factory e e' h = ground arith

  initialize_closed :
      (factory a b c : Address) (e : Env)
      → e.store.factory_address ≡ some factory
      → initialize a b c e ≡ panic already_initialized
  unfolding initialize
  initialize_closed factory a b c e h = ground arith

  -- On a fresh governor `initialize` succeeds, and after it, whatever calls are made, by anybody and
  -- with any outcome: some account holds `Admin`, the admin count is the number of accounts that do,
  -- the fee is at most 10,000 basis points, the durations and the rate are positive, the largest
  -- rate over the shortest duration fits an `i128`, the factory is the one of `initialize`, and
  -- another `initialize` is refused.
  pub governed_from_start :
      (authority fee_recipient factory : Address) (e : Env) (ts : List Transaction)
      → e.store ≡ empty_store
      → (started : Env) × (initialize authority fee_recipient factory e ≡ ok (tt, started))
        × ((a : Address) × (holds admin a (run ts started) ≡ true))
        × HasAdmin (run ts started).store
        × InRange (run ts started).store
        × ((run ts started).store.factory_address ≡ some factory)
        × ((a b c : Address) → initialize a b c (run ts started) ≡ panic already_initialized)
  governed_from_start authority fee_recipient factory e ts fresh =
      let (started, h, v, r, _, _, _, _) =
        initialize_governs authority fee_recipient factory e fresh in
      let (holder, v', r') = run_stays_governed ts started v r in
      let kept =
        run-factory ts started ∙ initialize-factory authority fee_recipient factory e started h in
      (
        started,
        h,
        holder,
        v',
        r',
        kept,
        λ a b c. initialize_closed factory a b c (run ts started) kept,
      )
