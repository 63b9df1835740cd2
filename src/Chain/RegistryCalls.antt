-- ===== src/Chain/RegistryCalls.antt =====
-- Every call of contracts/factory/src/lib.rs keeps the registry in agreement with the streams.
use mathlib.Core.List.{append-nil}
use conduit_contracts.Base.{
  ℕ, ◌≡◌, inl, inr, refl, subst, arith, ok, Bool, List, [], ◌∷◌, committed_cases,
}
use conduit_contracts.Host.{Address, Host}
use conduit_contracts.Factory.Storage.{Env}
use conduit_contracts.Factory.Deploy.{Deployer}
use conduit_contracts.Factory.Creation.{
  create_stream, create_all, create_batch_streams, BatchStreamRequest, request_args,
}
use conduit_contracts.Factory.Registry.{create_all-cons, batch_steps}
use conduit_contracts.Factory.Log.{Represents}
use conduit_contracts.Factory.Maintenance.{
  SameIndex, pause-SameIndex, unpause-SameIndex, upgrade_stream_wasm-SameIndex,
  initialize-SameIndex,
}
use conduit_contracts.Factory.Operation.{Op, apply, Transaction, begun, execute}
use conduit_contracts.Factory.Refinement.{kept-Appends, dropped}
use conduit_contracts.Chain.Calls.{
  SameChain, initialize-SameChain, upgrade-SameChain, pause-SameChain, unpause-SameChain,
}
use conduit_contracts.Chain.Registry.{IsRegistered, same-Registered, create_stream-Registered}

module _ {L : Type 0} ⦃host : Host L⦄ ⦃deployer : Deployer⦄ where
  create_all-IsRegistered :
      (e e' : Env L) (sender : Address) (clawback : Bool) (rs : List BatchStreamRequest)
      (ids : List ℕ)
      → IsRegistered e
      → create_all sender clawback rs e ≡ ok (ids, e')
      → IsRegistered e'
  unfolding create_all
  create_all-IsRegistered e e' sender clawback [] ids r h =
      let same : e' ≡ e = ground arith in rw same r
  create_all-IsRegistered e e' sender clawback (q ∷ rs) ids (log, r) h =
      let (id, ids', mid, one, rest, _) = create_all-cons e e' sender clawback q rs ids h in
      create_all-IsRegistered mid e' sender clawback rs ids'
        (_, create_stream-Registered e mid (request_args sender clawback q) q.deposit id log r one)
        rest

  -- A call that creates nothing.
  kept-IsRegistered :
      (e e' : Env L)
      → SameChain e e'
      → SameIndex e.store e'.store × (e'.self ≡ e.self)
      → IsRegistered e
      → IsRegistered e'
  kept-IsRegistered e e' k index (log, r) =
      let (appended, _) = kept-Appends e e' log r.represents index in
      let represents = subst (λ l. Represents e.self l e'.store) (append-nil log) appended in
      (log, same-Registered e e' log k.same_self k.same_streams represents r)

  apply-IsRegistered :
      (op : Op) (e e' : Env L) → apply op e ≡ ok (tt, e') → IsRegistered e → IsRegistered e'
  unfolding apply
  apply-IsRegistered (Op.initialize code governor) e e' h r =
      kept-IsRegistered e e' (initialize-SameChain ⦃rule = host.ttl_rule⦄ e e' code governor h)
        (initialize-SameIndex ⦃rule = host.ttl_rule⦄ e e' code governor h) r
  apply-IsRegistered (Op.create_stream args deposit) e e' h (log, r) =
      let (id, one) = dropped (create_stream args deposit) e e' h in
      (_, create_stream-Registered e e' args deposit id log r one)
  apply-IsRegistered (Op.create_batch_streams sender rs clawback) e e' h r =
      let (ids, k) = dropped (create_batch_streams sender rs clawback) e e' h in
      create_all-IsRegistered e e' sender clawback rs ids r
        (batch_steps e e' sender clawback rs ids k).2
  apply-IsRegistered (Op.upgrade_stream_wasm code) e e' h r =
      kept-IsRegistered e e' (upgrade-SameChain ⦃rule = host.ttl_rule⦄ e e' code h)
        (upgrade_stream_wasm-SameIndex ⦃rule = host.ttl_rule⦄ e e' code h) r
  apply-IsRegistered Op.pause e e' h r =
      kept-IsRegistered e e' (pause-SameChain ⦃rule = host.ttl_rule⦄ e e' h)
        (pause-SameIndex ⦃rule = host.ttl_rule⦄ e e' h) r
  apply-IsRegistered Op.unpause e e' h r =
      kept-IsRegistered e e' (unpause-SameChain ⦃rule = host.ttl_rule⦄ e e' h)
        (unpause-SameIndex ⦃rule = host.ttl_rule⦄ e e' h) r

  pub execute-IsRegistered :
      (t : Transaction L) (e : Env L) → IsRegistered (begun t e) → IsRegistered (execute t e)
  unfolding execute
  execute-IsRegistered t e r =
      elim (committed_cases (apply t.op) (begun t e) (apply t.op (begun t e)) refl) [
        | inl (e', h, same) ↦ rw same (apply-IsRegistered t.op (begun t e) e' h r)
        | inr same ↦ rw same r
      ]
