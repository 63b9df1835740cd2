-- ===== src/Chain/Calls.antt =====
-- Every call of contracts/factory/src/lib.rs keeps every stream sound.
use conduit_contracts.Base.{
  ℕ, ◌≡◌, inl, inr, refl, sym, ap, ◌∙◌, arith, ok, Bool, List, [], ◌∷◌, committed_cases,
}
use conduit_contracts.Host.{Address, Host, TokenLaws, TtlRule}
use conduit_contracts.Stream.Sparing.{same-Spares}
use conduit_contracts.Factory.Storage.{Env}
use conduit_contracts.Factory.Deploy.{Deployer}
use conduit_contracts.Factory.Creation.{
  create_stream, create_all, create_batch_streams, BatchStreamRequest, request_args,
}
use conduit_contracts.Factory.Admin.{initialize, upgrade_stream_wasm, pause, unpause}
use conduit_contracts.Factory.Registry.{create_all-cons, batch_steps}
use conduit_contracts.Factory.Operation.{Op, apply, Transaction, begun, execute}
use conduit_contracts.Factory.Refinement.{dropped}
use conduit_contracts.Chain.Soundness.{Sound, Advances, Unsigned, kept-Holds}
use conduit_contracts.Chain.Creation.{create_stream-Advances}

module _ {L : Type 0} where
  -- What a call that creates nothing leaves of the chain.
  pub record SameChain (e e' : Env L) : Type 0 where
    pub same_self : e'.self ≡ e.self
    pub same_auth : e'.auth ≡ e.auth
    pub same_now : e'.now ≡ e.now
    pub same_ledger : e'.ledger ≡ e.ledger
    pub same_streams : e'.streams ≡ e.streams

  module _ ⦃rule : TtlRule⦄ (e e' : Env L) where
    pub initialize-SameChain :
        (code : ℕ) (governor : Address) → initialize code governor e ≡ ok (tt, e') → SameChain e e'
    unfolding initialize
    initialize-SameChain code governor h = ground arith

    pub upgrade-SameChain : (code : ℕ) → upgrade_stream_wasm code e ≡ ok (tt, e') → SameChain e e'
    unfolding upgrade_stream_wasm
    upgrade-SameChain code h = ground arith

    pub pause-SameChain : pause e ≡ ok (tt, e') → SameChain e e'
    unfolding pause
    pause-SameChain h = ground arith

    pub unpause-SameChain : unpause e ≡ ok (tt, e') → SameChain e e'
    unfolding unpause
    unpause-SameChain h = ground arith

module _ {L : Type 0} ⦃host : Host L⦄ ⦃deployer : Deployer⦄ where
  SameChain-Advances : (e e' : Env L) → Sound e → SameChain e e' → Advances e e'
  SameChain-Advances e e' sound k = record {
    same_self = k.same_self;
    same_auth = k.same_auth;
    same_now = k.same_now;
    sound = λ a s there.
        kept-Holds e e' a s k.same_self (omega (arith, k.same_now))
          (same-Spares e.ledger e'.ledger a k.same_ledger)
          (sound a s (ap (λ f. f a) (sym k.same_streams) ∙ there));
  }

  Advances-trans : (e m r : Env L) → Advances e m → Advances m r → Advances e r
  Advances-trans e m r p q = record {
    same_self = q.same_self ∙ p.same_self;
    same_auth = q.same_auth ∙ p.same_auth;
    same_now = q.same_now ∙ p.same_now;
    sound = q.sound;
  }

  Advances-Unsigned : (e e' : Env L) → Advances e e' → Unsigned e → Unsigned e'
  Advances-Unsigned e e' p u = rw (p.same_self, p.same_auth) u

module _ {L : Type 0} ⦃host : Host L⦄ ⦃deployer : Deployer⦄ ⦃laws : TokenLaws L⦄ where
  create_all-Advances :
      (e e' : Env L) (sender : Address) (clawback : Bool) (rs : List BatchStreamRequest)
      (ids : List ℕ)
      → Sound e
      → Unsigned e
      → create_all sender clawback rs e ≡ ok (ids, e')
      → Advances e e'
  unfolding create_all
  create_all-Advances e e' sender clawback [] ids sound u h =
      let same : e' ≡ e = ground arith in
      rw same (
        SameChain-Advances e e sound (record {
          same_self = refl;
          same_auth = refl;
          same_now = refl;
          same_ledger = refl;
          same_streams = refl;
        }))
  create_all-Advances e e' sender clawback (r ∷ rs) ids sound u h =
      let (id, ids', mid, one, rest, _) = create_all-cons e e' sender clawback r rs ids h in
      let first =
        create_stream-Advances e mid (request_args sender clawback r) r.deposit id sound u one in
      Advances-trans e mid e' first (
        create_all-Advances mid e' sender clawback rs ids' first.sound
          (Advances-Unsigned e mid first u) rest)

  apply-Advances :
      (op : Op) (e e' : Env L) → Sound e → Unsigned e → apply op e ≡ ok (tt, e') → Advances e e'
  unfolding apply
  apply-Advances (Op.initialize code governor) e e' sound u h =
      SameChain-Advances e e' sound
        (initialize-SameChain ⦃rule = host.ttl_rule⦄ e e' code governor h)
  apply-Advances (Op.create_stream args deposit) e e' sound u h =
      let (id, one) = dropped (create_stream args deposit) e e' h in
      create_stream-Advances e e' args deposit id sound u one
  apply-Advances (Op.create_batch_streams sender rs clawback) e e' sound u h =
      let (ids, k) = dropped (create_batch_streams sender rs clawback) e e' h in
      create_all-Advances e e' sender clawback rs ids sound u
        (batch_steps e e' sender clawback rs ids k).2
  apply-Advances (Op.upgrade_stream_wasm code) e e' sound u h =
      SameChain-Advances e e' sound (upgrade-SameChain ⦃rule = host.ttl_rule⦄ e e' code h)
  apply-Advances Op.pause e e' sound u h =
      SameChain-Advances e e' sound (pause-SameChain ⦃rule = host.ttl_rule⦄ e e' h)
  apply-Advances Op.unpause e e' sound u h =
      SameChain-Advances e e' sound (unpause-SameChain ⦃rule = host.ttl_rule⦄ e e' h)

  -- A transaction of the factory, with whatever outcome.
  pub execute-Advances :
      (t : Transaction L) (e : Env L)
      → Sound (begun t e)
      → Unsigned (begun t e)
      → Advances (begun t e) (execute t e)
  unfolding execute
  execute-Advances t e sound u =
      elim (committed_cases (apply t.op) (begun t e) (apply t.op (begun t e)) refl) [
        | inl (e', h, same) ↦ rw same (apply-Advances t.op (begun t e) e' sound u h)
        | inr same ↦
            rw same (record { same_self = refl; same_auth = refl; same_now = refl; sound = sound })
      ]
