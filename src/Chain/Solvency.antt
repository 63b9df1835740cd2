-- ===== src/Chain/Solvency.antt =====
-- Every stream on the chain stays sound, whatever transactions run and in whatever order.
use conduit_contracts.Base.{
  ℕ, ◌≤◌, ◌<◌, ◌≡◌, ◌⊎◌, inl, inr, refl, sym, ap, ◌∙◌, true, false, none, some, arith, ℤ, pos, ◌+ℤ◌,
  ◌≤ℤ◌, ok, subst, List, [],
}
use mathlib.Core.Option.{some-injective}
use conduit_contracts.Host.{Address, Host, TokenLaws}
use conduit_contracts.Stream.Storage.{
  StreamInfo, Event as StreamEvent, is_cancelled, is_clawback_enabled,
}
use conduit_contracts.Stream.Math.{withdrawable_amount}
use conduit_contracts.Stream.Invariant.{IsValid, contract_value, later-IsValid}
use conduit_contracts.Stream.Run.{Op as StreamOp, Transaction, execute as execute_stream}
use conduit_contracts.Stream.History.{execute-Continues}
use conduit_contracts.Stream.Escrow.{Covers-withdrawable}
use conduit_contracts.Stream.Sparing.{same-Spares, transfer-Spares}
use conduit_contracts.Factory.Storage.{Env, Instance}
use conduit_contracts.Factory.Deploy.{Deployer}
use conduit_contracts.Factory.Operation.{Op as FactoryOp}
use conduit_contracts.Chain.Steps.{
  Invocation, stream_env, call_stream, call_governor, call_factory, IsOutside, SignedOutside, Step,
  Reach,
}
use conduit_contracts.Chain.Streams.{Guarded, execute-Guarded, execute-Spares}
use conduit_contracts.Chain.Soundness.{Holds, Sound, kept-Holds, at_cases}
use conduit_contracts.Chain.Calls.{execute-Advances}

module _ {L : Type 0} ⦃host : Host L⦄ ⦃deployer : Deployer⦄ where
  -- Transactions that leave the streams and the tokens alone.
  same-Sound :
      (e e' : Env L)
      → e'.self ≡ e.self
      → e.now ≤ e'.now
      → e'.ledger ≡ e.ledger
      → e'.streams ≡ e.streams
      → Sound e
      → Sound e'
  same-Sound e e' self_is later ledger_is streams_are sound a s there =
      kept-Holds e e' a s self_is later (same-Spares e.ledger e'.ledger a ledger_is)
        (sound a s (ap (λ f. f a) (sym streams_are) ∙ there))

  pub Holds-IsValid :
      (e : Env L) (a : Address) (s : Instance) (info : StreamInfo)
      → Holds e a s
      → s.store.config ≡ some info
      → IsValid e.now info
  Holds-IsValid e a s info k stored =
      subst (IsValid e.now) (some-injective k.info info (sym k.stored ∙ stored)) k.valid

  Holds-solvent :
      (e : Env L) (a : Address) (s : Instance) (info : StreamInfo)
      → Holds e a s
      → s.store.config ≡ some info
      → 0 < info.end_time
      → is_clawback_enabled info ≡ false
      → (is_cancelled info ≡ true)
        ⊎ ((pos (contract_value info) ≤ℤ info.withdrawn +ℤ host.balance e.ledger info.token a)
            × ((now : ℕ) (available : ℤ)
                → e.now ≤ now
                → withdrawable_amount now info ≡ ok available
                → available ≤ℤ host.balance e.ledger info.token a))
  Holds-solvent e a s info k stored b u =
      let same = some-injective k.info info (sym k.stored ∙ stored) in
      let valid = Holds-IsValid e a s info k stored in
      elim (subst (Guarded e.ledger a) same k.guarded b u) [
        | inl x ↦ inl x
        | inr covered ↦ inr (
          covered,
          λ now available later due.
              Covers-withdrawable
                (stream_env e a s (record { now = now; auth = λ _. false; ttl = 0 }) []) info now
                available (later-IsValid e.now now info later valid)
                (record { is_bounded = b; unclawable = u; covered = covered }) due,
        )
      ]

module _ {L : Type 0} ⦃host : Host L⦄ ⦃deployer : Deployer⦄ ⦃laws : TokenLaws L⦄ where
  call_factory-Sound :
      (i : Invocation) (op : FactoryOp) (e : Env L)
      → e.now ≤ i.now
      → SignedOutside e.self i
      → Sound e
      → Sound (call_factory i op e)
  unfolding call_factory
  call_factory-Sound i op e later quiet sound =
      (execute-Advances _ e (same-Sound e _ refl later refl refl sound) quiet).sound

  call_stream-Sound :
      (i : Invocation) (op : StreamOp) (address : Address) (s : Instance)
      (events : List StreamEvent) (e : Env L)
      → e.now ≤ i.now
      → SignedOutside e.self i
      → e.streams address ≡ some s
      → Sound e
      → Sound (call_stream address s i events op e)
  unfolding call_stream
  call_stream-Sound i op address s events e later (_, quiets) deployed sound a x there =
      let t : Transaction L = record {
        op = op;
        now = i.now;
        auth = i.auth;
        ledger = e.ledger;
        ttl = i.ttl;
      } in
      let before = stream_env e address s i events in
      let k = sound address s deployed in
      let valid = later-IsValid e.now i.now k.info later k.valid in
      let (after, stored, continues) =
        execute-Continues t before k.info e.now k.stored k.valid later in
      let called = execute_stream t before in
      elim (at_cases e.streams address (record s { store = called.store }) a x there) [
        | inl (here, is) ↦ record {
          id = k.id;
          located = here ∙ k.located;
          info = after;
          stored = ap (λ y. y.store.config) is ∙ stored;
          valid = continues.valid;
          guarded = rw here (
              execute-Guarded t before k.info after k.stored valid k.guarded
                (rw k.located (quiets k.id)) stored);
        }
        | inr (other, there') ↦
            let k' = sound a x there' in
            kept-Holds e (call_stream address s i events op e) a x refl later
              (execute-Spares t before k.info a k.stored other (rw k'.located (quiets k'.id))) k'
      ]

  payment-Sound :
      (token from to : Address) (amount : ℤ) (l : L) (e : Env L)
      → IsOutside e.self from
      → host.transfer e.ledger token from to amount ≡ some l
      → Sound e
      → Sound (record e { ledger = l })
  payment-Sound token from to amount l e (_, outside) h sound a s there =
      let k = sound a s there in
      kept-Holds e (record e { ledger = l }) a s refl (omega arith)
        (transfer-Spares e.ledger l token from to amount a (λ q. outside k.id (sym q ∙ k.located))
          h)
        k

  pub Step-Sound : {e e' : Env L} → Step e e' → Sound e → Sound e'
  unfolding call_governor
  Step-Sound {e} (Step.factory_call i op later quiet) sound =
      call_factory-Sound i op e later quiet sound
  Step-Sound {e} (Step.stream_call i op address s events later quiet deployed) sound =
      call_stream-Sound i op address s events e later quiet deployed sound
  Step-Sound {e} (Step.governor_call i op address s later governs) sound =
      same-Sound e _ refl later refl refl sound
  Step-Sound {e} (Step.payment token from to amount l outside h) sound =
      payment-Sound token from to amount l e outside h sound

  pub Reach-Sound : {e e' : Env L} → Reach e e' → Sound e → Sound e'
  Reach-Sound Reach.here sound = sound
  Reach-Sound (Reach.next r step) sound = Step-Sound step (Reach-Sound r sound)

  -- From a chain without streams, after any transactions in any order: calls of the factory, of any
  -- stream and of any governor, by anybody but the contracts, with whatever outcome, and transfers
  -- from any account that is not a contract. Every bounded stream without the clawback flag was
  -- cancelled, or its contract holds at least what the whole stream is worth less what was
  -- withdrawn, so at every later time it holds what the recipient may then withdraw.
  pub chain_stays_solvent :
      {e e' : Env L} (a : Address) (s : Instance) (info : StreamInfo)
      → ((b : Address) → e.streams b ≡ none)
      → Reach e e'
      → e'.streams a ≡ some s
      → s.store.config ≡ some info
      → 0 < info.end_time
      → is_clawback_enabled info ≡ false
      → (is_cancelled info ≡ true)
        ⊎ ((pos (contract_value info) ≤ℤ info.withdrawn +ℤ host.balance e'.ledger info.token a)
            × ((now : ℕ) (available : ℤ)
                → e'.now ≤ now
                → withdrawable_amount now info ≡ ok available
                → available ≤ℤ host.balance e'.ledger info.token a))
  chain_stays_solvent {e' = e'} a s info fresh r deployed stored b u =
      Holds-solvent e' a s info (Reach-Sound r (λ a' s' there. cc (fresh a', there)) a s deployed)
        stored b u
