-- ===== src/Chain/Records.antt =====
-- The factory's registry agrees with the streams on the chain, whatever transactions run.
use native.Mathlib.Decide.{ℕ_discrete}
use mathlib.Core.Option.{some-injective}
use conduit_contracts.Base.{ℕ, ◌≤◌, ◌≡◌, inl, inr, refl, sym, ap, ◌∙◌, none, some, List, []}
use conduit_contracts.Host.{Address, Host, TokenLaws}
use conduit_contracts.Stream.Storage.{Event as StreamEvent}
use conduit_contracts.Stream.Run.{Op as StreamOp, Transaction, execute as execute_stream}
use conduit_contracts.Stream.History.{execute-Continues}
use conduit_contracts.Factory.Storage.{Env, Instance}
use conduit_contracts.Factory.Deploy.{Deployer}
use conduit_contracts.Factory.Log.{Entry, Represents}
use conduit_contracts.Chain.Steps.{
  Invocation, stream_env, call_stream, call_governor, call_factory, Step, Reach,
}
use conduit_contracts.Chain.Soundness.{Sound, at_cases}
use conduit_contracts.Chain.Solvency.{Reach-Sound}
use conduit_contracts.Chain.Registry.{
  Owned, Registered, IsRegistered, same-Registered, at_same, at_other,
}
use conduit_contracts.Chain.RegistryCalls.{execute-IsRegistered}

module _ {L : Type 0} ⦃host : Host L⦄ ⦃deployer : Deployer⦄ where
  -- What the log says of one stream is still so after a call of the stream at `address`.
  called-Owned :
      (i : Invocation) (op : StreamOp) (address : Address) (s : Instance)
      (events : List StreamEvent) (e : Env L) (id : ℕ) (x : Entry)
      → e.now ≤ i.now
      → e.streams address ≡ some s
      → Sound e
      → Owned e id x
      → Owned (call_stream address s i events op e) id x
  unfolding call_stream
  called-Owned i op address s events e id x later deployed sound o =
      let t : Transaction L = record {
        op = op;
        now = i.now;
        auth = i.auth;
        ledger = e.ledger;
        ttl = i.ttl;
      } in
      let before = stream_env e address s i events in
      let k = sound address s deployed in
      let (after, stored, continues) =
        execute-Continues t before k.info e.now k.stored k.valid later in
      let called : Instance = record s { store = (execute_stream t before).store } in
      let place = deployer.address_of e.self id in
      elim (ℕ_discrete place address) [
        | yes here ↦
            let same_contract =
              some-injective s o.contract (sym deployed ∙ (rw (← here) o.deployed)) in
            let same_info =
              some-injective k.info o.info
                (sym k.stored ∙ ap (λ y. y.store.config) same_contract ∙ o.stored) in
            record {
              contract = called;
              info = after;
              deployed = rw here (at_same e.streams address (some called));
              stored = stored;
              same_sender = continues.same_sender ∙ ap (λ y. y.sender) same_info ∙ o.same_sender;
            }
        | no there ↦ record {
          contract = o.contract;
          info = o.info;
          deployed = at_other e.streams address (some called) place there ∙ o.deployed;
          stored = o.stored;
          same_sender = o.same_sender;
        }
      ]

  call_stream-IsRegistered :
      (i : Invocation) (op : StreamOp) (address : Address) (s : Instance)
      (events : List StreamEvent) (e : Env L)
      → e.now ≤ i.now
      → e.streams address ≡ some s
      → Sound e
      → IsRegistered e
      → IsRegistered (call_stream address s i events op e)
  unfolding call_stream
  call_stream-IsRegistered i op address s events e later deployed sound (log, r) = (
    log,
    record {
      represents = r.represents;
      placed = λ id x h.
          called-Owned i op address s events e id x later deployed sound (r.placed id x h);
      known = λ a y there. elim (at_cases e.streams address _ a y there) [
        | inl (here, _) ↦ rw here (r.known address s deployed)
        | inr (_, before) ↦ r.known a y before
      ];
    },
  )

module _ {L : Type 0} ⦃host : Host L⦄ ⦃deployer : Deployer⦄ ⦃laws : TokenLaws L⦄ where
  Step-IsRegistered : {e e' : Env L} → Step e e' → Sound e → IsRegistered e → IsRegistered e'
  unfolding call_factory call_governor
  Step-IsRegistered {e} (Step.factory_call i op later quiet) sound (log, r) =
      execute-IsRegistered _ e (log, same-Registered e _ log refl refl r.represents r)
  Step-IsRegistered {e} (Step.stream_call i op address s events later quiet deployed) sound r =
      call_stream-IsRegistered i op address s events e later deployed sound r
  Step-IsRegistered {e} (Step.governor_call i op address s later governs) sound (log, r) =
      (log, same-Registered e _ log refl refl r.represents r)
  Step-IsRegistered {e} (Step.payment token from to amount l outside h) sound (log, r) =
      (log, same-Registered e _ log refl refl r.represents r)

  Reach-IsRegistered : {e e' : Env L} → Reach e e' → Sound e → IsRegistered e → IsRegistered e'
  Reach-IsRegistered Reach.here sound r = r
  Reach-IsRegistered (Reach.next before step) sound r =
      Step-IsRegistered step (Reach-Sound before sound) (Reach-IsRegistered before sound r)

  -- From a chain without streams and an empty registry, after any transactions in any order: the
  -- registry stands for a log of streams, each entry's stream stands at the address of its
  -- identifier with the sender that the log has, whoever receives it by now, and every stream on
  -- the chain is an entry of the log.
  pub chain_registers_streams :
      {e e' : Env L}
      → ((b : Address) → e.streams b ≡ none)
      → Represents e.self [] e.store
      → Reach e e'
      → (log : List Entry) × Registered e' log
  chain_registers_streams {e} fresh empty r =
      Reach-IsRegistered r (λ a s there. cc (fresh a, there))
        (
          [],
          record {
            represents = empty;
            placed = λ id x h. cc h;
            known = λ a s there. cc (fresh a, there);
          },
        )
