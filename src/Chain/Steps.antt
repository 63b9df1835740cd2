-- ===== src/Chain/Steps.antt =====
-- What happens on the chain, one transaction after another: calls of the entry points of
-- contracts/factory/src/lib.rs, contracts/stream/src/lib.rs and contracts/governor/src/lib.rs, and
-- token transfers by others. The state is the factory's view of the chain, which has the governors,
-- the streams and the tokens.
use conduit_contracts.Base.{ℕ, ◌≤◌, ◌≡◌, ◌≢◌, Bool, false, some, ℤ, List}
use conduit_contracts.Host.{Address, Host}
use conduit_contracts.Governor.Storage.{Store as GovernorStore}
use conduit_contracts.Governor.Operation.{Op as GovernorOp}
use conduit_contracts.Governor.Governance.{execute as execute_governor}
use conduit_contracts.Stream.Storage.{Event as StreamEvent}
use conduit_contracts.Stream.State.{Env as StreamEnv}
use conduit_contracts.Stream.Run.{Op as StreamOp, execute as execute_stream}
use conduit_contracts.Factory.Storage.{Env, Instance, at}
use conduit_contracts.Factory.Deploy.{Deployer}
use conduit_contracts.Factory.Operation.{Op as FactoryOp, execute as execute_factory}

-- When a transaction runs, who signed it, and the time to live that its contract has left.
pub record Invocation : Type 0 where
  pub now : ℕ
  pub auth : Address → Bool
  pub ttl : ℕ

module _ {L : Type 0} ⦃host : Host L⦄ where
  -- The environment of a call of the stream `s` at `address`, whose events so far are given.
  abbrev pub stream_env : Env L → Address → Instance → Invocation → List StreamEvent → StreamEnv L
  stream_env e address s i events = record {
    now = i.now;
    self = address;
    auth = i.auth;
    store = s.store;
    ttl = i.ttl;
    ledger = e.ledger;
    events = events;
  }

  -- What a call of that stream leaves.
  unfoldable pub call_stream :
      Address → Instance → Invocation → List StreamEvent → StreamOp → Env L → Env L
  call_stream address s i events op e =
      let before = stream_env e address s i events in
      let after =
        execute_stream
          (record { op = op; now = i.now; auth = i.auth; ledger = e.ledger; ttl = i.ttl }) before in
      record e {
        now = i.now;
        ledger = after.ledger;
        streams = at e.streams address (some (record s { store = after.store }));
      }

  -- What a call of the governor with storage `s` at `address` leaves.
  unfoldable pub call_governor : Address → GovernorStore → Invocation → GovernorOp → Env L → Env L
  call_governor address s i op e =
      let after =
        execute_governor ⦃rule = host.ttl_rule⦄ (op, i.auth, i.ttl)
          (record { auth = i.auth; store = s; ttl = i.ttl }) in
      record e { now = i.now; governors = at e.governors address (some after.store) }

module _ ⦃deployer : Deployer⦄ where
  -- An account that is neither the factory nor at the address of a stream.
  abbrev pub IsOutside : Address → Address → Type 0
  IsOutside self a = (a ≢ self) × ((id : ℕ) → a ≢ deployer.address_of self id)

  -- The contracts sign nothing: what they move they move in their own calls.
  abbrev pub SignedOutside : Address → Invocation → Type 0
  SignedOutside self i =
      (i.auth self ≡ false) × ((id : ℕ) → i.auth (deployer.address_of self id) ≡ false)

module _ {L : Type 0} ⦃host : Host L⦄ ⦃deployer : Deployer⦄ where
  unfoldable pub call_factory : Invocation → FactoryOp → Env L → Env L
  call_factory i op e =
      execute_factory
        (record {
          op = op;
          now = i.now;
          auth = i.auth;
          ledger = e.ledger;
          ttl = i.ttl;
          governors = e.governors;
          streams = e.streams;
        })
        e

  pub data Step (e : Env L) : Env L → Type 0 where
    factory_call :
        (i : Invocation) (op : FactoryOp)
        → e.now ≤ i.now
        → SignedOutside e.self i
        → Step e (call_factory i op e)
    stream_call :
        (i : Invocation) (op : StreamOp) (address : Address) (s : Instance)
        (events : List StreamEvent)
        → e.now ≤ i.now
        → SignedOutside e.self i
        → e.streams address ≡ some s
        → Step e (call_stream address s i events op e)
    governor_call :
        (i : Invocation) (op : GovernorOp) (address : Address) (s : GovernorStore)
        → e.now ≤ i.now
        → e.governors address ≡ some s
        → Step e (call_governor address s i op e)
    payment :
        (token from to : Address) (amount : ℤ) (l : L)
        → IsOutside e.self from
        → host.transfer e.ledger token from to amount ≡ some l
        → Step e (record e { ledger = l })

  pub data Reach (e : Env L) : Env L → Type 0 where
    here : Reach e e
    next : {mid last : Env L} → Reach e mid → Step mid last → Reach e last
