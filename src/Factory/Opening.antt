-- ===== src/Factory/Opening.antt =====
-- `create_stream` of contracts/factory/src/lib.rs: what a successful call has checked and done.
use mathlib.Core.Option
use conduit_contracts.Base.{
  ℕ, ◌+◌, ◌<◌, ◌≡◌, Option, some, none, arith, ℤ, ok, checked_add_u64, u64_limit, committed,
}
use conduit_contracts.Host.{Address, Host}
use conduit_contracts.Stream.Storage.{StreamInfo, Store as StreamStore, empty_store}
use conduit_contracts.Stream.Setup.{initialize, initial_info}
use conduit_contracts.Factory.Storage.{Env, Instance, at}
use conduit_contracts.Factory.Deploy.{Deployer, InitArgs, initialize_instance}
use conduit_contracts.Factory.Ttl.{threshold, extend_to}
use conduit_contracts.Factory.Creation.{open_stream, indexed}

abbrev pub stream_info_of : InitArgs → StreamInfo
stream_info_of a =
    initial_info a.sender a.recipient a.token a.rate_per_sec a.start_time a.end_time a.clawback

abbrev stored : Option Instance → StreamStore
stored none = empty_store
stored (some i) = i.store

module _ {L : Type 0} ⦃host : Host L⦄ where
  pub record Initialized (e e' : Env L) (address : Address) (code : ℕ) (args : InitArgs)
      (s : StreamStore) : Type 0 where
    pub same_store : e'.store ≡ e.store
    pub same_ledger : e'.ledger ≡ e.ledger
    pub same_self : e'.self ≡ e.self
    pub same_auth : e'.auth ≡ e.auth
    pub same_now : e'.now ≡ e.now
    pub deployed : e'.streams ≡ at e.streams address (some (record { code = code; store = s }))
    pub configured : s.config ≡ some (stream_info_of args)

  initialize_instance-Initialized :
      (e e' : Env L) (address : Address) (code : ℕ) (args : InitArgs)
      → initialize_instance address code args e ≡ ok (tt, e')
      → Initialized e e' address code args (stored (e'.streams address))
  unfolding initialize_instance initialize
  initialize_instance-Initialized e e' address code args h = ground arith

module _ {L : Type 0} ⦃host : Host L⦄ ⦃deployer : Deployer⦄ where
  pub record Opened (e e' : Env L) (args : InitArgs) (deposit : ℤ) (id code : ℕ) (mid : L)
      (s : StreamStore) : Type 0 where
    pub id_is : id ≡ Option.get_or e.store.stream_count 0
    pub code_is : e.store.stream_wasm_hash ≡ some code
    pub not_taken : e.streams (deployer.address_of e.self id) ≡ none
    pub pulled : host.transfer e.ledger args.token args.sender e.self deposit ≡ some mid
    pub forwarded :
        host.transfer mid args.token e.self (deployer.address_of e.self id) deposit ≡ some e'.ledger
    pub deployed :
        e'.streams
        ≡ at e.streams (deployer.address_of e.self id) (some (record { code = code; store = s }))
    pub configured : s.config ≡ some (stream_info_of args)
    pub same_self : e'.self ≡ e.self
    pub same_auth : e'.auth ≡ e.auth
    pub same_now : e'.now ≡ e.now
    pub in_u64 : id + 1 < u64_limit
    pub registered :
        e'.store
        ≡ indexed ⦃rule = host.ttl_rule⦄ id
            (id + 1)
            (deployer.address_of e.self id)
            args.sender
            args.recipient
            e.store

  -- The state when the stream is deployed, and after its `initialize`.
  abbrev pub pulled_env : Env L → InitArgs → ℤ → Env L
  pulled_env e args deposit = record e {
    ttl = host.extend_ttl threshold extend_to e.ttl;
    ledger = Option.get_or (host.transfer e.ledger args.token args.sender e.self deposit) e.ledger;
  }

  abbrev opened_env : Env L → InitArgs → ℤ → Env L
  opened_env e args deposit =
      committed
        (initialize_instance (deployer.address_of e.self (Option.get_or e.store.stream_count 0))
          (Option.get_or e.store.stream_wasm_hash 0) args)
        (pulled_env e args deposit)

  pub open_stream-Opened :
      (e e' : Env L) (args : InitArgs) (deposit : ℤ) (id : ℕ)
      → open_stream args deposit e ≡ ok (id, e')
      → (code : ℕ) × (mid : L) × (s : StreamStore) × Opened e e' args deposit id code mid s
  unfolding open_stream checked_add_u64
  open_stream-Opened e e' args deposit id h = (
    Option.get_or e.store.stream_wasm_hash 0,
    Option.get_or (host.transfer e.ledger args.token args.sender e.self deposit) e.ledger,
    stored (e'.streams (deployer.address_of e.self id)),
    ground (
      arith,
      initialize_instance-Initialized (pulled_env e args deposit) (opened_env e args deposit)
          (deployer.address_of e.self (Option.get_or e.store.stream_count 0))
          (Option.get_or e.store.stream_wasm_hash 0) args,
    ),
  )
