-- ===== src/Factory/Deploy.antt =====
-- contracts/factory/src/deploy.rs: a stream contract is deployed, then initialized.
use conduit_contracts.Base.{
  ℕ, ◌≡◌, ◌≢◌, Bool, none, some, ℤ, ok, err, panic, trap, call_failed, [], ◌>>◌,
}
use conduit_contracts.Host.{Address, Host}
use conduit_contracts.Stream.Storage.{empty_store}
use conduit_contracts.Stream.Setup.{initialize}
use conduit_contracts.Factory.Storage.{Call, at}

-- The host's deployer: the address that `with_current_contract(sha256(id.to_be_bytes()))` gives the
-- contract that `factory` deploys for `id`. Different identifiers get different addresses, and none
-- is the factory's own.
pub record Deployer : Type 0 where
  pub address_of : Address → ℕ → Address
  pub address_of_injective :
      (factory : Address) (i j : ℕ) → address_of factory i ≡ address_of factory j → i ≡ j
  pub address_of_fresh : (factory : Address) (i : ℕ) → address_of factory i ≢ factory

-- The arguments of `DripStream::initialize`.
pub record InitArgs : Type 0 where
  pub sender : Address
  pub recipient : Address
  pub token : Address
  pub rate_per_sec : ℤ
  pub start_time : ℕ
  pub end_time : ℕ
  pub clawback : Bool

module _ {L : Type 0} ⦃host : Host L⦄ where
  -- The call of `initialize` on the new contract, which starts with no storage. `code` stands for
  -- the wasm of DripStream; a call that does not succeed traps.
  unfoldable pub initialize_instance : Address → ℕ → InitArgs → Call L (Unit {0})
  initialize_instance address code a e =
      elim (initialize a.sender a.recipient a.token a.rate_per_sec a.start_time a.end_time
        a.clawback
        (record {
          now = e.now;
          self = address;
          auth = e.auth;
          store = empty_store;
          ttl = 0;
          ledger = e.ledger;
          events = [];
        })) [
          | ok (u, s) ↦ ok (
            tt,
            record e {
              ledger = s.ledger;
              streams = at e.streams address (some (record { code = code; store = s.store }));
            },
          )
          | err x ↦ trap call_failed
          | panic x ↦ trap call_failed
          | trap t ↦ trap call_failed
        ]

module _ {L : Type 0} ⦃host : Host L⦄ ⦃deployer : Deployer⦄ where
  -- The host refuses to deploy at an address that is taken.
  unfoldable pub deploy_stream : ℕ → ℕ → InitArgs → Call L Address
  deploy_stream wasm_hash stream_id args e =
      let address = deployer.address_of e.self stream_id in
      elim (e.streams address) [
        | some taken ↦ trap call_failed
        | none ↦ (do initialize_instance address wasm_hash args; (λ e'. ok (address, e'))) e
      ]
