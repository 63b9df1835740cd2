-- ===== src/Factory/Halt.antt =====
-- The emergency halt of contracts/factory/src/lib.rs as a state machine, and what it stops.
use mathlib.Core.Option
use conduit_contracts.Base.{
  ◌≡◌, Bool, true, false, some, none, arith, ℤ, List, ◌∷◌, ok, err, trap, unauthorized, committed,
  length, ◌≤◌,
}
use conduit_contracts.Host.{Address, Host}
use conduit_contracts.Factory.Storage.{
  Env, Event, contract_paused, already_paused, not_paused, not_initialized,
}
use conduit_contracts.Factory.Deploy.{Deployer, InitArgs}
use conduit_contracts.Factory.Creation.{
  BatchStreamRequest, create_stream, create_all, create_batch_streams, max_batch_size,
}
use conduit_contracts.Factory.Admin.{pause, unpause}
use conduit_contracts.Factory.Maintenance.{bump_bucket-SameSettings}

abbrev pub halted : {L : Type 0} → Env L → Bool
halted e = Option.get_or e.store.paused false

module _ {L : Type 0} ⦃host : Host L⦄ where
  -- What a change of the halt leaves: the flag, one event, and everything but times to live.
  pub record Switched (e e' : Env L) (flag : Bool) (event : Event) : Type 0 where
    pub flag_is : halted e' ≡ flag
    pub published : e'.events ≡ event ∷ e.events
    pub same_code : e'.store.stream_wasm_hash ≡ e.store.stream_wasm_hash
    pub same_governor : e'.store.governor_address ≡ e.store.governor_address
    pub same_ledger : e'.ledger ≡ e.ledger
    pub same_streams : e'.streams ≡ e.streams

  -- `pause` and `unpause` on every branch: without a governor they fail, anybody but the governor
  -- is refused, and in the state that they lead to they are refused. Otherwise they succeed: they
  -- switch the halt and publish one event, and change no code, governor, token or stream.
  pub halt_branches :
      (e : Env L)
      → (e.store.governor_address ≡ none
          → (pause ⦃rule = host.ttl_rule⦄ e ≡ err not_initialized)
            × (unpause ⦃rule = host.ttl_rule⦄ e ≡ err not_initialized))
        × ((governor : Address)
            → e.store.governor_address ≡ some governor
            → e.auth governor ≡ false
            → (pause ⦃rule = host.ttl_rule⦄ e ≡ trap unauthorized)
              × (unpause ⦃rule = host.ttl_rule⦄ e ≡ trap unauthorized))
        × ((governor : Address)
            → e.store.governor_address ≡ some governor
            → e.auth governor ≡ true
            → (halted e ≡ true
                → (pause ⦃rule = host.ttl_rule⦄ e ≡ err already_paused)
                  × ((e' : Env L) × (unpause ⦃rule = host.ttl_rule⦄ e ≡ ok (tt, e'))
                      × Switched e e' false (Event.unpaused governor e.now)))
              × (halted e ≡ false
                  → (unpause ⦃rule = host.ttl_rule⦄ e ≡ err not_paused)
                    × ((e' : Env L) × (pause ⦃rule = host.ttl_rule⦄ e ≡ ok (tt, e'))
                        × Switched e e' true (Event.paused governor e.now))))
  unfolding pause unpause
  halt_branches e = (
    λ none_is. (ground arith, ground arith),
    λ governor is refused. (ground arith, ground arith),
    λ governor is authorized. (
      λ on. (
        ground arith,
        (
          committed (unpause ⦃rule = host.ttl_rule⦄) e,
          ground arith,
          ground (arith, bump_bucket-SameSettings ⦃rule = host.ttl_rule⦄ e.store),
        ),
      ),
      λ off. (
        ground arith,
        (
          committed (pause ⦃rule = host.ttl_rule⦄) e,
          ground arith,
          ground (arith, bump_bucket-SameSettings ⦃rule = host.ttl_rule⦄ e.store),
        ),
      ),
    ),
  )

module _ {L : Type 0} ⦃host : Host L⦄ ⦃deployer : Deployer⦄ where
  -- While the factory is halted no stream is created: a single creation by an authorized sender is
  -- refused with `ContractPaused`, and so is every batch of 1 to 100 requests, whatever they ask.
  halted_creates_nothing :
      (e : Env L) (args : InitArgs) (deposit : ℤ) (r : BatchStreamRequest)
      (rs : List BatchStreamRequest) (clawback : Bool)
      → halted e ≡ true
      → e.auth args.sender ≡ true
      → (create_stream args deposit e ≡ err contract_paused)
        × (length (r ∷ rs) ≤ max_batch_size
            → create_batch_streams args.sender (r ∷ rs) clawback e ≡ err contract_paused)
  unfolding create_stream create_batch_streams create_all
  halted_creates_nothing e args deposit r rs clawback h a = (ground arith, λ few. ground arith)
