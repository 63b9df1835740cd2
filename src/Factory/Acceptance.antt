-- ===== src/Factory/Acceptance.antt =====
-- `create_stream` of contracts/factory/src/lib.rs succeeds where nothing speaks against it.
use mathlib.Core.Option
use conduit_contracts.Base.{
  ℕ, ◌+◌, ◌-◌, ◌<◌, ◌≡◌, true, some, none, arith, ℤ, pos_part, ok, fits_i128, checked_mul,
  checked_add_u64, checked_sub_u64, u64_limit, committed, pos-*ℤ-pos, pos_of_nonneg, ◌⊎◌,
}
use conduit_contracts.Host.{Address, Host}
use conduit_contracts.Governor.Storage.{Store as GovernorStore}
use conduit_contracts.Governor.Config.{load}
use conduit_contracts.Stream.Setup.{initialize}
use conduit_contracts.Factory.Storage.{Env}
use conduit_contracts.Factory.Deploy.{Deployer, InitArgs, initialize_instance}
use conduit_contracts.Factory.Creation.{create_stream, open_stream, validate, check_bounds}
use conduit_contracts.Factory.Opening.{pulled_env}
use conduit_contracts.Factory.Checks.{Checked, IsSound, IsWithin, governor_store}

module _ {L : Type 0} where
  IsSound-validate :
      (deposit rate : ℤ) (start end : ℕ) (e : Env L)
      → fits_i128 deposit ≡ true
      → IsSound e.now deposit rate start end
      → validate deposit rate start end e ≡ ok (tt, e)
  unfolding validate checked_mul
  IsSound-validate deposit rate start end e fits s =
      ground (arith, pos-*ℤ-pos (pos_part rate) (end - start), pos_of_nonneg rate)

  IsWithin-check_bounds :
      (rate : ℤ) (start end : ℕ) (e : Env L) (s : GovernorStore) (collector factory : Address)
      → governor_store e ≡ some s
      → s.fee_recipient ≡ some collector
      → s.factory_address ≡ some factory
      → (end ≡ 0) ⊎ (start < end)
      → IsWithin s rate start end
      → check_bounds rate start end e ≡ ok (tt, e)
  unfolding check_bounds load checked_sub_u64
  IsWithin-check_bounds rate start end e s collector factory is c f o w = ground arith

module _ {L : Type 0} ⦃host : Host L⦄ ⦃deployer : Deployer⦄ where
  initialize_instance_ok :
      (e : Env L) (address : Address) (code : ℕ) (args : InitArgs) (deposit : ℤ) (now : ℕ)
      → IsSound now deposit args.rate_per_sec args.start_time args.end_time
      → (e' : Env L) × (initialize_instance address code args e ≡ ok (tt, e'))
        × (e'.ledger ≡ e.ledger)
        × (e'.store ≡ e.store)
  unfolding initialize_instance initialize
  initialize_instance_ok e address code args deposit now s = (
    committed (initialize_instance address code args) e,
    ground arith,
    ground arith,
    ground arith,
  )

  -- What the world outside the factory must grant: the code to deploy, a free address, both
  -- transfers, and a next identifier. `last` is what the transfers leave.
  pub record Ready (e : Env L) (args : InitArgs) (deposit : ℤ) (code : ℕ) (mid last : L)
      : Type 0 where
    pub code_is : e.store.stream_wasm_hash ≡ some code
    pub not_taken :
        e.streams (deployer.address_of e.self (Option.get_or e.store.stream_count 0)) ≡ none
    pub pulled : host.transfer e.ledger args.token args.sender e.self deposit ≡ some mid
    pub forwarded :
        host.transfer mid args.token e.self
          (deployer.address_of e.self (Option.get_or e.store.stream_count 0))
          deposit
        ≡ some last
    pub in_u64 : Option.get_or e.store.stream_count 0 + 1 < u64_limit

  Ready-open_stream :
      (e : Env L) (args : InitArgs) (deposit : ℤ) (code : ℕ) (mid last : L)
      → IsSound e.now deposit args.rate_per_sec args.start_time args.end_time
      → Ready e args deposit code mid last
      → (e' : Env L) × (open_stream args deposit e ≡ ok (Option.get_or e.store.stream_count 0, e'))
        × (e'.ledger ≡ last)
  unfolding open_stream checked_add_u64
  Ready-open_stream e args deposit code mid last s r =
      let address = deployer.address_of e.self (Option.get_or e.store.stream_count 0) in
      let (_, runs, same_ledger, same_store) =
        initialize_instance_ok (pulled_env e args deposit) address code args deposit e.now s in
      (
        committed (open_stream args deposit) e,
        ground (arith, runs, same_ledger, same_store),
        ground (arith, runs, same_ledger, same_store),
      )

  -- A creation that the sender authorized, on a factory that is not halted, with sound arguments
  -- within the bounds of a governor that was initialized, and a deposit that fits an `i128`,
  -- succeeds where code is set, the new address is free, both transfers are accepted and an
  -- identifier is left: it gives out the identifier that the count stood at, and leaves the tokens
  -- as the second transfer does.
  pub create_stream_succeeds :
      (e : Env L) (args : InitArgs) (deposit : ℤ) (g : GovernorStore) (collector factory : Address)
      (code : ℕ) (mid last : L)
      → Checked e args deposit g
      → g.fee_recipient ≡ some collector
      → g.factory_address ≡ some factory
      → fits_i128 deposit ≡ true
      → Ready e args deposit code mid last
      → (e' : Env L) × (create_stream args deposit e
          ≡ ok (Option.get_or e.store.stream_count 0, e'))
        × (e'.ledger ≡ last)
  unfolding create_stream
  create_stream_succeeds e args deposit g collector factory code mid last c fr fa fits r =
      let (e', opened, ledger) = Ready-open_stream e args deposit code mid last c.sound r in
      let valid =
        IsSound-validate deposit args.rate_per_sec args.start_time args.end_time e fits c.sound in
      let bounded =
        IsWithin-check_bounds args.rate_per_sec args.start_time args.end_time e g collector factory
          c.governor_is fr fa c.sound.in_order c.within in
      (e', ground (arith, c.authorized, c.running, valid, bounded, opened), ledger)
