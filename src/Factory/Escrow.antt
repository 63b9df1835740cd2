-- ===== src/Factory/Escrow.antt =====
-- What `create_stream` of contracts/factory/src/lib.rs does with the deposit, and the stream that it
-- leaves behind.
use conduit_contracts.Base.{ℕ, ◌<◌, ◌≡◌, ◌≢◌, sym, ◌∙◌, ap, int_laws, ℤ, pos, ◌+ℤ◌, ◌-ℤ◌, ◌≤ℤ◌, ok}
use conduit_contracts.Host.{Address, Host}
use conduit_contracts.Governor.Storage.{Store as GovernorStore}
use conduit_contracts.Stream.Storage.{Store as StreamStore}
use conduit_contracts.Stream.Invariant.{IsValid, contract_value}
use conduit_contracts.Stream.Creation.{initial_info-IsValid}
use conduit_contracts.Stream.Balances.{Moves, transfer-Moves}
use conduit_contracts.Factory.Storage.{Env}
use conduit_contracts.Factory.Deploy.{Deployer, InitArgs}
use conduit_contracts.Factory.Creation.{create_stream}
use conduit_contracts.Factory.Opening.{Opened, open_stream-Opened, stream_info_of}
use conduit_contracts.Factory.Checks.{Checked, create_stream-Checked}

passed_on : (a d : ℤ) → a +ℤ d -ℤ d ≡ a
passed_on a d = omega int_laws

module _ {L : Type 0} ⦃host : Host L⦄ ⦃deployer : Deployer⦄ where
  -- The deposit went from the sender through the factory to the stream.
  pub record Escrowed (e e' : Env L) (token sender stream : Address) (deposit : ℤ) : Type 0 where
    pub sender_pays :
        host.balance e'.ledger token sender ≡ host.balance e.ledger token sender -ℤ deposit
    pub stream_holds :
        host.balance e'.ledger token stream ≡ host.balance e.ledger token stream +ℤ deposit
    pub factory_keeps_nothing :
        host.balance e'.ledger token e.self ≡ host.balance e.ledger token e.self
    pub others_kept :
        (a : Address)
        → a ≢ sender
        → a ≢ stream
        → a ≢ e.self
        → host.balance e'.ledger token a ≡ host.balance e.ledger token a

  two_transfers :
      (e e' : Env L) (token sender stream : Address) (deposit : ℤ) (mid : L)
      → sender ≢ e.self
      → sender ≢ stream
      → stream ≢ e.self
      → Moves e.ledger mid token sender e.self deposit
      → Moves mid e'.ledger token e.self stream deposit
      → Escrowed e e' token sender stream deposit
  two_transfers e e' token sender stream deposit mid sf ss tf p q = record {
    sender_pays = q.frame sender sf ss ∙ p.debit;
    stream_holds = q.credit ∙ ap (λ b. b +ℤ deposit) (p.frame stream (λ x. ss (sym x)) tf);
    factory_keeps_nothing = q.debit ∙ ap (λ b. b -ℤ deposit) p.credit ∙ passed_on _ deposit;
    others_kept = λ a x y z. q.frame a z y ∙ p.frame a x z;
  }

  -- A successful `create_stream` was authorized by the sender, on a factory that is not halted, and
  -- its arguments are sound and within the live bounds of the governor. It takes the identifier
  -- that the count gave, moves the deposit from the sender to the new stream and keeps nothing, and
  -- leaves at a fresh address a contract of the current code whose stored stream has the arguments'
  -- terms, is valid, and, if it is bounded, is worth no more than the deposit that it holds.
  pub create_stream_escrows :
      (e e' : Env L) (args : InitArgs) (deposit : ℤ) (id : ℕ)
      → args.sender ≢ e.self
      → args.sender ≢ deployer.address_of e.self id
      → create_stream args deposit e ≡ ok (id, e')
      → (g : GovernorStore) × (code : ℕ) × (mid : L) × (s : StreamStore) × Checked e args deposit g
        × Opened e e' args deposit id code mid s
        × Escrowed e e' args.token args.sender (deployer.address_of e.self id) deposit
        × IsValid e.now (stream_info_of args)
        × (0 < args.end_time → pos (contract_value (stream_info_of args)) ≤ℤ deposit)
  create_stream_escrows e e' args deposit id sf ss h =
      let (g, checked, opens) = create_stream-Checked e e' args deposit id h in
      let (code, mid, s, o) = open_stream-Opened e e' args deposit id opens in
      let stream = deployer.address_of e.self id in
      let fresh = deployer.address_of_fresh e.self id in
      (
        g,
        code,
        mid,
        s,
        checked,
        o,
        two_transfers e e' args.token args.sender stream deposit mid sf ss fresh
            (transfer-Moves e.ledger mid args.token args.sender e.self deposit sf o.pulled)
            (transfer-Moves mid e'.ledger args.token e.self stream deposit (λ x. fresh (sym x))
              o.forwarded),
        initial_info-IsValid e.now args.sender args.recipient args.token args.rate_per_sec
            args.start_time args.end_time args.clawback checked.sound.rate_positive
            checked.sound.in_order,
        checked.sound.funded,
      )
