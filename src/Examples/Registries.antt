-- ===== src/Examples/Registries.antt =====
-- Histories of the factory, its halt and its fee, on concrete inputs.
use conduit_contracts.Base.{
  ◌+◌, ◌≡◌, refl, true, false, none, some, arith, List, [], ◌∷◌, take, drop, ltb, if◌then◌else◌,
  ◌==◌, pos, ok, err, trap, unauthorized,
}
use conduit_contracts.Host.{Address}
use conduit_contracts.Factory.Storage.{Env, Event, not_initialized, already_paused, not_paused}
use conduit_contracts.Factory.Admin.{
  pause, unpause, stream_count, stream_address, streams_by_sender, streams_by_recipient,
}
use conduit_contracts.Factory.Log.{Entry, positions, sent_by, received_by, Represents}
use conduit_contracts.Factory.Operation.{Op, Transaction, run, outcomes}
use conduit_contracts.Factory.Refinement.{replay, run_refines_log}
use conduit_contracts.Factory.Queries.{queries_read_log}
use conduit_contracts.Factory.Halt.{halted, Switched, halt_branches}
use conduit_contracts.Examples.Table.{Table, plain_rule, table_host}
use conduit_contracts.Examples.Fixtures.{purse, payer, payee, everyone}
use conduit_contracts.Examples.Factories.{next_door, open_factory, order, requests}

abbrev step : Op → Transaction Table
step op = record {
  op = op;
  now = 60;
  auth = everyone;
  ledger = purse;
  ttl = 500;
  governors = open_factory.governors;
  streams = λ a. none;
}

-- A stream, a halt, a stream that is refused, the end of the halt, and a batch.
abbrev history : List (Transaction Table)
history =
    step (Op.create_stream order (pos 500))
    ∷ step Op.pause
    ∷ step (Op.create_stream order (pos 600))
    ∷ step Op.unpause
    ∷ step (Op.create_batch_streams payer requests false)
    ∷ []

empty-Represents : Represents 100 [] open_factory.store
empty-Represents = record {
  counted = refl;
  addressed = λ i. ground arith;
  senders = λ a. refl;
  recipients = λ a. refl;
}

run_refines_log_example :
    Represents 100 (replay (outcomes history open_factory) []) (run history open_factory).store
    × ((run history open_factory).self ≡ 100)
run_refines_log_example = run_refines_log history open_factory [] empty-Represents

-- Two streams of the payer in the registry.
abbrev two_entries : List Entry
two_entries =
    record { sender = payer; recipient = payee } ∷ record { sender = payer; recipient = 8 } ∷ []

abbrev two_streams : Env Table
two_streams = record open_factory {
  store = record open_factory.store {
    stream_count = some 2;
    stream_addr = λ i. if ltb i 2 then some (101 + i) else none;
    by_sender = λ a. if a == payer then some (0 ∷ 1 ∷ []) else none;
    by_recipient =
        λ a. if a == payee then some (0 ∷ []) else if a == 8 then some (1 ∷ []) else none;
  };
}

two_streams-Represents : Represents 100 two_entries two_streams.store
two_streams-Represents = record {
  counted = refl;
  addressed = λ i. ground arith;
  senders = λ a. ground arith;
  recipients = λ a. ground arith;
}

queries_read_log_example :
    (stream_count two_streams ≡ ok (2, two_streams))
    × (stream_address 1 two_streams ≡ ok ((if ltb 1 2 then some 102 else none), two_streams))
    × (streams_by_sender payer 1 5 two_streams
        ≡ ok (take 5 (drop 1 (positions (sent_by payer) 0 two_entries)), two_streams))
    × (streams_by_recipient payer 1 5 two_streams
        ≡ ok (take 5 (drop 1 (positions (received_by payer) 0 two_entries)), two_streams))
queries_read_log_example =
    queries_read_log two_streams two_entries 1 1 5 payer two_streams-Represents (omega arith)
      (omega arith)

halt_branches_example :
    (open_factory.store.governor_address ≡ none
      → (pause open_factory ≡ err not_initialized) × (unpause open_factory ≡ err not_initialized))
    × ((governor : Address)
        → open_factory.store.governor_address ≡ some governor
        → everyone governor ≡ false
        → (pause open_factory ≡ trap unauthorized) × (unpause open_factory ≡ trap unauthorized))
    × ((governor : Address)
        → open_factory.store.governor_address ≡ some governor
        → everyone governor ≡ true
        → (halted open_factory ≡ true
            → (pause open_factory ≡ err already_paused)
              × ((e' : Env Table) × (unpause open_factory ≡ ok (tt, e'))
                  × Switched open_factory e' false (Event.unpaused governor 50)))
          × (halted open_factory ≡ false
              → (unpause open_factory ≡ err not_paused)
                × ((e' : Env Table) × (pause open_factory ≡ ok (tt, e'))
                    × Switched open_factory e' true (Event.paused governor 50))))
halt_branches_example = halt_branches open_factory
