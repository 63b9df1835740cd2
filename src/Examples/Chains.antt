-- ===== src/Examples/Chains.antt =====
-- A short history of the whole chain: a creation, a payment between outsiders, and a withdrawal.
use mathlib.Core.Option
use conduit_contracts.Base.{
  ◌+◌, ◌<◌, i128_limit, u64_limit, List, ltb, ℕ, ◌≤◌, ◌≡◌, ◌⊎◌, refl, true, false, some, none,
  arith, [], ℤ, pos, ◌+ℤ◌, ◌-ℤ◌, ◌*ℤ◌, ◌≤ℤ◌, min_ℤ, max_ℤ, ok, checked_add, checked_sub,
  checked_mul, checked_add_u64, checked_sub_u64, saturating_sub,
}
use conduit_contracts.Governor.Config.{load}
use conduit_contracts.Stream.Storage.{StreamInfo, empty_store, is_cancelled, is_clawback_enabled}
use conduit_contracts.Stream.Setup.{initialize}
use conduit_contracts.Stream.Math.{streamed_amount, withdrawable_amount}
use conduit_contracts.Stream.Payments.{withdraw}
use conduit_contracts.Stream.Run.{Op as StreamOp, apply as apply_stream, execute as execute_stream}
use conduit_contracts.Stream.Invariant.{contract_value}
use conduit_contracts.Factory.Storage.{Env, Instance}
use conduit_contracts.Factory.Deploy.{initialize_instance}
use conduit_contracts.Factory.Creation.{create_stream, open_stream, check_bounds, validate, indexed}
use conduit_contracts.Factory.Opening.{stream_info_of}
use conduit_contracts.Factory.Operation.{
  Op as FactoryOp, apply as apply_factory, execute as execute_factory,
}
use conduit_contracts.Chain.Steps.{
  Invocation, SignedOutside, Step, Reach, call_factory, stream_env, call_stream,
}
use conduit_contracts.Factory.Log.{Entry, Represents}
use conduit_contracts.Chain.Registry.{Registered}
use conduit_contracts.Stream.State.{Env as StreamEnv}
use conduit_contracts.Stream.EventLog.{counter}
use conduit_contracts.Chain.Payment.{AcceptsCovered, recipient_is_paid}
use conduit_contracts.Chain.Records.{chain_registers_streams}
use conduit_contracts.Chain.Solvency.{chain_stays_solvent}
use conduit_contracts.Examples.Table.{Table, table_host, table_laws, move, holding, covered_move}
use conduit_contracts.Examples.Fixtures.{payer, payee, coin}
use conduit_contracts.Examples.Factories.{open_factory, next_door}
use conduit_contracts.Examples.Openings.{bounded_order}

-- Everybody below the factory, which is at 100, with its streams behind it.
abbrev signed_at : ℕ → Invocation
signed_at now = record { now = now; auth = λ a. ltb a 100; ttl = 500 }

signed_outside : (now : ℕ) → SignedOutside 100 (signed_at now)
signed_outside now = (refl, λ id. ground arith)

abbrev opened : Env Table
opened =
    call_factory (signed_at 60) (FactoryOp.create_stream bounded_order (pos 4_000)) open_factory

abbrev instance_of : Env Table → Instance
instance_of e = elim (e.streams 101) [
  | none ↦ record { code = 0; store = empty_store }
  | some s ↦ s
]

abbrev paid : Env Table
paid = record opened {
  ledger = Option.get_or (move opened.ledger coin payer 4 (pos 10)) opened.ledger;
}

abbrev withdrawn : Env Table
withdrawn = call_stream 101 (instance_of paid) (signed_at 160) [] (StreamOp.withdraw (pos 50)) paid

abbrev left_over : StreamInfo
left_over = record (stream_info_of bounded_order) { withdrawn = pos 50 }

history : Reach open_factory withdrawn
unfolding call_factory execute_factory apply_factory create_stream open_stream check_bounds validate
    indexed initialize_instance initialize load checked_add_u64 checked_mul checked_sub_u64 ◌*ℤ◌
history =
    Reach.next
      (Reach.next
        (Reach.next Reach.here (
          Step.factory_call (signed_at 60) (FactoryOp.create_stream bounded_order (pos 4_000))
            (omega arith) (signed_outside 60)))
        (Step.payment coin payer 4 (pos 10) paid.ledger (omega arith, λ id. omega arith) refl))
      (Step.stream_call (signed_at 160) (StreamOp.withdraw (pos 50)) 101 (instance_of paid) []
        (omega arith) (signed_outside 160) refl)

stored : (instance_of withdrawn).store.config ≡ some left_over
unfolding call_factory execute_factory apply_factory create_stream open_stream check_bounds validate
    indexed initialize_instance initialize load call_stream execute_stream apply_stream withdraw
    streamed_amount withdrawable_amount ◌+ℤ◌ ◌-ℤ◌ ◌*ℤ◌ checked_add checked_sub checked_mul
    checked_add_u64 checked_sub_u64 min_ℤ max_ℤ saturating_sub
stored = refl

no_flag : is_clawback_enabled left_over ≡ false
unfolding is_clawback_enabled
no_flag = refl

found : withdrawn.streams 101 ≡ some (instance_of withdrawn)
unfolding call_stream
found = refl

chain_stays_solvent_example :
    (is_cancelled left_over ≡ true)
    ⊎ ((pos (contract_value left_over) ≤ℤ pos 50 +ℤ table_host.balance withdrawn.ledger coin 101)
        × ((now : ℕ) (available : ℤ)
            → withdrawn.now ≤ now
            → withdrawable_amount now left_over ≡ ok available
            → available ≤ℤ table_host.balance withdrawn.ledger coin 101))
chain_stays_solvent_example =
    chain_stays_solvent 101 (instance_of withdrawn) left_over (λ b. refl) history found stored
      (omega arith) no_flag

-- No stream was created yet.
open_factory-Represents : Represents 100 [] open_factory.store
open_factory-Represents = record {
  counted = refl;
  addressed = λ i. ground arith;
  senders = λ a. refl;
  recipients = λ a. refl;
}

chain_registers_streams_example : (log : List Entry) × Registered withdrawn log
chain_registers_streams_example =
    chain_registers_streams (λ b. refl) open_factory-Represents history

due : withdrawable_amount 300 left_over ≡ ok (pos 150)
unfolding streamed_amount withdrawable_amount ◌+ℤ◌ ◌-ℤ◌ ◌*ℤ◌ checked_add checked_sub checked_mul
    checked_add_u64 checked_sub_u64 min_ℤ max_ℤ saturating_sub
due = refl

running : is_cancelled left_over ≡ false
unfolding is_cancelled
running = refl

-- What the stream and the recipient hold.
holdings : holding withdrawn.ledger coin 101 + holding withdrawn.ledger coin payee < i128_limit
unfolding call_factory execute_factory apply_factory create_stream open_stream check_bounds validate
    indexed initialize_instance initialize load call_stream execute_stream apply_stream withdraw
    streamed_amount withdrawable_amount ◌+ℤ◌ ◌-ℤ◌ ◌*ℤ◌ checked_add checked_sub checked_mul
    checked_add_u64 checked_sub_u64 min_ℤ max_ℤ saturating_sub
holdings = omega arith

no_events :
    counter (stream_env withdrawn 101 (instance_of withdrawn) (signed_at 300) []) + 1 < u64_limit
unfolding call_factory execute_factory apply_factory create_stream open_stream check_bounds validate
    indexed initialize_instance initialize load call_stream execute_stream apply_stream withdraw
    streamed_amount withdrawable_amount ◌+ℤ◌ ◌-ℤ◌ ◌*ℤ◌ checked_add checked_sub checked_mul
    checked_add_u64 checked_sub_u64 min_ℤ max_ℤ saturating_sub
no_events = omega arith

later : withdrawn.now ≤ 300
unfolding call_stream
later = omega arith

accepts : AcceptsCovered withdrawn.ledger coin 101 payee
accepts amount nonneg covered =
    covered_move withdrawn.ledger coin 101 payee amount holdings nonneg covered

recipient_is_paid_example :
    (after : StreamEnv Table) × (withdraw
        (pos 500)
        (stream_env withdrawn 101 (instance_of withdrawn) (signed_at 300) [])
      ≡ ok (min_ℤ (pos 500) (pos 150), after))
    × (move withdrawn.ledger coin 101 payee (min_ℤ (pos 500) (pos 150)) ≡ some after.ledger)
    × (after.store.config
        ≡ some (record left_over { withdrawn = pos 50 +ℤ min_ℤ (pos 500) (pos 150) }))
recipient_is_paid_example =
    recipient_is_paid 101 (instance_of withdrawn) left_over (signed_at 300) [] (pos 500) (pos 150)
      (λ b. refl) history found stored (omega arith) no_flag running later refl due (omega arith)
      (omega arith) accepts no_events
