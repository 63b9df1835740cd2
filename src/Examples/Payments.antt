-- ===== src/Examples/Payments.antt =====
-- Calls of the stream that move tokens, on concrete inputs.
use conduit_contracts.Base.{
  ◌+◌, ◌*◌, ◌≤◌, ◌<◌, ◌≡◌, refl, true, false, some, arith, ℤ, pos, ◌+ℤ◌, ◌-ℤ◌, ◌*ℤ◌, ◌≤ℤ◌, min_ℤ,
  max_ℤ, checked_add, checked_sub, checked_mul, checked_add_u64, checked_sub_u64, saturating_sub,
  committed, ok, u64_limit,
}
use conduit_contracts.Stream.Storage.{is_paused, is_cancelled}
use conduit_contracts.Stream.State.{Env}
use conduit_contracts.Stream.Math.{streamed_amount, withdrawable_amount}
use conduit_contracts.Stream.Payments.{withdraw, extend_duration}
use conduit_contracts.Stream.Settlement.{
  settle, pay_out, cancel, force_cancel, clawback, pause_threshold_secs,
}
use conduit_contracts.Stream.Balances.{Moves}
use conduit_contracts.Examples.Table.{Table, table_host, table_balance}
use conduit_contracts.Examples.Fixtures.{
  contract, payer, payee, coin, purse, terms, live, paused_terms, long_paused, everyone,
}
use conduit_contracts.Stream.Withdrawal.{withdraw_pays}
use conduit_contracts.Stream.Cancellation.{Divided, cancel_divides, force_cancel_divides}
use conduit_contracts.Stream.Clawback.{Clawed, clawback_leaves_earned}
use conduit_contracts.Stream.Funding.{extended, extend_duration_funds}

abbrev after_withdraw : Env Table
after_withdraw = committed (withdraw (pos 1000)) live

-- 500 has streamed and 100 was withdrawn, so 400 is sent.
withdraw_runs : withdraw (pos 1000) live ≡ ok (pos 400, after_withdraw)
unfolding withdraw streamed_amount withdrawable_amount ◌+ℤ◌ ◌-ℤ◌ ◌*ℤ◌ checked_add checked_sub
    checked_mul checked_add_u64 checked_sub_u64 min_ℤ max_ℤ saturating_sub
withdraw_runs = refl

withdraw_pays_example :
    (streamed : ℤ) × (streamed_amount 150 terms ≡ ok streamed)
    × (pos 100 +ℤ pos 400 ≤ℤ streamed)
    × (pos 1 ≤ℤ pos 400)
    × (pos 400 ≤ℤ pos 1000)
    × (everyone payee ≡ true)
    × (after_withdraw.store.config ≡ some (record terms { withdrawn = pos 100 +ℤ pos 400 }))
    × Moves purse after_withdraw.ledger coin contract payee (pos 400)
withdraw_pays_example =
    withdraw_pays live after_withdraw terms (pos 1000) (pos 400) refl (omega arith) withdraw_runs

abbrev after_cancel : Env Table
after_cancel = committed cancel live

cancel_runs : cancel live ≡ ok (tt, after_cancel)
unfolding cancel settle pay_out streamed_amount withdrawable_amount ◌+ℤ◌ ◌-ℤ◌ ◌*ℤ◌ checked_add
    checked_sub checked_mul checked_add_u64 checked_sub_u64 min_ℤ max_ℤ saturating_sub
cancel_runs = refl

-- The recipient is paid 400 and the sender is refunded 600.
refunds : table_balance after_cancel.ledger coin payer ≡ pos 5600
unfolding cancel settle pay_out streamed_amount withdrawable_amount ◌+ℤ◌ ◌-ℤ◌ ◌*ℤ◌ checked_add
    checked_sub checked_mul checked_add_u64 checked_sub_u64 min_ℤ max_ℤ saturating_sub
refunds = refl

cancel_divides_example :
    (streamed : ℤ) × (owed : ℤ) × Divided live after_cancel terms streamed owed
    × (everyone payer ≡ true)
    × (is_cancelled terms ≡ false)
cancel_divides_example =
    cancel_divides live after_cancel terms refl (omega arith) (omega arith) (omega arith)
      cancel_runs

abbrev after_force : Env Table
after_force = committed force_cancel long_paused

force_cancel_runs : force_cancel long_paused ≡ ok (tt, after_force)
unfolding force_cancel settle pay_out streamed_amount withdrawable_amount ◌+ℤ◌ ◌-ℤ◌ ◌*ℤ◌ checked_add
    checked_sub checked_mul checked_add_u64 checked_sub_u64 min_ℤ max_ℤ saturating_sub
force_cancel_runs = refl

force_cancel_divides_example :
    (streamed : ℤ) × (owed : ℤ) × Divided long_paused after_force paused_terms streamed owed
    × (everyone payee ≡ true)
    × (is_paused paused_terms ≡ true)
    × (140 + pause_threshold_secs ≤ 2_600_000)
    × (is_cancelled paused_terms ≡ false)
force_cancel_divides_example =
    force_cancel_divides long_paused after_force paused_terms refl (omega arith) (omega arith)
      (omega arith) force_cancel_runs

abbrev after_clawback : Env Table
after_clawback = committed clawback live

clawback_runs : clawback live ≡ ok (pos 600, after_clawback)
unfolding clawback streamed_amount withdrawable_amount ◌+ℤ◌ ◌-ℤ◌ ◌*ℤ◌ checked_add checked_sub
    checked_mul checked_add_u64 checked_sub_u64 min_ℤ max_ℤ saturating_sub
clawback_runs = refl

clawback_leaves_earned_example :
    (streamed : ℤ) × Clawed live after_clawback terms streamed (pos 600)
    × Moves purse after_clawback.ledger coin contract payer (pos 600)
    × (table_balance after_clawback.ledger coin contract
        ≡ min_ℤ (max_ℤ (streamed -ℤ pos 100) (pos 0)) (table_balance purse coin contract))
clawback_leaves_earned_example =
    clawback_leaves_earned live after_clawback terms (pos 600) refl (omega arith) clawback_runs

abbrev after_extend : Env Table
after_extend = committed (extend_duration 60) live

extend_duration_runs : extend_duration 60 live ≡ ok (tt, after_extend)
unfolding extend_duration streamed_amount withdrawable_amount ◌+ℤ◌ ◌-ℤ◌ ◌*ℤ◌ checked_add checked_sub
    checked_mul checked_add_u64 checked_sub_u64 min_ℤ max_ℤ saturating_sub
extend_duration_runs = refl

extend_duration_funds_example :
    (0 < 200)
    × (200 + 60 < u64_limit)
    × (everyone payer ≡ true)
    × (is_cancelled terms ≡ false)
    × (after_extend.store.config ≡ some (extended 60 terms))
    × Moves purse after_extend.ledger coin payer contract (pos (60 * 10))
extend_duration_funds_example =
    extend_duration_funds live after_extend terms 60 refl (omega arith) (omega arith)
      extend_duration_runs
