-- ===== src/Examples/States.antt =====
-- The stream's state on concrete inputs: pausing, cancellation, creation, histories, storage.
use conduit_contracts.Base.{
  ℕ, ◌+◌, ◌-◌, ◌≤◌, ◌<◌, ◌≡◌, refl, Bool, true, false, none, some, inr, arith, List, [], ◌∷◌, ℤ,
  pos, ◌+ℤ◌, ◌-ℤ◌, ◌*ℤ◌, ◌≤ℤ◌, min_ℤ, max_ℤ, checked_add, checked_sub, checked_mul, checked_add_u64,
  checked_sub_u64, saturating_sub, committed, ok, err, panic, trap, unauthorized, i128_limit, ltb,
  if◌then◌else◌,
}
use conduit_contracts.Host.{Address}
use conduit_contracts.Stream.Storage.{
  StreamInfo, is_paused, is_cancelled, is_clawback_enabled, stream_cancelled, already_initialized,
  arithmetic_overflow, invalid_amount, invalid_time_range,
}
use conduit_contracts.Stream.State.{Env, save, load}
use conduit_contracts.Stream.Math.{streamed_amount, withdrawable_amount}
use conduit_contracts.Stream.Setup.{initialize, initial_info}
use conduit_contracts.Stream.Payments.{withdraw, top_up, extend_duration}
use conduit_contracts.Stream.Lifecycle.{pause, resume, transfer_recipient}
use conduit_contracts.Stream.Settlement.{cancel, force_cancel, clawback}
use conduit_contracts.Examples.Table.{Table, table_host}
use conduit_contracts.Examples.Fixtures.{
  payer, payee, coin, purse, terms, at_time, fresh, live, paused_terms, cancelled_terms, everyone,
}
use conduit_contracts.Stream.Accrual.{HasTerms, entitlement, streamed_amount-entitlement}
use conduit_contracts.Stream.PausedTime.{NotPast, pause_freezes, resume_excludes_pause}
use conduit_contracts.Stream.EarlyPause.{early_pause_blocks}
use conduit_contracts.Stream.Views.{streamed_total}
use conduit_contracts.Stream.Settlement.{pause_threshold_secs}
use conduit_contracts.Stream.Terminal.{cancelled_rejects}
use conduit_contracts.Stream.Authority.{responsible, apply_authorized}
use conduit_contracts.Stream.Creation.{IsRange, initialize_branches}
use conduit_contracts.Stream.Run.{Op, apply, Transaction, run}
use conduit_contracts.Stream.History.{finish, run_keeps_terms}
use conduit_contracts.Stream.Invariant.{IsValid, contract_value}
use conduit_contracts.Stream.Preservation.{Continues}
use conduit_contracts.Stream.EventHistory.{countdown}
use conduit_contracts.Stream.EventCount.{successes, run_numbers_events}
use conduit_contracts.Stream.EventLog.{sequences, counter}
use conduit_contracts.Stream.LegacyKeys.{with_store, save_syncs}

-- Paused at 150 and resumed at 170.
abbrev pub after_pause : Env Table
after_pause = committed pause live

abbrev before_resume : Env Table
before_resume = record after_pause { now = 170 }

abbrev after_resume : Env Table
after_resume = committed resume before_resume

pub pause_runs : pause live ≡ ok (tt, after_pause)
unfolding pause streamed_amount withdrawable_amount ◌+ℤ◌ ◌-ℤ◌ ◌*ℤ◌ checked_add checked_sub
    checked_mul checked_add_u64 checked_sub_u64 min_ℤ max_ℤ saturating_sub
pause_runs = refl

resume_runs : resume before_resume ≡ ok (tt, after_resume)
unfolding resume pause streamed_amount withdrawable_amount ◌+ℤ◌ ◌-ℤ◌ ◌*ℤ◌ checked_add checked_sub
    checked_mul checked_add_u64 checked_sub_u64 min_ℤ max_ℤ saturating_sub
resume_runs = refl

resume_excludes_pause_example :
    (after : StreamInfo) × (after_resume.store.config ≡ some after)
    × (after.withdrawn ≡ pos 100)
    × (after.recipient ≡ payee)
    × ((t : ℕ) → 170 ≤ t → streamed_amount t after ≡ streamed_amount (t - (170 - 150)) terms)
resume_excludes_pause_example =
    resume_excludes_pause live after_pause before_resume after_resume terms refl (omega arith)
      pause_runs refl (omega arith) resume_runs

pause_freezes_example :
    (after : StreamInfo) × (after_pause.store.config ≡ some after)
    × (streamed_amount 190 after ≡ streamed_amount 150 terms)
pause_freezes_example =
    pause_freezes live after_pause terms 190 refl (omega arith) pause_runs (omega arith)
      (omega arith) (inr (omega arith))

-- Paused at 60, before its start at 100.
abbrev unstarted : Env Table
unstarted = at_time 60 terms

abbrev after_early_pause : Env Table
after_early_pause = committed pause unstarted

early_pause_runs : pause unstarted ≡ ok (tt, after_early_pause)
unfolding pause streamed_amount withdrawable_amount ◌+ℤ◌ ◌-ℤ◌ ◌*ℤ◌ checked_add checked_sub
    checked_mul checked_add_u64 checked_sub_u64 min_ℤ max_ℤ saturating_sub
early_pause_runs = refl

unstarted-IsValid : IsValid 60 terms
unfolding is_paused
unstarted-IsValid = record {
  rate_positive = omega arith;
  bounded = inr (omega arith);
  flag_word = omega arith;
  paused_in_past = λ h. omega arith;
  withdrawn_nonneg = omega arith;
  within_value = λ h. omega arith;
}

abbrev after_start : Env Table
after_start = record (at_time 150 terms) { store = after_early_pause.store }

early_pause_blocks_example :
    (NotPast terms 150
      → ((amount : ℤ)
          → pos 1 ≤ℤ amount
          → everyone payee ≡ true
          → withdraw amount after_start ≡ err arithmetic_overflow)
        × (everyone payer ≡ true → cancel after_start ≡ err arithmetic_overflow)
        × (everyone payee ≡ true
            → pause_threshold_secs ≤ 150 - 60
            → force_cancel after_start ≡ err arithmetic_overflow)
        × (everyone payer ≡ true
            → is_clawback_enabled terms ≡ true
            → clawback after_start ≡ err arithmetic_overflow)
        × (streamed_total after_start ≡ ok (pos 0, after_start)))
    × (0 < 200
        → 200 < 150
        → contract_value terms < i128_limit
        → streamed_total after_start ≡ ok (pos (contract_value terms), after_start))
early_pause_blocks_example =
    early_pause_blocks unstarted after_early_pause after_start terms refl unstarted-IsValid
      early_pause_runs (omega arith) refl (omega arith)

terms-HasTerms : HasTerms terms
terms-HasTerms = record { rate_positive = omega arith; bounded = inr (omega arith) }

running_bit : is_paused terms ≡ false
unfolding is_paused
running_bit = refl

streamed_amount-entitlement_example : streamed_amount 150 terms ≡ (
    if ltb (entitlement 150 terms) i128_limit
    then ok (pos (entitlement 150 terms))
    else err arithmetic_overflow)
streamed_amount-entitlement_example =
    streamed_amount-entitlement 150 terms terms-HasTerms running_bit

abbrev dead : Env Table
dead = at_time 150 cancelled_terms

dead_bit : is_cancelled cancelled_terms ≡ true
unfolding is_cancelled
dead_bit = refl

cancelled_rejects_example :
    ((amount : ℤ)
      → amount ≤ℤ pos 0
      → (withdraw amount dead ≡ err invalid_amount) × (top_up amount dead ≡ err invalid_amount))
    × (extend_duration 0 dead ≡ err invalid_time_range)
    × ((amount : ℤ) → pos 1 ≤ℤ amount → withdraw amount dead ≡ err stream_cancelled)
    × ((amount : ℤ)
        → pos 1 ≤ℤ amount
        → top_up amount dead ≡ (if everyone payer then err stream_cancelled else trap unauthorized))
    × ((extra : ℕ) → 0 < extra → extend_duration extra dead ≡ err stream_cancelled)
    × (pause dead ≡ err stream_cancelled)
    × (resume dead ≡ err stream_cancelled)
    × ((to : Address) → transfer_recipient to dead ≡ err stream_cancelled)
    × (cancel dead ≡ err stream_cancelled)
    × (force_cancel dead ≡ err stream_cancelled)
    × (clawback dead ≡ err stream_cancelled)
    × ((sender recipient token : Address) (rate : ℤ) (start end : ℕ) (claw : Bool)
        → initialize sender recipient token rate start end claw dead ≡ panic already_initialized)
cancelled_rejects_example = cancelled_rejects dead cancelled_terms refl dead_bit

abbrev after_top_up : Env Table
after_top_up = committed (apply (Op.top_up (pos 70))) live

apply_runs : apply (Op.top_up (pos 70)) live ≡ ok (tt, after_top_up)
unfolding apply top_up streamed_amount withdrawable_amount ◌+ℤ◌ ◌-ℤ◌ ◌*ℤ◌ checked_add checked_sub
    checked_mul checked_add_u64 checked_sub_u64 min_ℤ max_ℤ saturating_sub
apply_runs = refl

apply_authorized_example :
    (is_cancelled terms ≡ false) × (everyone (responsible (Op.top_up (pos 70)) terms) ≡ true)
apply_authorized_example =
    apply_authorized (Op.top_up (pos 70)) live after_top_up terms refl apply_runs

initialize_branches_example :
    (pos 10 ≤ℤ pos 0
      → initialize payer payee coin (pos 10) 100 200 true fresh ≡ panic invalid_amount)
    × (pos 1 ≤ℤ pos 10
        → 0 < 200
        → 200 ≤ 100
        → initialize payer payee coin (pos 10) 100 200 true fresh ≡ panic invalid_time_range)
    × (pos 1 ≤ℤ pos 10
        → IsRange 100 200
        → (e' : Env Table) × (initialize payer payee coin (pos 10) 100 200 true fresh ≡ ok (tt, e'))
          × (e'.store.config ≡ some (initial_info payer payee coin (pos 10) 100 200 true))
          × (e'.store.event_sequence ≡ some 0)
          × (e'.ledger ≡ purse)
          × IsValid 50 (initial_info payer payee coin (pos 10) 100 200 true)
          × (is_paused (initial_info payer payee coin (pos 10) 100 200 true) ≡ false)
          × (is_cancelled (initial_info payer payee coin (pos 10) 100 200 true) ≡ false)
          × (is_clawback_enabled (initial_info payer payee coin (pos 10) 100 200 true) ≡ true)
          × ((sender recipient token : Address) (rate : ℤ) (start end : ℕ) (claw : Bool)
              → initialize sender recipient token rate start end claw e'
                ≡ panic already_initialized))
initialize_branches_example = initialize_branches fresh payer payee coin (pos 10) 100 200 true refl

abbrev step : ℕ → Op → Transaction Table
step now op = record { op = op; now = now; auth = everyone; ledger = purse; ttl = 500 }

-- A withdrawal, a cancellation, and a call that comes too late.
abbrev history : List (Transaction Table)
history = step 160 (Op.withdraw (pos 50)) ∷ step 180 Op.cancel ∷ step 190 Op.pause ∷ []

pub terms-IsValid : IsValid 150 terms
unfolding is_paused
terms-IsValid = record {
  rate_positive = omega arith;
  bounded = inr (omega arith);
  flag_word = omega arith;
  paused_in_past = λ h. omega arith;
  withdrawn_nonneg = omega arith;
  within_value = λ h. omega arith;
}

run_keeps_terms_example :
    (after : StreamInfo) × ((run history live).store.config ≡ some after)
    × Continues (finish 150 history) terms after
    × (0 < after.end_time → after.withdrawn ≤ℤ pos (contract_value after))
run_keeps_terms_example =
    run_keeps_terms history live terms refl terms-IsValid
      (omega arith, (omega arith, (omega arith, tt)))

run_numbers_events_example :
    (sequences (run history live).events ≡ countdown (counter (run history live)))
    × (counter (run history live) ≡ 0 + successes history live)
run_numbers_events_example =
    run_numbers_events history live terms refl terms-IsValid
      (omega arith, (omega arith, (omega arith, tt))) refl

abbrev after_save : Env Table
after_save = committed (save paused_terms) fresh

save_runs : save paused_terms fresh ≡ ok (tt, after_save)
unfolding save
save_runs = refl

save_syncs_example :
    (load after_save ≡ ok (paused_terms, after_save))
    × (fresh.store.clawback_enabled ≡ none
        → fresh.store.cancelled ≡ none
        → let old = with_store (record after_save.store { config = none }) after_save in
          load old ≡ ok (paused_terms, old))
    × (after_save.store.clawback_enabled ≡ none)
    × (after_save.store.cancelled ≡ none)
    × (after_save.store.event_sequence ≡ none)
save_syncs_example = save_syncs paused_terms fresh after_save save_runs
