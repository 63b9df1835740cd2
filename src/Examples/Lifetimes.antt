-- ===== src/Examples/Lifetimes.antt =====
-- A stream from its start to its settlement, and what its calls keep, on concrete inputs.
use mathlib.Core.Option.{some-injective}
use conduit_contracts.Base.{
  ℕ, ◌<◌, ◌≤◌, ◌≡◌, ◌∙◌, sym, subst, refl, inl, inr, Bool, some, arith, List, [], ◌∷◌, ℤ, pos, ◌+ℤ◌,
  ◌-ℤ◌, ◌*ℤ◌, ◌≤ℤ◌, min_ℤ, max_ℤ, checked_add, checked_sub, checked_mul, checked_add_u64,
  checked_sub_u64, saturating_sub, committed, ok, ◌==◌, not,
}
use conduit_contracts.Host.{Address}
use conduit_contracts.Stream.Storage.{StreamInfo, is_paused, is_clawback_enabled}
use conduit_contracts.Stream.State.{Env}
use conduit_contracts.Stream.Math.{streamed_amount, withdrawable_amount}
use conduit_contracts.Stream.Payments.{withdraw}
use conduit_contracts.Stream.Lifecycle.{resume}
use conduit_contracts.Stream.Settlement.{cancel, settle, pay_out}
use conduit_contracts.Stream.Invariant.{IsValid, contract_value}
use conduit_contracts.Stream.Run.{Op, apply, Transaction, begun, run, execute}
use conduit_contracts.Stream.Escrow.{Undrained}
use conduit_contracts.Stream.Earnings.{NotOverrun}
use conduit_contracts.Stream.Retention.{NeverOverrun, run_keeps_earned}
use conduit_contracts.Stream.Overrun.{IsOverrun, at_pause, overrun_takes_back}
use conduit_contracts.Stream.Shares.{PaidOut}
use conduit_contracts.Stream.Solvency.{Covers}
use conduit_contracts.Stream.Receipts.{withdrawals}
use conduit_contracts.Stream.Totals.{IsSettlement, settled_in_full}
use conduit_contracts.Examples.Table.{Table, table_host}
use conduit_contracts.Examples.Fixtures.{contract, coin, purse, terms, at_time, paused_terms}

-- Everybody but the stream's own contract signs.
abbrev others : Address → Bool
others a = not (a == contract)

abbrev new_terms : StreamInfo
new_terms = record terms { flags = 0; withdrawn = pos 0 }

abbrev young : Env Table
young = record (at_time 150 new_terms) { auth = others }

new_terms-IsValid : IsValid 150 new_terms
unfolding is_paused
new_terms-IsValid = record {
  rate_positive = omega arith;
  bounded = inr (omega arith);
  flag_word = omega arith;
  paused_in_past = λ h. omega arith;
  withdrawn_nonneg = omega arith;
  within_value = λ h. omega arith;
}

new_terms-Covers : Covers young new_terms
unfolding is_clawback_enabled ◌+ℤ◌
new_terms-Covers = record { is_bounded = omega arith; unclawable = refl; covered = omega arith }

abbrev at : ℕ → Op → Transaction Table
at now op = record { op = op; now = now; auth = others; ledger = purse; ttl = 500 }

abbrev taking : List (Transaction Table)
taking = at 160 (Op.withdraw (pos 50)) ∷ []

-- A state of which the stored stream is known.
known-NotOverrun :
    (now : ℕ) (e : Env Table) (x : StreamInfo)
    → e.store.config ≡ some x
    → NotOverrun now x
    → (info : StreamInfo) → e.store.config ≡ some info
    → NotOverrun now info
known-NotOverrun now e x c o info h = subst (NotOverrun now) (some-injective x info (sym c ∙ h)) o

taking-NeverOverrun : NeverOverrun taking young
taking-NeverOverrun = (known-NotOverrun 160 young new_terms refl (λ _ _ _. omega arith), tt)

taken : (run taking young).store.config ≡ some (record new_terms { withdrawn = pos 50 })
unfolding run execute apply withdraw streamed_amount withdrawable_amount ◌+ℤ◌ ◌-ℤ◌ ◌*ℤ◌ checked_add
    checked_sub checked_mul checked_add_u64 checked_sub_u64 min_ℤ max_ℤ saturating_sub
taken = refl

abbrev settling : Transaction Table
settling = at 180 Op.cancel

abbrev settled : Env Table
settled = committed (apply Op.cancel) (begun settling (run taking young))

settling_runs : apply Op.cancel (begun settling (run taking young)) ≡ ok (tt, settled)
unfolding run execute apply withdraw cancel settle pay_out streamed_amount withdrawable_amount ◌+ℤ◌
    ◌-ℤ◌ ◌*ℤ◌ checked_add checked_sub checked_mul checked_add_u64 checked_sub_u64 min_ℤ max_ℤ
    saturating_sub
settling_runs = refl

-- The same contract is paid from the same purse.
settling-Undrained : Undrained (settling ∷ []) (run taking young) coin
unfolding run execute apply withdraw streamed_amount withdrawable_amount ◌+ℤ◌ ◌-ℤ◌ ◌*ℤ◌ checked_add
    checked_sub checked_mul checked_add_u64 checked_sub_u64 min_ℤ max_ℤ saturating_sub
settling-Undrained = (omega arith, refl, tt)

settled_in_full_example :
    (after : StreamInfo) × ((run taking young).store.config ≡ some after)
    × (streamed : ℤ) × (owed : ℤ) × (mid : Table) × (streamed_amount 180 after ≡ ok streamed)
    × PaidOut purse mid after.token (run taking young).self after.recipient owed
    × (withdrawals taking young +ℤ owed ≡ streamed)
settled_in_full_example =
    settled_in_full taking settling young settled new_terms refl new_terms-IsValid refl
      new_terms-Covers (omega arith, tt) (omega arith, refl, tt) taking-NeverOverrun
      (omega arith, tt) settling-Undrained
      (
        known-NotOverrun 180 (run taking young) (record new_terms { withdrawn = pos 50 }) taken
            (λ _ _ _. omega arith),
        tt,
      )
      IsSettlement.by_sender settling_runs

earned_then : streamed_amount 150 new_terms ≡ ok (pos 500)
unfolding streamed_amount ◌+ℤ◌ ◌-ℤ◌ ◌*ℤ◌ checked_mul checked_sub_u64
earned_then = refl

run_keeps_earned_example :
    (after : StreamInfo) × ((run taking young).store.config ≡ some after)
    × ((later : ℕ) (streamed_later : ℤ)
        → 160 ≤ later
        → streamed_amount later after ≡ ok streamed_later
        → pos 500 ≤ℤ streamed_later)
run_keeps_earned_example =
    run_keeps_earned taking young new_terms (pos 500) refl new_terms-IsValid (omega arith, tt)
      taking-NeverOverrun earned_then

-- Paused at 140, past its end of 200 at 250, and resumed.
abbrev overrun : Env Table
overrun = at_time 250 paused_terms

paused_terms-IsValid : IsValid 250 paused_terms
unfolding is_paused
paused_terms-IsValid = record {
  rate_positive = omega arith;
  bounded = inr (omega arith);
  flag_word = omega arith;
  paused_in_past = λ h. omega arith;
  withdrawn_nonneg = omega arith;
  within_value = λ h. omega arith;
}

paused_terms-IsOverrun : IsOverrun 250 paused_terms
unfolding is_paused
paused_terms-IsOverrun = record {
  paused = refl;
  bounded = omega arith;
  paused_after_start = omega arith;
  paused_before_end = omega arith;
  end_past = omega arith;
  value_fits = omega arith;
}

abbrev taken_up : Env Table
taken_up = committed resume overrun

overrun_resumes : resume overrun ≡ ok (tt, taken_up)
unfolding resume checked_add_u64 checked_sub_u64
overrun_resumes = refl

overrun_takes_back_example :
    (after : StreamInfo) × (taken_up.store.config ≡ some after)
    × (streamed_amount 250 paused_terms ≡ ok (pos (contract_value paused_terms)))
    × (streamed_amount 250 after ≡ ok (pos (at_pause paused_terms)))
    × (at_pause paused_terms < contract_value paused_terms)
overrun_takes_back_example =
    overrun_takes_back overrun taken_up paused_terms refl paused_terms-IsValid
      paused_terms-IsOverrun (inl overrun_resumes)
