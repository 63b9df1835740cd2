-- ===== src/Examples/Escrows.antt =====
-- A settlement that must succeed, on concrete inputs.
use conduit_contracts.Base.{
  ◌-◌, inl, ◌≤◌, ◌≡◌, refl, true, false, arith, pos, ◌+ℤ◌, ◌-ℤ◌, ◌*ℤ◌, min_ℤ, max_ℤ, ok,
  checked_mul, checked_sub_u64,
}
use mathlib.Core.Option
use conduit_contracts.Stream.Storage.{StreamInfo, is_cancelled, is_paused}
use conduit_contracts.Stream.State.{Env}
use conduit_contracts.Stream.Math.{streamed_amount}
use conduit_contracts.Stream.Invariant.{IsValid}
use conduit_contracts.Stream.Settlement.{cancel, force_cancel}
use conduit_contracts.Stream.Release.{Payable, IsSettled, settlement_succeeds}
use conduit_contracts.Examples.Table.{Table, table_host, move}
use conduit_contracts.Examples.Fixtures.{
  contract, payer, everyone, payee, coin, purse, terms, at_time,
}

-- An open-ended stream that was paused at 150, and the payments that settle it.
abbrev halted_terms : StreamInfo
halted_terms = record terms { flags = 1; end_time = 0; paused_at = 150 }

abbrev halted : Env Table
halted = at_time 3_000_000 halted_terms

halted_terms-IsValid : IsValid 3_000_000 halted_terms
unfolding is_paused
halted_terms-IsValid = record {
  rate_positive = omega arith;
  bounded = inl refl;
  flag_word = omega arith;
  paused_in_past = λ h. omega arith;
  withdrawn_nonneg = omega arith;
  within_value = λ h. absurd (omega arith);
}

abbrev owed_ledger : Table
owed_ledger = Option.get_or (move purse coin contract payee (pos 400)) purse

abbrev settled_ledger : Table
settled_ledger = Option.get_or (move owed_ledger coin contract payer (pos 600)) owed_ledger

halted-Payable : Payable halted halted_terms (pos 500) owed_ledger settled_ledger
unfolding streamed_amount ◌+ℤ◌ ◌-ℤ◌ ◌*ℤ◌ checked_mul checked_sub_u64 min_ℤ max_ℤ
halted-Payable = record {
  streamed_is = refl;
  withdrawn_fits = refl;
  to_recipient = record { when_positive = λ h. refl; when_not = λ h. absurd (omega arith) };
  to_sender = record { when_positive = λ h. refl; when_not = λ h. absurd (omega arith) };
}

halted_running : is_cancelled halted_terms ≡ false
unfolding is_cancelled
halted_running = refl

settlement_succeeds_example :
    (everyone payer ≡ true
      → (e' : Env Table) × (cancel halted ≡ ok (tt, e'))
        × IsSettled halted halted_terms settled_ledger e')
    × (everyone payee ≡ true
        → is_paused halted_terms ≡ true
        → 2_592_000 ≤ 3_000_000 - 150
        → (e' : Env Table) × (force_cancel halted ≡ ok (tt, e'))
          × IsSettled halted halted_terms settled_ledger e')
settlement_succeeds_example =
    settlement_succeeds halted halted_terms (pos 500) owed_ledger settled_ledger refl
      halted_terms-IsValid halted_running halted-Payable (omega arith)
