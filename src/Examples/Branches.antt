-- ===== src/Examples/Branches.antt =====
-- A withdrawal, a pause and a resumption, with every branch stated at concrete inputs.
use conduit_contracts.Base.{
  ◌≤◌, ◌<◌, ◌≡◌, refl, true, false, none, some, ℤ, pos, ◌≤ℤ◌, min_ℤ, ok, err, panic, trap,
  unauthorized, overflow, token_failed, u64_limit,
}
use conduit_contracts.Stream.Storage.{
  Error, is_cancelled, is_paused, invalid_amount, stream_cancelled, nothing_to_withdraw,
  arithmetic_overflow, already_paused, not_paused,
}
use conduit_contracts.Stream.Math.{withdrawable_amount}
use conduit_contracts.Stream.Payments.{withdraw}
use conduit_contracts.Stream.Lifecycle.{pause, resume}
use conduit_contracts.Stream.Pausing.{paused_info, resumed_info}
use conduit_contracts.Stream.Branches.{Sent, withdraw_branches}
use conduit_contracts.Stream.Switches.{Resumable, NotResumable, Stores, switch_branches}
use conduit_contracts.Examples.Table.{Table, table_host, move}
use conduit_contracts.Examples.Fixtures.{contract, payer, payee, coin, purse, terms, live, everyone}
use conduit_contracts.Examples.States.{terms-IsValid}

withdraw_branches_example :
    (pos 70 ≤ℤ pos 0 → withdraw (pos 70) live ≡ err invalid_amount)
    × (pos 1 ≤ℤ pos 70
        → (is_cancelled terms ≡ true → withdraw (pos 70) live ≡ err stream_cancelled)
          × (is_cancelled terms ≡ false
              → (everyone payee ≡ false → withdraw (pos 70) live ≡ trap unauthorized)
                × (everyone payee ≡ true
                    → ((x : Error)
                        → withdrawable_amount 150 terms ≡ err x
                        → withdraw (pos 70) live ≡ err x)
                      × (withdrawable_amount 150 terms ≡ ok (pos 0)
                          → withdraw (pos 70) live ≡ err nothing_to_withdraw)
                      × ((available : ℤ)
                          → withdrawable_amount 150 terms ≡ ok available
                          → pos 1 ≤ℤ available
                          → let transferred =
                              move purse coin contract payee (min_ℤ (pos 70) available) in
                            (transferred ≡ none → withdraw (pos 70) live ≡ trap token_failed)
                            × ((ledger : Table)
                                → transferred ≡ some ledger
                                → (u64_limit ≤ 1
                                    → withdraw (pos 70) live ≡ panic arithmetic_overflow)
                                  × (1 < u64_limit → Sent live terms (pos 70) available ledger))))))
withdraw_branches_example = withdraw_branches live terms (pos 70) refl terms-IsValid

uncancelled : is_cancelled terms ≡ false
unfolding is_cancelled
uncancelled = refl

switch_branches_example :
    (is_paused terms ≡ true → pause live ≡ err already_paused)
    × (is_paused terms ≡ false → resume live ≡ err not_paused)
    × (is_paused terms ≡ false
        → (everyone payer ≡ false → pause live ≡ trap unauthorized)
          × (everyone payer ≡ true
              → ((x : Error) → withdrawable_amount 150 terms ≡ err x → pause live ≡ err x)
                × ((available : ℤ)
                    → withdrawable_amount 150 terms ≡ ok available
                    → (u64_limit ≤ 1 → pause live ≡ panic arithmetic_overflow)
                      × (1 < u64_limit → Stores pause live (paused_info 150 terms)))))
    × (is_paused terms ≡ true
        → (everyone payer ≡ false → resume live ≡ trap unauthorized)
          × (everyone payer ≡ true
              → (NotResumable 150 terms → resume live ≡ trap overflow)
                × (Resumable 150 terms
                    → (u64_limit ≤ 1 → resume live ≡ panic arithmetic_overflow)
                      × (1 < u64_limit → Stores resume live (resumed_info 150 terms)))))
switch_branches_example = switch_branches live terms refl uncancelled
