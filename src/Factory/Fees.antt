-- ===== src/Factory/Fees.antt =====
-- The factory reading the governor: contracts/factory/src/lib.rs and governance.rs over any history
-- of contracts/governor/src/lib.rs.
use conduit_contracts.Base.{ℕ, ◌≤◌, ◌≡◌, some, arith, List, ok, err, ◌⊎◌, Outcome, panic, trap}
use conduit_contracts.Host.{Address, TtlRule}
use conduit_contracts.Governor.Storage.{Env as GovernorEnv, Store as GovernorStore}
use conduit_contracts.Governor.Config.{load}
use conduit_contracts.Governor.Invariant.{HasAdmin, InRange, fee_of}
use conduit_contracts.Governor.Governance.{Transaction, run, run_stays_governed}
use conduit_contracts.Factory.Storage.{Env}
use conduit_contracts.Factory.Admin.{protocol_fee_bps}

abbrev answer : {S E : Type 0} → Outcome E (ℕ × S) → ℕ
answer (ok (a, s)) = a
answer (err e) = 0
answer (panic e) = 0
answer (trap t) = 0

module _ {L : Type 0} where
  fee_of_store :
      (e : Env L) (g : Address) (s : GovernorStore)
      → e.store.governor_address ≡ some g
      → e.governors g ≡ some s
      → InRange s
      → (fee : ℕ) × (protocol_fee_bps e ≡ ok (fee, e))
        × ((fee ≡ fee_of s) ⊎ (fee ≡ 30))
        × (fee ≤ 10_000)
  unfolding protocol_fee_bps load
  fee_of_store e g s a d r = (answer (protocol_fee_bps e), ground arith, ground arith, ground arith)

  -- Whatever calls are made on a governed governor, the fee that a factory reads from it afterwards
  -- is the one stored there, or 30 if the governor was never initialized; the query never fails,
  -- and the fee is at most 10,000 basis points.
  fee_stays_capped :
      ⦃rule : TtlRule⦄ (ts : List Transaction) (governor : GovernorEnv) (e : Env L) (g : Address)
      → HasAdmin governor.store
      → InRange governor.store
      → e.store.governor_address ≡ some g
      → e.governors g ≡ some (run ts governor).store
      → (fee : ℕ) × (protocol_fee_bps e ≡ ok (fee, e))
        × ((fee ≡ fee_of (run ts governor).store) ⊎ (fee ≡ 30))
        × (fee ≤ 10_000)
  fee_stays_capped ts governor e g v r a d =
      fee_of_store e g (run ts governor).store a d ((run_stays_governed ts governor v r).2)
