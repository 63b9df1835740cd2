-- ===== src/Examples/Openings.antt =====
-- A stream that the factory creates on concrete inputs.
use mathlib.Core.Option
use conduit_contracts.Base.{inr, ◌≡◌, refl, arith, pos, ok}
use conduit_contracts.Factory.Storage.{Env}
use conduit_contracts.Factory.Deploy.{InitArgs}
use conduit_contracts.Factory.Creation.{create_stream}
use conduit_contracts.Factory.Checks.{Checked}
use conduit_contracts.Factory.Acceptance.{Ready, create_stream_succeeds}
use conduit_contracts.Examples.Table.{Table, table_host, move}
use conduit_contracts.Examples.Fixtures.{purse, payer, coin}
use conduit_contracts.Examples.Factories.{open_factory, order, next_door, young_governor}

-- 4000 over 4000 seconds.
abbrev pub bounded_order : InitArgs
bounded_order = record order { end_time = 4_100 }

bounded_order-Checked : Checked open_factory bounded_order (pos 4_000) young_governor
bounded_order-Checked = record {
  authorized = refl;
  running = refl;
  sound = record {
    deposit_positive = omega arith;
    rate_positive = omega arith;
    one_second = omega arith;
    in_order = inr (omega arith);
    not_backdated = omega arith;
    funded = λ h. omega arith;
  };
  governor_is = refl;
  within = record {
    rate_capped = omega arith;
    long_enough = λ h. omega arith;
    short_enough = λ h. omega arith;
  };
}

abbrev pulled_ledger : Table
pulled_ledger = Option.get_or (move purse coin payer 100 (pos 4_000)) purse

abbrev forwarded_ledger : Table
forwarded_ledger = Option.get_or (move pulled_ledger coin 100 101 (pos 4_000)) purse

open_factory-Ready : Ready open_factory bounded_order (pos 4_000) 77 pulled_ledger forwarded_ledger
open_factory-Ready = record {
  code_is = refl;
  not_taken = refl;
  pulled = refl;
  forwarded = refl;
  in_u64 = omega arith;
}

create_stream_succeeds_example :
    (e' : Env Table) × (create_stream bounded_order (pos 4_000) open_factory ≡ ok (0, e'))
    × (e'.ledger ≡ forwarded_ledger)
create_stream_succeeds_example =
    create_stream_succeeds open_factory bounded_order (pos 4_000) young_governor 6 100 77
      pulled_ledger forwarded_ledger bounded_order-Checked refl refl refl open_factory-Ready
