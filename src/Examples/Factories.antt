-- ===== src/Examples/Factories.antt =====
-- The factory's calls on concrete inputs, and the theorems about them at such inputs.
use conduit_contracts.Base.{
  ℕ, ◌+◌, ◌%◌, ◌<◌, ◌≡◌, ◌≢◌, refl, false, none, some, arith, List, [], ◌∷◌, ℤ, pos, ◌≤ℤ◌, ok,
  committed, ◌==◌, if◌then◌else◌, checked_add_u64,
}
use conduit_contracts.Host.{Address}
use conduit_contracts.Governor.Storage.{Store as GovernorStore, empty_store as empty_governor}
use conduit_contracts.Stream.Storage.{Store as StreamStore}
use conduit_contracts.Stream.Invariant.{IsValid, contract_value}
use conduit_contracts.Factory.Storage.{Env, Store}
use conduit_contracts.Factory.Deploy.{Deployer, InitArgs, initialize_instance}
use conduit_contracts.Factory.Creation.{
  BatchStreamRequest, create_stream, open_stream, check_bounds, validate, indexed,
}
use conduit_contracts.Factory.Opening.{Opened, stream_info_of}
use conduit_contracts.Factory.Checks.{Checked}
use conduit_contracts.Factory.Escrow.{Escrowed, create_stream_escrows}
use conduit_contracts.Factory.Walker.{IsFresh}
use conduit_contracts.Factory.Coverage.{walk, walk_covers}
use conduit_contracts.Factory.Registry.{IsIndexed}
use conduit_contracts.Stream.Setup.{initialize}
use conduit_contracts.Governor.Config.{load}
use conduit_contracts.Examples.Table.{Table, table_host, plain_rule}
use conduit_contracts.Examples.Fixtures.{payer, payee, coin, purse, everyone}

-- Stream contracts are deployed right behind their factory.
abbrev pub behind : Address → ℕ → Address
behind factory i = factory + i + 1

pub behind_injective : (factory : Address) (i j : ℕ) → behind factory i ≡ behind factory j → i ≡ j
behind_injective factory i j h = omega arith

pub behind_fresh : (factory : Address) (i : ℕ) → behind factory i ≢ factory
behind_fresh factory i h = omega arith

instance abbrev pub next_door : Deployer
next_door = record {
  address_of = behind;
  address_of_injective = behind_injective;
  address_of_fresh = behind_fresh;
}

abbrev pub young_governor : GovernorStore
young_governor = record empty_governor { fee_recipient = some 6; factory_address = some 100 }

-- A governor with the default parameters lives at 7, the factory at 100. No stream exists yet.
abbrev pub open_factory : Env Table
open_factory = record {
  now = 50;
  self = 100;
  auth = everyone;
  store = record {
    stream_count = some 0;
    stream_wasm_hash = some 77;
    governor_address = some 7;
    paused = none;
    last_bumped_id = some 0;
    stream_addr = λ i. none;
    by_sender = λ a. none;
    by_recipient = λ a. none;
    stream_addr_ttl = λ i. 0;
    by_sender_ttl = λ a. 0;
    by_recipient_ttl = λ a. 0;
  };
  ttl = 500;
  ledger = purse;
  governors = λ a. if a == 7 then some young_governor else none;
  streams = λ a. none;
  events = [];
}

-- An open-ended stream of 1 per second.
abbrev pub order : InitArgs
order = record {
  sender = payer;
  recipient = payee;
  token = coin;
  rate_per_sec = pos 1;
  start_time = 100;
  end_time = 0;
  clawback = false;
}

abbrev after_create : Env Table
after_create = committed (create_stream order (pos 500)) open_factory

create_stream_runs : create_stream order (pos 500) open_factory ≡ ok (0, after_create)
unfolding create_stream open_stream check_bounds validate indexed initialize_instance initialize
    load checked_add_u64
create_stream_runs = refl

create_stream_escrows_example :
    (g : GovernorStore) × (code : ℕ) × (mid : Table) × (s : StreamStore) × Checked open_factory
      order
      (pos 500)
      g
    × Opened open_factory after_create order (pos 500) 0 code mid s
    × Escrowed open_factory after_create coin payer 101 (pos 500)
    × IsValid 50 (stream_info_of order)
    × (0 < 0 → pos (contract_value (stream_info_of order)) ≤ℤ pos 500)
create_stream_escrows_example =
    create_stream_escrows open_factory after_create order (pos 500) 0 (omega arith) (omega arith)
      create_stream_runs

open_factory-IsIndexed : IsIndexed 100 open_factory.store
open_factory-IsIndexed = record {
  given = λ i lt. absurd (omega arith);
  unused = λ i le. refl;
  senders = λ a. omega arith;
  recipients = λ a. omega arith;
}

abbrev pub request : ℤ → BatchStreamRequest
request deposit = record {
  recipient = payee;
  token = coin;
  deposit = deposit;
  rate_per_sec = pos 1;
  start_time = 100;
  end_time = 0;
}

abbrev pub requests : List BatchStreamRequest
requests = request (pos 500) ∷ request (pos 700) ∷ []

-- A registry of 20 entries, every third of which is gone, where no cursor was set yet.
abbrev registry : Store
registry = record open_factory.store {
  stream_count = some 20;
  last_bumped_id = none;
  stream_addr = λ i. if i % 3 == 2 then none else some (101 + i);
}

walk_covers_example : IsFresh 12 (walk 3 registry)
walk_covers_example =
    walk_covers 20 0 3 12 registry refl refl (omega arith) (omega arith) (omega arith) (omega arith)
      refl
