-- ===== src/Examples/Fixtures.antt =====
-- A concrete stream: its parties, its token balances, and its storage before and after calls.
use conduit_contracts.Base.{ℕ, ◌==◌, Bool, true, some, if◌then◌else◌, [], pos}
use conduit_contracts.Host.{Address}
use conduit_contracts.Stream.Storage.{StreamInfo, Store, empty_store}
use conduit_contracts.Stream.State.{Env}
use conduit_contracts.Examples.Table.{Table, table_host}

abbrev pub contract : Address
contract = 1

abbrev pub payer : Address
payer = 2

abbrev pub payee : Address
payee = 3

abbrev pub coin : Address
coin = 9

-- The contract holds 1000, the payer 5000.
abbrev pub purse : Table
purse t a = if a == contract then 1000 else if a == payer then 5000 else 0

abbrev pub everyone : Address → Bool
everyone a = true

-- 10 per second from 100 to 200, of which 100 is withdrawn.
abbrev pub terms : StreamInfo
terms = record {
  sender = payer;
  recipient = payee;
  token = coin;
  rate_per_second = pos 10;
  start_time = 100;
  end_time = 200;
  withdrawn = pos 100;
  paused_at = 0;
  flags = 2;
}

abbrev pub store_of : StreamInfo → Store
store_of info = record empty_store { config = some info; event_sequence = some 0 }

abbrev pub at_time : ℕ → StreamInfo → Env Table
at_time now info = record {
  now = now;
  self = contract;
  auth = everyone;
  store = store_of info;
  ttl = 500;
  ledger = purse;
  events = [];
}

-- The contract before `initialize`.
abbrev pub fresh : Env Table
fresh = record (at_time 50 terms) { store = empty_store }

abbrev pub live : Env Table
live = at_time 150 terms

-- Paused at 140.
abbrev pub paused_terms : StreamInfo
paused_terms = record terms { paused_at = 140; flags = 3 }

abbrev pub cancelled_terms : StreamInfo
cancelled_terms = record terms { flags = 6 }

-- More than 30 days after the pause.
abbrev pub long_paused : Env Table
long_paused = at_time 2_600_000 paused_terms
