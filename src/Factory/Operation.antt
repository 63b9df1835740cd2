-- ===== src/Factory/Operation.antt =====
-- The calls of contracts/factory/src/lib.rs that change its state as one data type, and histories of
-- them, under the host's rule that a failed call leaves no trace.
use conduit_contracts.Base.{
  ℕ, Bool, true, false, List, [], ◌∷◌, Option, ℤ, Outcome, ok, err, panic, trap, pure, committed,
  ◌>>=◌,
}
use conduit_contracts.Host.{Address, Host}
use conduit_contracts.Governor.Storage.{Store as GovernorStore}
use conduit_contracts.Factory.Storage.{Env, Call, Instance}
use conduit_contracts.Factory.Deploy.{Deployer, InitArgs}
use conduit_contracts.Factory.Creation.{BatchStreamRequest}
use conduit_contracts.Factory.Creation
use conduit_contracts.Factory.Admin

pub data Op : Type 0 where
  initialize : ℕ → Address → Op
  create_stream : InitArgs → ℤ → Op
  create_batch_streams : Address → List BatchStreamRequest → Bool → Op
  upgrade_stream_wasm : ℕ → Op
  pause unpause : Op

module _ {L : Type 0} ⦃host : Host L⦄ ⦃deployer : Deployer⦄ where
  unfoldable pub apply : Op → Call L (Unit {0})
  apply (Op.initialize wasm_hash governor) =
      Admin.initialize ⦃rule = host.ttl_rule⦄ wasm_hash governor
  apply (Op.create_stream args deposit) = do id ← Creation.create_stream args deposit; pure tt
  apply (Op.create_batch_streams sender requests clawback) = do
    ids ← Creation.create_batch_streams sender requests clawback
    pure tt
  apply (Op.upgrade_stream_wasm wasm_hash) =
      Admin.upgrade_stream_wasm ⦃rule = host.ttl_rule⦄ wasm_hash
  apply Op.pause = Admin.pause ⦃rule = host.ttl_rule⦄
  apply Op.unpause = Admin.unpause ⦃rule = host.ttl_rule⦄

-- One transaction: its call, its time, who signed it, and the state of the other contracts and of
-- the time to live at its start.
pub record Transaction (L : Type 0) : Type 0 where
  pub op : Op
  pub now : ℕ
  pub auth : Address → Bool
  pub ledger : L
  pub ttl : ℕ
  pub governors : Address → Option GovernorStore
  pub streams : Address → Option Instance

-- Whether a call succeeds.
abbrev pub succeeded : {E A : Type 0} → Outcome E A → Bool
succeeded (ok a) = true
succeeded (err e) = false
succeeded (panic e) = false
succeeded (trap t) = false

module _ {L : Type 0} ⦃host : Host L⦄ ⦃deployer : Deployer⦄ where
  abbrev pub begun : Transaction L → Env L → Env L
  begun t e = record e {
    now = t.now;
    auth = t.auth;
    ledger = t.ledger;
    ttl = t.ttl;
    governors = t.governors;
    streams = t.streams;
  }

  unfoldable pub execute : Transaction L → Env L → Env L
  execute t e = committed (apply t.op) (begun t e)

  unfoldable pub run : List (Transaction L) → Env L → Env L
  run [] e = e
  run (t ∷ ts) e = run ts (execute t e)

  -- Which calls of a history succeed.
  unfoldable pub outcomes : List (Transaction L) → Env L → List (Op × Bool)
  unfolding execute
  outcomes [] e = []
  outcomes (t ∷ ts) e = (t.op, succeeded (apply t.op (begun t e))) ∷ outcomes ts (execute t e)
