-- ===== src/Stream/Run.antt =====
-- Histories of a stream: the calls of contracts/stream/src/lib.rs as one data type, made one after
-- another by callers that choose them, under the host's rule that a failed call leaves no trace.
use conduit_contracts.Base.{ℕ, ◌≤◌, Bool, List, [], ◌∷◌, ℤ, pure, committed, ◌>>=◌}
use conduit_contracts.Host.{Host, Address}
use conduit_contracts.Stream.State.{Env, Call}
use conduit_contracts.Stream.Setup
use conduit_contracts.Stream.Payments
use conduit_contracts.Stream.Lifecycle
use conduit_contracts.Stream.Settlement

pub data Op : Type 0 where
  initialize : Address → Address → Address → ℤ → ℕ → ℕ → Bool → Op
  withdraw : ℤ → Op
  cancel pause resume clawback force_cancel : Op
  top_up : ℤ → Op
  extend_duration : ℕ → Op
  transfer_recipient : Address → Op

module _ {L : Type 0} ⦃host : Host L⦄ where
  unfoldable pub apply : Op → Call L (Unit {0})
  apply (Op.initialize sender recipient token rate start end claw) =
      Setup.initialize sender recipient token rate start end claw
  apply (Op.withdraw amount) = do sent ← Payments.withdraw amount; pure tt
  apply Op.cancel = Settlement.cancel
  apply Op.pause = Lifecycle.pause
  apply Op.resume = Lifecycle.resume
  apply Op.clawback = do amount ← Settlement.clawback; pure tt
  apply Op.force_cancel = Settlement.force_cancel
  apply (Op.top_up amount) = Payments.top_up amount
  apply (Op.extend_duration extra) = Payments.extend_duration extra
  apply (Op.transfer_recipient to) = Lifecycle.transfer_recipient to

-- One transaction: its call, its time, who signed it, and the state of the tokens and the time to
-- live at its start, which other contracts and the ledgers in between may have changed.
pub record Transaction (L : Type 0) : Type 0 where
  pub op : Op
  pub now : ℕ
  pub auth : Address → Bool
  pub ledger : L
  pub ttl : ℕ

module _ {L : Type 0} ⦃host : Host L⦄ where
  abbrev pub begun : Transaction L → Env L → Env L
  begun t e = record e { now = t.now; auth = t.auth; ledger = t.ledger; ttl = t.ttl }

  unfoldable pub execute : Transaction L → Env L → Env L
  execute t e = committed (apply t.op) (begun t e)

  unfoldable pub run : List (Transaction L) → Env L → Env L
  run [] e = e
  run (t ∷ ts) e = run ts (execute t e)

  -- Time does not run backwards.
  abbrev pub InOrder : ℕ → List (Transaction L) → Type 0
  InOrder now [] = Unit
  InOrder now (t ∷ ts) = (now ≤ t.now) × InOrder t.now ts
