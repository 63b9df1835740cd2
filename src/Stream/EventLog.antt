-- ===== src/Stream/EventLog.antt =====
-- The event sequence of contracts/stream/src/events.rs: the log of a stream has no gap.
use conduit_contracts.Base.{
  ℕ, ◌+◌, ◌<◌, ◌≡◌, some, arith, ℤ, ok, List, [], ◌∷◌, checked_add_u64, u64_limit,
}
use mathlib.Core.Option
use conduit_contracts.Host.{Host}
use conduit_contracts.Stream.Storage.{StreamInfo, Event}
use conduit_contracts.Stream.State.{Env}
use conduit_contracts.Stream.Run.{Op, apply}
use conduit_contracts.Stream.Preservation.{discarded}
use conduit_contracts.Stream.Creation.{initialize_again}
use conduit_contracts.Stream.Payments.{withdraw, top_up, extend_duration}
use conduit_contracts.Stream.Lifecycle.{pause, resume, transfer_recipient}
use conduit_contracts.Stream.Settlement.{cancel, force_cancel, clawback, settle}
use conduit_contracts.Stream.Cancellation.{bumped, cancel-settle, force_cancel-settle}

abbrev pub sequence_of : Event → ℕ
sequence_of (Event.withdrawn a n x y z) = n
sequence_of (Event.cancelled a n x y) = n
sequence_of (Event.paused a n x y) = n
sequence_of (Event.resumed a n x) = n
sequence_of (Event.topped_up a n x y) = n
sequence_of (Event.clawback a n x) = n
sequence_of (Event.recipient_transferred a n x) = n

abbrev pub sequences : List Event → List ℕ
sequences [] = []
sequences (x ∷ xs) = sequence_of x ∷ sequences xs

module _ {L : Type 0} where
  abbrev pub counter : Env L → ℕ
  counter e = Option.get_or e.store.event_sequence 0

  -- One event was published, under the next number.
  pub record Logged (e e' : Env L) : Type 0 where
    pub counted : e'.store.event_sequence ≡ some (counter e + 1)
    pub published : sequences e'.events ≡ (counter e + 1) ∷ sequences e.events
    pub in_range : counter e + 1 < u64_limit

module _ {L : Type 0} ⦃host : Host L⦄ where
  withdraw-Logged :
      (e e' : Env L) (info : StreamInfo) (amount sent : ℤ)
      → e.store.config ≡ some info
      → withdraw amount e ≡ ok (sent, e')
      → Logged e e'
  unfolding withdraw checked_add_u64
  withdraw-Logged e e' info amount sent c h = ground arith

  settle-Logged :
      (e e' : Env L) (info : StreamInfo)
      → e.store.config ≡ some info
      → settle info e ≡ ok (tt, e')
      → Logged e e'
  unfolding settle checked_add_u64
  settle-Logged e e' info c h = ground arith

  clawback-Logged :
      (e e' : Env L) (info : StreamInfo) (amount : ℤ)
      → e.store.config ≡ some info
      → clawback e ≡ ok (amount, e')
      → Logged e e'
  unfolding clawback checked_add_u64
  clawback-Logged e e' info amount c h = ground arith

  -- Every successful call on an initialized stream publishes exactly one event, numbered one above
  -- the counter, leaves the earlier events as they were numbered, and moves the counter to it,
  -- which fits a `u64`.
  pub apply_logs :
      (op : Op) (e e' : Env L) (info : StreamInfo)
      → e.store.config ≡ some info
      → apply op e ≡ ok (tt, e')
      → Logged e e'
  unfolding apply pause resume force_cancel cancel top_up extend_duration transfer_recipient
      checked_add_u64
  apply_logs (Op.initialize a b t r s n k) e e' info c h = cc (initialize_again e a b t r s n k c)
  apply_logs (Op.withdraw amount) e e' info c h =
      let (sent, k) = discarded (withdraw amount) e e' h in
      withdraw-Logged e e' info amount sent c k
  apply_logs Op.clawback e e' info c h =
      let (amount, k) = discarded clawback e e' h in clawback-Logged e e' info amount c k
  apply_logs Op.cancel e e' info c h =
      let l = settle-Logged (bumped e) e' info c (cancel-settle e e' info c h).2 in
      record { counted = l.counted; published = l.published; in_range = l.in_range }
  apply_logs Op.force_cancel e e' info c h =
      let l = settle-Logged (bumped e) e' info c (force_cancel-settle e e' info c h).4 in
      record { counted = l.counted; published = l.published; in_range = l.in_range }
  apply_logs Op.pause e e' info c h = ground arith
  apply_logs Op.resume e e' info c h = ground arith
  apply_logs (Op.top_up amount) e e' info c h = ground arith
  apply_logs (Op.extend_duration extra) e e' info c h = ground arith
  apply_logs (Op.transfer_recipient to) e e' info c h = ground arith
