-- ===== src/Stream/Events.antt =====
-- contracts/stream/src/events.rs: every event takes the next sequence number.
use mathlib.Core.Option
use conduit_contracts.Base.{ℕ, none, some, ◌∷◌, ok, panic, modify, checked_add_u64, ◌>>=◌}
use conduit_contracts.Stream.Storage.{Event, arithmetic_overflow}
use conduit_contracts.Stream.State.{Call}

module _ {L : Type 0} where
  unfoldable pub next_sequence : Call L ℕ
  next_sequence e = elim (checked_add_u64 (Option.get_or e.store.event_sequence 0) 1) [
    | none ↦ panic arithmetic_overflow
    | some next ↦ ok (next, record e { store = record e.store { event_sequence = some next } })
  ]

  -- `env.events().publish` of the event with its sequence number.
  unfoldable pub publish : (ℕ → Event) → Call L (Unit {0})
  unfolding next_sequence
  publish event = do
    sequence ← next_sequence
    modify λ e. record e { events = event sequence ∷ e.events }
