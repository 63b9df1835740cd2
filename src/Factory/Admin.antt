-- ===== src/Factory/Admin.antt =====
-- contracts/factory/src/lib.rs: set-up, maintenance, the emergency halt, and the read-only calls.
use mathlib.Core.Option
use conduit_contracts.Base.{
  ℕ, true, false, not, Option, none, some, List, [], gets, fail_if, panic_if, ok_or, or_trap,
  missing_entry, ok, err, panic, trap, ◌>>=◌, ◌>>◌,
}
use conduit_contracts.Host.{Address, TtlRule}
use conduit_contracts.Factory.Storage.{
  Call, Event, already_initialized, not_initialized, already_paused, not_paused, update,
  require_auth, is_paused, set_paused, publish,
}
use conduit_contracts.Factory.Ttl.{bump_instance, bump_persistent_bucket, is_some}
use conduit_contracts.Factory.Governance.{config}
use conduit_contracts.Factory.Query.{paginate}

module _ {L : Type 0} ⦃rule : TtlRule⦄ where
  unfoldable pub initialize : ℕ → Address → Call L (Unit {0})
  unfolding bump_instance
  initialize stream_wasm_hash governor = do
    initialized ← gets (λ e. is_some e.store.stream_count)
    panic_if initialized already_initialized
    bump_instance
    update (λ s. record s {
      stream_wasm_hash = some stream_wasm_hash;
      governor_address = some governor;
      stream_count = some 0;
    })

  abbrev governor_of : Call L Address
  governor_of e = ok_or e.store.governor_address not_initialized e

  unfoldable pub upgrade_stream_wasm : ℕ → Call L (Unit {0})
  unfolding bump_instance bump_persistent_bucket
  upgrade_stream_wasm new_wasm_hash = do
    governor ← governor_of
    require_auth governor
    bump_instance
    touched ← bump_persistent_bucket
    update (λ s. record s { stream_wasm_hash = some new_wasm_hash })

  unfoldable pub pause : Call L (Unit {0})
  unfolding bump_instance bump_persistent_bucket is_paused set_paused publish
  pause = do
    governor ← governor_of
    require_auth governor
    halted ← is_paused
    fail_if halted already_paused
    bump_instance
    touched ← bump_persistent_bucket
    set_paused true
    now ← gets (λ e. e.now)
    publish (Event.paused governor now)

  unfoldable pub unpause : Call L (Unit {0})
  unfolding bump_instance bump_persistent_bucket is_paused set_paused publish
  unpause = do
    governor ← governor_of
    require_auth governor
    halted ← is_paused
    fail_if (not halted) not_paused
    bump_instance
    touched ← bump_persistent_bucket
    set_paused false
    now ← gets (λ e. e.now)
    publish (Event.unpaused governor now)

module _ {L : Type 0} where
  unfoldable pub stream_address : ℕ → Call L (Option Address)
  stream_address stream_id = gets λ e. e.store.stream_addr stream_id

  unfoldable pub stream_count : Call L ℕ
  stream_count = gets λ e. Option.get_or e.store.stream_count 0

  unfoldable pub streams_by_sender : Address → ℕ → ℕ → Call L (List ℕ)
  unfolding paginate
  streams_by_sender sender offset limit = do
    all ← gets (λ e. Option.get_or (e.store.by_sender sender) [])
    or_trap (paginate all offset limit) missing_entry

  unfoldable pub streams_by_recipient : Address → ℕ → ℕ → Call L (List ℕ)
  unfolding paginate
  streams_by_recipient recipient offset limit = do
    all ← gets (λ e. Option.get_or (e.store.by_recipient recipient) [])
    or_trap (paginate all offset limit) missing_entry

  -- 30 where the factory has no governor, or the governor does not respond.
  unfoldable pub protocol_fee_bps : Call L ℕ
  unfolding config
  protocol_fee_bps e = elim e.store.governor_address [
    | none ↦ ok (30, e)
    | some governor ↦ elim (config governor e) [
      | ok (c, _) ↦ ok (c.fee_bps, e)
      | err x ↦ ok (30, e)
      | panic x ↦ panic x
      | trap t ↦ trap t
    ]
  ]
