-- ===== src/Factory/Ttl.antt =====
-- contracts/factory/src/ttl.rs: times to live, and the bounded walker over the registry.
use mathlib.Core.Option
use conduit_contracts.Base.{
  ℕ, zero, suc, ◌+◌, ◌-◌, ◌%◌, ◌==◌, min, Bool, true, false, if◌then◌else◌, Option, none, some,
  u64_limit, ok,
}
use conduit_contracts.Host.{TtlRule}
use conduit_contracts.Factory.Storage.{Store, Call, at}

abbrev pub threshold : ℕ
threshold = 100_000

abbrev pub extend_to : ℕ
extend_to = 200_000

abbrev pub batch_limit : ℕ
batch_limit = 8

-- `u64::saturating_add`.
abbrev pub saturating_add_u64 : ℕ → ℕ → ℕ
saturating_add_u64 a b = min (a + b) (u64_limit - 1)

abbrev pub is_some : {A : Type 0} → Option A → Bool
is_some o = elim o [ some a ↦ true | none ↦ false ]

module _ ⦃rule : TtlRule⦄ where
  -- `extend_ttl` of the entry `StreamAddr(id)`.
  unfoldable pub extend_stream_addr : ℕ → Store → Store
  extend_stream_addr id s = record s {
    stream_addr_ttl =
        at s.stream_addr_ttl id (rule.extend_ttl threshold extend_to (s.stream_addr_ttl id));
  }

  -- One round of the loop, for the offset `i`.
  unfoldable pub bump_round : ℕ → ℕ → ℕ → Store × ℕ × ℕ → Store × ℕ × ℕ
  unfolding extend_stream_addr
  bump_round count cursor i (s, new_last, touched) =
      let id = saturating_add_u64 (saturating_add_u64 cursor 1) i % count in
      if is_some (s.stream_addr id)
      then (extend_stream_addr id s, id, touched + 1)
      else (s, id, touched)

  -- `for i in 0..BATCH_LIMIT`, with the rounds left and the next offset.
  unfoldable pub bump_rounds : ℕ → ℕ → ℕ → ℕ → Store × ℕ × ℕ → Store × ℕ × ℕ
  unfolding bump_round
  bump_rounds zero count cursor i acc = acc
  bump_rounds (suc left) count cursor i acc =
      bump_rounds left count cursor (i + 1) (bump_round count cursor i acc)

  unfoldable pub bump_bucket : Store → Store × ℕ
  bump_bucket s =
      let count = Option.get_or s.stream_count 0 in
      let cursor = Option.get_or s.last_bumped_id 0 in
      let (s', new_last, touched) = bump_rounds batch_limit count cursor 0 (s, cursor, 0) in
      if count == 0 then (s, 0) else (record s' { last_bumped_id = some new_last }, touched)

module _ {L : Type 0} ⦃rule : TtlRule⦄ where
  unfoldable pub bump_instance : Call L (Unit {0})
  bump_instance e = ok (tt, record e { ttl = rule.extend_ttl threshold extend_to e.ttl })

  unfoldable pub bump_persistent_bucket : Call L ℕ
  bump_persistent_bucket e =
      let (s, touched) = bump_bucket e.store in ok (touched, record e { store = s })
