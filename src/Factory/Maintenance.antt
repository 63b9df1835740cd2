-- ===== src/Factory/Maintenance.antt =====
-- The administrative calls of contracts/factory/src/lib.rs leave the index of the streams alone.
use mathlib.Core.Option
use conduit_contracts.Base.{ℕ, zero, suc, ◌+◌, ◌≡◌, ◌∙◌, arith, ok}
use conduit_contracts.Host.{Address, TtlRule}
use conduit_contracts.Factory.Storage.{Store, Env}
use conduit_contracts.Factory.Ttl.{bump_round, bump_rounds, bump_bucket, batch_limit}
use conduit_contracts.Factory.Admin.{initialize, upgrade_stream_wasm, pause, unpause}
use conduit_contracts.Factory.Registry.{count_of}

pub record SameIndex (s s' : Store) : Type 0 where
  pub same_count : count_of s' ≡ count_of s
  pub same_addr : s'.stream_addr ≡ s.stream_addr
  pub same_senders : s'.by_sender ≡ s.by_sender
  pub same_recipients : s'.by_recipient ≡ s.by_recipient

SameIndex-trans : {r s t : Store} → SameIndex r s → SameIndex s t → SameIndex r t
SameIndex-trans p q = record {
  same_count = q.same_count ∙ p.same_count;
  same_addr = q.same_addr ∙ p.same_addr;
  same_senders = q.same_senders ∙ p.same_senders;
  same_recipients = q.same_recipients ∙ p.same_recipients;
}

pub record SameSettings (s s' : Store) : Type 0 where
  pub same_code : s'.stream_wasm_hash ≡ s.stream_wasm_hash
  pub same_governor : s'.governor_address ≡ s.governor_address

module _ ⦃rule : TtlRule⦄ where
  bump_round-SameIndex :
      (count cursor i last touched : ℕ) (s : Store)
      → SameIndex s ((bump_round count cursor i (s, last, touched)).0)
  unfolding bump_round
  bump_round-SameIndex count cursor i last touched s = ground arith

  bump_rounds-SameIndex :
      (left count cursor i : ℕ) (s : Store) (last touched : ℕ)
      → SameIndex s ((bump_rounds left count cursor i (s, last, touched)).0)
  unfolding bump_rounds
  bump_rounds-SameIndex zero count cursor i s last touched = ground arith
  bump_rounds-SameIndex (suc left) count cursor i s last touched =
      let (s', last', touched') = bump_round count cursor i (s, last, touched) in
      SameIndex-trans (bump_round-SameIndex count cursor i last touched s)
        (bump_rounds-SameIndex left count cursor (i + 1) s' last' touched')

  bump_bucket-SameIndex : (s : Store) → SameIndex s ((bump_bucket s).0)
  unfolding bump_bucket
  bump_bucket-SameIndex s =
      let count = Option.get_or s.stream_count 0 in
      let cursor = Option.get_or s.last_bumped_id 0 in
      ground (arith, bump_rounds-SameIndex batch_limit count cursor 0 s cursor 0)

  bump_round-SameSettings :
      (count cursor i last touched : ℕ) (s : Store)
      → SameSettings s ((bump_round count cursor i (s, last, touched)).0)
  unfolding bump_round
  bump_round-SameSettings count cursor i last touched s = ground arith

  bump_rounds-SameSettings :
      (left count cursor i : ℕ) (s : Store) (last touched : ℕ)
      → SameSettings s ((bump_rounds left count cursor i (s, last, touched)).0)
  unfolding bump_rounds
  bump_rounds-SameSettings zero count cursor i s last touched = ground arith
  bump_rounds-SameSettings (suc left) count cursor i s last touched =
      let (s', last', touched') = bump_round count cursor i (s, last, touched) in
      let first = bump_round-SameSettings count cursor i last touched s in
      let rest = bump_rounds-SameSettings left count cursor (i + 1) s' last' touched' in
      record {
        same_code = rest.same_code ∙ first.same_code;
        same_governor = rest.same_governor ∙ first.same_governor;
      }

  pub bump_bucket-SameSettings : (s : Store) → SameSettings s ((bump_bucket s).0)
  unfolding bump_bucket
  bump_bucket-SameSettings s =
      let count = Option.get_or s.stream_count 0 in
      let cursor = Option.get_or s.last_bumped_id 0 in
      ground (arith, bump_rounds-SameSettings batch_limit count cursor 0 s cursor 0)

  module _ {L : Type 0} (e e' : Env L) where
    pub pause-SameIndex : pause e ≡ ok (tt, e') → SameIndex e.store e'.store × (e'.self ≡ e.self)
    unfolding pause
    pause-SameIndex h = (ground (arith, bump_bucket-SameIndex e.store), ground arith)

    pub unpause-SameIndex :
        unpause e ≡ ok (tt, e') → SameIndex e.store e'.store × (e'.self ≡ e.self)
    unfolding unpause
    unpause-SameIndex h = (ground (arith, bump_bucket-SameIndex e.store), ground arith)

    pub upgrade_stream_wasm-SameIndex :
        (wasm_hash : ℕ)
        → upgrade_stream_wasm wasm_hash e ≡ ok (tt, e')
        → SameIndex e.store e'.store × (e'.self ≡ e.self)
    unfolding upgrade_stream_wasm
    upgrade_stream_wasm-SameIndex wasm_hash h =
        (ground (arith, bump_bucket-SameIndex e.store), ground arith)

    pub initialize-SameIndex :
        (wasm_hash : ℕ) (governor : Address)
        → initialize wasm_hash governor e ≡ ok (tt, e')
        → SameIndex e.store e'.store × (e'.self ≡ e.self)
    unfolding initialize
    initialize-SameIndex wasm_hash governor h = (ground arith, ground arith)
