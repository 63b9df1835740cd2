-- ===== src/Factory/Coverage.antt =====
-- The bounded walker of contracts/factory/src/ttl.rs over several calls: every live entry of the
-- registry is reached.
use mathlib.Core.Option
use native.Mathlib.Decide.{dec_lt}
use native.Mathlib.Nat.{mod-lt, mod-add-mod, mod-eq_of_lt, add-mod_right}
use conduit_contracts.Base.{
  ℕ, zero, suc, ◌+◌, ◌-◌, ◌*◌, ◌%◌, ◌≤◌, ◌<◌, ◌≡◌, refl, true, arith, some, u64_limit, ◌∙◌, subst,
  sym, ap,
}
use conduit_contracts.Host.{TtlRule}
use conduit_contracts.Factory.Storage.{Store}
use conduit_contracts.Factory.Ttl.{batch_limit, is_some, bump_rounds, bump_bucket}
use conduit_contracts.Factory.Walker.{IsFresh, visited, Rounds, bump_rounds-Rounds, last_visited}

-- `k` maintenance calls in a row.
module _ ⦃rule : TtlRule⦄ where
  unfoldable pub walk : ℕ → Store → Store
  walk zero s = s
  walk (suc k) s = (bump_bucket (walk k s)).0

-- The source reads a cursor that was never set as 0.
abbrev pub cursor_of : Store → ℕ
cursor_of s = Option.get_or s.last_bumped_id 0

visited-eq :
    (count cursor i : ℕ)
    → cursor < count
    → count + 16 < u64_limit
    → i < 8
    → visited count cursor i ≡ (cursor + 1 + i) % count
visited-eq count cursor i lt fits small = ap (λ k. k % count) (omega arith)

module _ ⦃rule : TtlRule⦄ (count start : ℕ) where
  -- After visits at the offsets below `done` from the start.
  pub record Walked (s s' : Store) (done : ℕ) : Type 0 where
    pub same_addr : s'.stream_addr ≡ s.stream_addr
    pub same_count : s'.stream_count ≡ some count
    pub cursor_at : cursor_of s' ≡ (start + done) % count
    pub keeps : (j : ℕ) → IsFresh j s → IsFresh j s'
    pub reached :
        (i : ℕ)
        → i < done
        → is_some (s.stream_addr ((start + 1 + i) % count)) ≡ true
        → IsFresh ((start + 1 + i) % count) s'

  -- A call on a registry that is not empty runs its rounds, and stores where they ended.
  bump_bucket_lem :
      (cursor : ℕ) (s : Store)
      → s.stream_count ≡ some count
      → cursor_of s ≡ cursor
      → 0 < count
      → let rounds = bump_rounds batch_limit count cursor 0 (s, cursor, 0) in
        (bump_bucket s).0 ≡ record rounds.0 { last_bumped_id = some rounds.1 }
  unfolding bump_bucket
  bump_bucket_lem cursor s c l pos = ground arith

  later_cursor :
      (done i : ℕ) → ((start + done) % count + 1 + i) % count ≡ (start + 1 + (done + i)) % count
  later_cursor done i =
      ap (λ k. k % count) (omega arith)
      ∙ mod-add-mod (start + done) count (1 + i)
      ∙ ap (λ k. k % count) (omega arith)

  reach_next :
      (s s₁ s₂ : Store) (done i : ℕ)
      → (start + done) % count < count
      → count + 16 < u64_limit
      → Walked s s₁ done
      → Rounds s₁ s₂ count ((start + done) % count) 0 batch_limit
      → i < done + 8
      → is_some (s.stream_addr ((start + 1 + i) % count)) ≡ true
      → IsFresh ((start + 1 + i) % count) s₂
  reach_next s s₁ s₂ done i lt fits w rs small live = elim (dec_lt i done) [
    | yes early ↦ rs.keeps _ (w.reached i early live)
    | no late ↦
        let m = i - done in
        let e : visited count ((start + done) % count) (0 + m) ≡ (start + 1 + i) % count =
          visited-eq count ((start + done) % count) (0 + m) lt fits (omega arith)
          ∙ later_cursor done (0 + m)
          ∙ ap (λ k. k % count) (omega arith) in
        subst (λ k. IsFresh k s₂) e
          (rs.refreshes m (omega arith) (
            subst (λ k. is_some (s₁.stream_addr k) ≡ true) (sym e)
              (subst (λ f. is_some (f ((start + 1 + i) % count)) ≡ true) (sym w.same_addr) live)))
  ]

  bucket-Walked :
      (s s₁ : Store) (done : ℕ)
      → 0 < count
      → count + 16 < u64_limit
      → Walked s s₁ done
      → Walked s (bump_bucket s₁).0 (done + 8)
  bucket-Walked s s₁ done pos fits w =
      let cursor = (start + done) % count in
      let lt : cursor < count = mod-lt (start + done) pos in
      let rs = bump_rounds-Rounds batch_limit count cursor 0 cursor 0 s₁ in
      let ends = last_visited 7 count cursor 0 cursor 0 s₁ in
      rw (bump_bucket_lem cursor s₁ w.same_count w.cursor_at pos) (record {
        same_addr = rs.same_addr ∙ w.same_addr;
        same_count = rs.same_count ∙ w.same_count;
        cursor_at =
            ends
            ∙ visited-eq count cursor 7 lt fits (omega arith)
            ∙ later_cursor done 7
            ∙ ap (λ k. k % count) (omega arith);
        keeps = λ j f. rs.keeps j (w.keeps j f);
        reached = λ i small live. reach_next s s₁ _ done i lt fits w rs small live;
      })

  -- Every identifier is visited at some offset below the count.
  offset_of :
      (id : ℕ) → start < count → id < count → (i : ℕ) × (i < count) × ((start + 1 + i) % count ≡ id)
  offset_of id lt below = elim (dec_lt start id) [
    | yes ahead ↦
        (id - start - 1, omega arith, ap (λ k. k % count) (omega arith) ∙ mod-eq_of_lt below)
    | no behind ↦ (
      id + count - start - 1,
      omega arith,
      ap (λ k. k % count) (omega arith) ∙ add-mod_right id count ∙ mod-eq_of_lt below,
    )
  ]

  walk-Walked :
      (k : ℕ) (s : Store)
      → s.stream_count ≡ some count
      → cursor_of s ≡ start
      → start < count
      → count + 16 < u64_limit
      → Walked s (walk k s) (8 * k)
  unfolding walk
  walk-Walked zero s c l lt fits = record {
    same_addr = refl;
    same_count = c;
    cursor_at = l ∙ sym (ap (λ k. k % count) (omega arith) ∙ mod-eq_of_lt lt);
    keeps = λ j f. f;
    reached = λ i small. absurd (omega arith);
  }
  walk-Walked (suc k) s c l lt fits =
      let e : 8 * k + 8 ≡ 8 * suc k = omega arith in
      subst (Walked s (walk (suc k) s)) e
        (bucket-Walked s (walk k s) (8 * k) (omega arith) fits (walk-Walked k s c l lt fits))

  -- In a registry of `count` streams, with `count + 16` below 2^64, where the cursor was never
  -- set or is at an identifier below the count: after `k` maintenance calls in a row with
  -- `count` at most 8 times `k`, every live entry has a time to live of at least the threshold.
  pub walk_covers :
      (k id : ℕ) (s : Store)
      → s.stream_count ≡ some count
      → cursor_of s ≡ start
      → start < count
      → count + 16 < u64_limit
      → count ≤ 8 * k
      → id < count
      → is_some (s.stream_addr id) ≡ true
      → IsFresh id (walk k s)
  walk_covers k id s c l lt fits enough below live =
      let w = walk-Walked k s c l lt fits in
      let (i, small, e) = offset_of id lt below in
      subst (λ j. IsFresh j (walk k s)) e
        (w.reached i (omega arith) (subst (λ j. is_some (s.stream_addr j) ≡ true) (sym e) live))
