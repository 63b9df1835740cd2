-- ===== src/Factory/Walker.antt =====
-- The bounded walker of contracts/factory/src/ttl.rs: which entries its calls keep alive.
use native.Mathlib.Decide.{dec_lt}
use conduit_contracts.Base.{
  ℕ, zero, suc, ◌+◌, ◌%◌, ◌≤◌, ◌<◌, ◌≡◌, refl, true, arith, ◌∙◌, subst, sym, ap,
}
use conduit_contracts.Host.{TtlRule}
use conduit_contracts.Factory.Storage.{Store}
use conduit_contracts.Factory.Ttl.{
  threshold, extend_to, saturating_add_u64, is_some, bump_round, bump_rounds,
}

-- The identifier of a round.
abbrev pub visited : ℕ → ℕ → ℕ → ℕ
visited count cursor i = saturating_add_u64 (saturating_add_u64 cursor 1) i % count

module _ ⦃rule : TtlRule⦄ where
  -- The entry is alive for a threshold's worth of ledgers.
  abbrev pub IsFresh : ℕ → Store → Type 0
  IsFresh id s = threshold ≤ s.stream_addr_ttl id

  extended_fresh : (ttl : ℕ) → threshold ≤ rule.extend_ttl threshold extend_to ttl
  extended_fresh ttl = elim (dec_lt ttl threshold) [
    | yes short ↦ rw (rule.extend_ttl_short threshold extend_to ttl short) (omega arith)
    | no long ↦ rw (rule.extend_ttl_long threshold extend_to ttl (omega arith)) (omega arith)
  ]

  pub record Round (s s' : Store) (id : ℕ) : Type 0 where
    pub same_addr : s'.stream_addr ≡ s.stream_addr
    pub same_count : s'.stream_count ≡ s.stream_count
    pub keeps : (j : ℕ) → IsFresh j s → IsFresh j s'
    pub refreshes : is_some (s.stream_addr id) ≡ true → IsFresh id s'

  bump_round-Round :
      (count cursor i new_last touched : ℕ) (s : Store)
      → let (s', last, n) = bump_round count cursor i (s, new_last, touched) in
        Round s s' (visited count cursor i) × (last ≡ visited count cursor i)
  unfolding bump_round
  bump_round-Round count cursor i new_last touched s = (
    record {
      same_addr = ground arith;
      same_count = ground arith;
      keeps = λ j f. ground (arith, extended_fresh (s.stream_addr_ttl (visited count cursor i)));
      refreshes =
          λ live. ground (arith, extended_fresh (s.stream_addr_ttl (visited count cursor i)));
    },
    ground arith,
  )

  -- What a run of rounds has done: nothing live that was fresh is stale, and every live entry
  -- visited is fresh.
  pub record Rounds (s s' : Store) (count cursor first left : ℕ) : Type 0 where
    pub same_addr : s'.stream_addr ≡ s.stream_addr
    pub same_count : s'.stream_count ≡ s.stream_count
    pub keeps : (j : ℕ) → IsFresh j s → IsFresh j s'
    pub refreshes :
        (i : ℕ)
        → i < left
        → is_some (s.stream_addr (visited count cursor (first + i))) ≡ true
        → IsFresh (visited count cursor (first + i)) s'

  refresh_next :
      (s s' s'' : Store) (count cursor first left : ℕ)
      → Round s s' (visited count cursor first)
      → Rounds s' s'' count cursor (first + 1) left
      → (i : ℕ) → i < suc left
      → is_some (s.stream_addr (visited count cursor (first + i))) ≡ true
      → IsFresh (visited count cursor (first + i)) s''
  refresh_next s s' s'' count cursor first left r rs zero lt live =
      let e : first + 0 ≡ first = omega arith in
      subst (λ k. IsFresh (visited count cursor k) s'') (sym e)
        (rs.keeps _ (
          r.refreshes
            (subst (λ k. is_some (s.stream_addr (visited count cursor k)) ≡ true) e live)))
  refresh_next s s' s'' count cursor first left r rs (suc i) lt live =
      let e : first + suc i ≡ first + 1 + i = omega arith in
      subst (λ k. IsFresh (visited count cursor k) s'') (sym e)
        (rs.refreshes i (omega arith) (
          subst (λ f. is_some (f (visited count cursor (first + 1 + i))) ≡ true) (sym r.same_addr)
            (subst (λ k. is_some (s.stream_addr (visited count cursor k)) ≡ true) e live)))

  pub bump_rounds-Rounds :
      (left count cursor first new_last touched : ℕ) (s : Store)
      → Rounds s
          (bump_rounds left count cursor first (s, new_last, touched)).0
          count
          cursor
          first
          left
  unfolding bump_rounds
  bump_rounds-Rounds zero count cursor first new_last touched s = record {
    same_addr = refl;
    same_count = refl;
    keeps = λ j f. f;
    refreshes = λ i lt. absurd (omega arith);
  }
  bump_rounds-Rounds (suc left) count cursor first new_last touched s =
      let (s', last, n) = bump_round count cursor first (s, new_last, touched) in
      let (r, _) = bump_round-Round count cursor first new_last touched s in
      let rs = bump_rounds-Rounds left count cursor (first + 1) last n s' in
      record {
        same_addr = rs.same_addr ∙ r.same_addr;
        same_count = rs.same_count ∙ r.same_count;
        keeps = λ j f. rs.keeps j (r.keeps j f);
        refreshes = refresh_next s s' _ count cursor first left r rs;
      }

  -- Where the cursor ends: at the identifier of the last round.
  pub last_visited :
      (left count cursor first new_last touched : ℕ) (s : Store)
      → (bump_rounds (suc left) count cursor first (s, new_last, touched)).1
        ≡ visited count cursor (first + left)
  unfolding bump_rounds
  last_visited zero count cursor first new_last touched s =
      (bump_round-Round count cursor first new_last touched s).1
      ∙ ap (visited count cursor) (omega arith)
  last_visited (suc left) count cursor first new_last touched s =
      let (s', last, n) = bump_round count cursor first (s, new_last, touched) in
      last_visited left count cursor (first + 1) last n s' ∙ ap (visited count cursor) (omega arith)
