-- ===== src/Chain/Streams.antt =====
-- One stream of contracts/stream/src/lib.rs as the chain sees it: what stays of its tokens over a
-- call of its own and over the calls of others.
use mathlib.Core.Option.{some-injective}
use conduit_contracts.Base.{
  ◌<◌, ◌≡◌, ◌≢◌, ◌⊎◌, inl, inr, refl, sym, subst, ◌∙◌, true, false, some, int_laws, pos, ◌+ℤ◌, ◌≤ℤ◌,
  ok, committed_cases,
}
use conduit_contracts.Host.{Address, Host, TokenLaws}
use conduit_contracts.Stream.Storage.{StreamInfo, is_cancelled, is_clawback_enabled}
use conduit_contracts.Stream.State.{Env}
use conduit_contracts.Stream.Invariant.{IsValid, contract_value}
use conduit_contracts.Stream.Run.{Op, apply, Transaction, begun, execute}
use conduit_contracts.Stream.Authority.{apply_authorized}
use conduit_contracts.Stream.Address.{apply-self}
use conduit_contracts.Stream.Solvency.{Covers, apply-Covers}
use conduit_contracts.Stream.Sparing.{Spares, same-Spares, apply-Spares}
use conduit_contracts.Stream.Terms.{apply-LeavesKind}

module _ {L : Type 0} ⦃host : Host L⦄ where
  -- If the stream at `a` is bounded and has no clawback flag, it was cancelled, or `a` holds what
  -- the whole stream is worth less what was withdrawn.
  abbrev pub Guarded : L → Address → StreamInfo → Type 0
  Guarded l a info =
      0 < info.end_time
      → is_clawback_enabled info ≡ false
      → (is_cancelled info ≡ true)
        ⊎ (pos (contract_value info) ≤ℤ info.withdrawn +ℤ host.balance l info.token a)

  pub spared-Guarded :
      (l l' : L) (a : Address) (info : StreamInfo)
      → Spares l l' a
      → Guarded l a info
      → Guarded l' a info
  spared-Guarded l l' a info spared g b u = elim (g b u) [
    | inl x ↦ inl x
    | inr covered ↦ inr (omega (int_laws, covered, spared info.token))
  ]

  Covers-worth :
      (e : Env L) (a : Address) (info after : StreamInfo)
      → e.self ≡ a
      → info ≡ after
      → Covers e info
      → pos (contract_value after) ≤ℤ after.withdrawn +ℤ host.balance e.ledger after.token a
  Covers-worth e a info after here same k =
      subst (λ i. pos (contract_value i) ≤ℤ i.withdrawn +ℤ host.balance e.ledger i.token a) same
        (subst
          (λ x. pos (contract_value info) ≤ℤ info.withdrawn +ℤ host.balance e.ledger info.token x)
          here k.covered)

  covered_after :
      (op : Op) (e e' : Env L) (info after : StreamInfo)
      → e.store.config ≡ some info
      → IsValid e.now info
      → Covers e info
      → e.auth e.self ≡ false
      → apply op e ≡ ok (tt, e')
      → e'.store.config ≡ some after
      → (is_cancelled after ≡ true)
        ⊎ (pos (contract_value after)
            ≤ℤ after.withdrawn +ℤ host.balance e'.ledger after.token e.self)
  covered_after op e e' info after c v k quiet h stored =
      let (end_info, end_stored, end) = apply-Covers op e e' info c v k quiet h in
      let same = some-injective end_info after (sym end_stored ∙ stored) in
      elim end [
        | inl x ↦ inl (subst (λ i. is_cancelled i ≡ true) same x)
        | inr f ↦ inr (Covers-worth e' e.self end_info after (apply-self op e e' info c h) same f)
      ]

  apply-Guarded :
      (op : Op) (e e' : Env L) (info after : StreamInfo)
      → e.store.config ≡ some info
      → IsValid e.now info
      → Guarded e.ledger e.self info
      → e.auth e.self ≡ false
      → apply op e ≡ ok (tt, e')
      → e'.store.config ≡ some after
      → Guarded e'.ledger e.self after
  apply-Guarded op e e' info after c v g quiet h stored b u =
      let (kind_info, kind_stored, kind) = apply-LeavesKind op e e' info c v h in
      let same = some-injective kind_info after (sym kind_stored ∙ stored) in
      elim kind [
        | inl x ↦ inl (subst (λ i. is_cancelled i ≡ true) same x)
        | inr k ↦ elim (g (k.was_bounded (rw same b)) (sym k.same_flag ∙ rw same u)) [
          | inl x ↦ cc (x, (apply_authorized op e e' info c h).0)
          | inr covered ↦
              covered_after op e e' info after c v
                (record {
                  is_bounded = k.was_bounded (rw same b);
                  unclawable = sym k.same_flag ∙ rw same u;
                  covered = covered;
                })
                quiet h stored
        ]
      ]

  -- A call of the stream, with whatever outcome.
  pub execute-Guarded :
      (t : Transaction L) (e : Env L) (info after : StreamInfo)
      → e.store.config ≡ some info
      → IsValid t.now info
      → Guarded t.ledger e.self info
      → t.auth e.self ≡ false
      → (execute t e).store.config ≡ some after
      → Guarded (execute t e).ledger e.self after
  unfolding execute
  execute-Guarded t e info after c v g quiet stored =
      elim (committed_cases (apply t.op) (begun t e) (apply t.op (begun t e)) refl) [
        | inl (e', h, same) ↦
            rw same
              (apply-Guarded t.op (begun t e) e' info after c v g quiet h (rw (← same) stored))
        | inr same ↦ rw (same, some-injective after info (sym stored ∙ rw same c)) g
      ]

  pub execute-Spares :
      ⦃laws : TokenLaws L⦄ (t : Transaction L) (e : Env L) (info : StreamInfo) (a : Address)
      → e.store.config ≡ some info
      → a ≢ e.self
      → t.auth a ≡ false
      → Spares t.ledger (execute t e).ledger a
  unfolding execute
  execute-Spares t e info a c ne quiet =
      elim (committed_cases (apply t.op) (begun t e) (apply t.op (begun t e)) refl) [
        | inl (e', h, same) ↦ rw same (apply-Spares t.op (begun t e) e' info a c ne quiet h)
        | inr same ↦ rw same (same-Spares t.ledger t.ledger a refl)
      ]
