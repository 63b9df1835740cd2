-- ===== src/Stream/Escrow.antt =====
-- Histories of a covered stream: the contract can always pay, as long as nobody takes its tokens.
use mathlib.Core.Option.{some-injective}
use conduit_contracts.Base.{
  ℕ, ◌≤◌, ◌≡◌, ◌⊎◌, inl, inr, refl, sym, subst, ◌∙◌, true, false, some, arith, int_laws, List, [],
  ◌∷◌, ℤ, pos, ◌+ℤ◌, ◌≤ℤ◌, ok, committed_cases, +ℤ_parts,
}
use conduit_contracts.Host.{Host, Address}
use conduit_contracts.Stream.Storage.{StreamInfo, is_cancelled}
use conduit_contracts.Stream.State.{Env}
use conduit_contracts.Stream.Math.{withdrawable_amount}
use conduit_contracts.Stream.Accrual.{withdrawable_amount-ok}
use conduit_contracts.Stream.Invariant.{
  IsValid, later-IsValid, contract_value, streamed_amount-le-contract_value,
}
use conduit_contracts.Stream.Run.{apply, Transaction, begun, execute, run, InOrder}
use conduit_contracts.Stream.Authority.{apply_authorized}
use conduit_contracts.Stream.History.{finish, execute-Continues, run-Continues}
use conduit_contracts.Stream.Solvency.{held, Covers, CancelledOrCovered, apply-Covers}

module _ {L : Type 0} ⦃host : Host L⦄ where
  -- What happens between and in the calls leaves the contract's tokens alone: they are no fewer at
  -- the start of a call than at the end of the one before, and the contract signs no call.
  abbrev pub Undrained : List (Transaction L) → Env L → Address → Type 0
  Undrained [] e token = Unit
  Undrained (t ∷ ts) e token =
      (host.balance e.ledger token e.self ≤ℤ host.balance t.ledger token e.self)
      × (t.auth e.self ≡ false)
      × Undrained ts (execute t e) token

  pub begun-Covers :
      (t : Transaction L) (e : Env L) (info : StreamInfo)
      → Covers e info
      → host.balance e.ledger info.token e.self ≤ℤ host.balance t.ledger info.token e.self
      → Covers (begun t e) info
  begun-Covers t e info k le = record {
    is_bounded = k.is_bounded;
    unclawable = k.unclawable;
    covered =
        omega
          (int_laws, k.covered, +ℤ_parts info.withdrawn (host.balance t.ledger info.token e.self));
  }

  -- A cancelled stream stays as it is.
  execute_cancelled :
      (t : Transaction L) (e : Env L) (info : StreamInfo)
      → e.store.config ≡ some info
      → is_cancelled info ≡ true
      → (execute t e).store.config ≡ some info
  unfolding execute
  execute_cancelled t e info c x =
      elim (committed_cases (apply t.op) (begun t e) (apply t.op (begun t e)) refl) [
        | inl (e', h, same) ↦ cc (x, (apply_authorized t.op (begun t e) e' info c h).0)
        | inr same ↦ rw same c
      ]

  execute-Covers :
      (t : Transaction L) (e : Env L) (info : StreamInfo)
      → e.store.config ≡ some info
      → IsValid t.now info
      → Covers (begun t e) info
      → (t.auth e.self ≡ false)
      → CancelledOrCovered (execute t e)
  unfolding execute
  execute-Covers t e info c v k quiet =
      elim (committed_cases (apply t.op) (begun t e) (apply t.op (begun t e)) refl) [
        | inl (e', h, same) ↦ rw same (apply-Covers t.op (begun t e) e' info c v k quiet h)
        | inr same ↦ rw same (info, c, inr k)
      ]

  -- One call, on a cancelled stream or on one that is covered.
  step-Covers :
      (t : Transaction L) (e : Env L) (info after : StreamInfo)
      → e.store.config ≡ some info
      → (execute t e).store.config ≡ some after
      → IsValid t.now info
      → host.balance e.ledger info.token e.self ≤ℤ host.balance t.ledger info.token e.self
      → (t.auth e.self ≡ false)
      → (is_cancelled info ≡ true) ⊎ Covers e info
      → (is_cancelled after ≡ true) ⊎ Covers (execute t e) after
  step-Covers t e info after c stored v le quiet (inl x) =
      inl (rw (some-injective after info (sym stored ∙ execute_cancelled t e info c x)) x)
  step-Covers t e info after c stored v le quiet (inr k) =
      let (mid, stored', r) = execute-Covers t e info c v (begun-Covers t e info k le) quiet in
      rw (some-injective after mid (sym stored ∙ stored')) r

  pub run-Covers :
      (ts : List (Transaction L)) (e : Env L) (info : StreamInfo) (now : ℕ)
      → e.store.config ≡ some info
      → IsValid now info
      → InOrder now ts
      → Undrained ts e info.token
      → (is_cancelled info ≡ true) ⊎ Covers e info
      → CancelledOrCovered (run ts e)
  unfolding run
  run-Covers [] e info now c v o u s = (info, c, s)
  run-Covers (t ∷ ts) e info now c v o u s =
      let (mid, stored, k) = execute-Continues t e info now c v o.0 in
      let s' = step-Covers t e info mid c stored (later-IsValid now t.now info o.0 v) u.0 u.1 s in
      run-Covers ts (execute t e) mid t.now stored k.valid o.1
        (subst (Undrained ts (execute t e)) (sym k.same_token) u.2) s'

  -- What the recipient may withdraw is there.
  pub Covers-withdrawable :
      (e : Env L) (info : StreamInfo) (now : ℕ) (available : ℤ)
      → IsValid now info
      → Covers e info
      → withdrawable_amount now info ≡ ok available
      → available ≤ℤ held e info
  Covers-withdrawable e info now available v k h =
      let (streamed, streamed_is, nonneg, within) = withdrawable_amount-ok now info h in
      let le = streamed_amount-le-contract_value now info v k.is_bounded streamed_is in
      let range = (host.balance_range e.ledger info.token e.self).0 in
      let covered = k.covered in
      ground (arith, +ℤ_parts info.withdrawn available, +ℤ_parts info.withdrawn (held e info))

  -- A bounded stream without the clawback flag whose worth is in escrow, over any calls made by
  -- anybody but the contract itself in the order of time, where nobody else takes the contract's
  -- tokens: unless it was cancelled, the contract holds at least what the whole stream is worth less
  -- what was withdrawn, so at every later time it holds what the recipient may then withdraw.
  pub run_stays_solvent :
      (ts : List (Transaction L)) (e : Env L) (info : StreamInfo)
      → e.store.config ≡ some info
      → IsValid e.now info
      → InOrder e.now ts
      → Undrained ts e info.token
      → Covers e info
      → (after : StreamInfo) × ((run ts e).store.config ≡ some after)
        × ((is_cancelled after ≡ true)
            ⊎ ((pos (contract_value after) ≤ℤ after.withdrawn +ℤ held (run ts e) after)
                × ((now : ℕ) (available : ℤ)
                    → finish e.now ts ≤ now
                    → withdrawable_amount now after ≡ ok available
                    → available ≤ℤ held (run ts e) after)))
  run_stays_solvent ts e info c v o u k =
      let (after, stored, s) = run-Covers ts e info e.now c v o u (inr k) in
      let (again, stored', valid) = run-Continues ts e info e.now c v o in
      let v' =
        subst (IsValid (finish e.now ts)) (some-injective again after (sym stored' ∙ stored))
          valid.valid in
      (
        after,
        stored,
        elim s [
          | inl x ↦ inl x
          | inr k' ↦ inr (
            k'.covered,
            λ now available le h.
                Covers-withdrawable (run ts e) after now available
                  (later-IsValid (finish e.now ts) now after le v') k' h,
          )
        ],
      )
