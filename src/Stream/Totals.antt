-- ===== src/Stream/Totals.antt =====
-- The whole life of a stream of contracts/stream/src/lib.rs: what its recipients get in total.
use mathlib.Core.Option.{some-injective}
use conduit_contracts.Base.{
  ℕ, ◌≡◌, ◌⊎◌, inl, inr, sym, ◌∙◌, some, arith, List, [], ◌∷◌, ℤ, pos, ◌+ℤ◌, ok, true, +ℤ_parts,
  eq_of_parts,
}
use conduit_contracts.Host.{Host}
use conduit_contracts.Stream.Storage.{StreamInfo, is_cancelled}
use conduit_contracts.Stream.State.{Env}
use conduit_contracts.Stream.Math.{streamed_amount}
use conduit_contracts.Stream.Invariant.{IsValid, later-IsValid}
use conduit_contracts.Stream.Run.{Op, apply, Transaction, begun, run, InOrder}
use conduit_contracts.Stream.Shares.{PaidOut}
use conduit_contracts.Stream.Cancellation.{bumped, cancel-settle, force_cancel-settle}
use conduit_contracts.Stream.Authority.{apply_authorized}
use conduit_contracts.Stream.Solvency.{Covers}
use conduit_contracts.Stream.Escrow.{Undrained, begun-Covers, run-Covers}
use conduit_contracts.Stream.History.{finish, run-Continues}
use conduit_contracts.Stream.Retention.{NeverOverrun}
use conduit_contracts.Stream.Receipts.{withdrawals, run_counts_withdrawals}
use conduit_contracts.Stream.Lifetime.{Within, later-Within, run-Within, PaidRest, settle-PaidRest}

-- The two calls that settle a stream.
pub data IsSettlement : Op → Type 0 where
  by_sender : IsSettlement Op.cancel
  by_recipient : IsSettlement Op.force_cancel

fresh-Within : (now : ℕ) (info : StreamInfo) → info.withdrawn ≡ pos 0 → Within now info
fresh-Within now info z = ground (arith, z)

from_nothing : (a b : ℤ) → a ≡ pos 0 → a +ℤ b ≡ b
from_nothing a b z = eq_of_parts (a +ℤ b) b (rw z (omega (arith, +ℤ_parts (pos 0) b)))

module _ {L : Type 0} ⦃host : Host L⦄ where
  bumped-Covers : (e : Env L) (info : StreamInfo) → Covers e info → Covers (bumped e) info
  bumped-Covers e info k = record {
    is_bounded = k.is_bounded;
    unclawable = k.unclawable;
    covered = k.covered;
  }

  settlement-PaidRest :
      (op : Op) (e e' : Env L) (info : StreamInfo)
      → IsSettlement op
      → e.store.config ≡ some info
      → IsValid e.now info
      → Within e.now info
      → Covers e info
      → apply op e ≡ ok (tt, e')
      → PaidRest e info info.withdrawn
  unfolding apply
  settlement-PaidRest op e e' info IsSettlement.by_sender c v w k h =
      settle-PaidRest (bumped e) e' info c v w (bumped-Covers e info k)
        (cancel-settle e e' info c h).2
  settlement-PaidRest op e e' info IsSettlement.by_recipient c v w k h =
      settle-PaidRest (bumped e) e' info c v w (bumped-Covers e info k)
        (force_cancel-settle e e' info c h).4

  -- What covers a stream after a history covers it at the start of the call that settles it.
  settled-Covers :
      (t : Transaction L) (e e' : Env L) (info : StreamInfo)
      → e.store.config ≡ some info
      → Undrained (t ∷ []) e info.token
      → (is_cancelled info ≡ true) ⊎ Covers e info
      → apply t.op (begun t e) ≡ ok (tt, e')
      → Covers (begun t e) info
  settled-Covers t e e' info c u (inl x) h =
      cc (x, (apply_authorized t.op (begun t e) e' info c h).0)
  settled-Covers t e e' info c u (inr k) h = begun-Covers t e info k u.0

  -- A bounded stream without the clawback flag whose worth is in escrow and that has paid out
  -- nothing, over any calls made by anybody but the contract itself in the order of time and with
  -- any outcome, where nobody else takes the contract's tokens and no call is made on a stream that
  -- is past its end and paused since before its end. If it is then settled, by a `cancel` or a
  -- `force_cancel` under the same conditions, the recipient is paid a share such that the successful
  -- withdrawals and this share together are exactly what has streamed at that time.
  pub settled_in_full :
      (ts : List (Transaction L)) (t : Transaction L) (e e' : Env L) (info : StreamInfo)
      → e.store.config ≡ some info
      → IsValid e.now info
      → info.withdrawn ≡ pos 0
      → Covers e info
      → InOrder e.now ts
      → Undrained ts e info.token
      → NeverOverrun ts e
      → InOrder (finish e.now ts) (t ∷ [])
      → Undrained (t ∷ []) (run ts e) info.token
      → NeverOverrun (t ∷ []) (run ts e)
      → IsSettlement t.op
      → apply t.op (begun t (run ts e)) ≡ ok (tt, e')
      → (after : StreamInfo) × ((run ts e).store.config ≡ some after)
        × (streamed : ℤ) × (owed : ℤ) × (mid : L) × (streamed_amount t.now after ≡ ok streamed)
        × PaidOut t.ledger mid after.token (run ts e).self after.recipient owed
        × (withdrawals ts e +ℤ owed ≡ streamed)
  settled_in_full ts t e e' info c v z k o u n o' u' n' is h =
      let (after, stored, within) =
        run-Within ts e info e.now c v o n (fresh-Within e.now info z) in
      let (again, stored_again, goes_on) = run-Continues ts e info e.now c v o in
      let (third, stored_third, covered) = run-Covers ts e info e.now c v o u (inr k) in
      let (fourth, stored_fourth, counted) = run_counts_withdrawals ts e info c in
      let same = some-injective again after (sym stored_again ∙ stored) in
      let same_third = some-injective third after (sym stored_third ∙ stored) in
      let same_fourth = some-injective fourth after (sym stored_fourth ∙ stored) in
      let valid : IsValid (finish e.now ts) after = rw same at goes_on.valid in
      let token : after.token ≡ info.token = rw same at goes_on.same_token in
      let total : after.withdrawn ≡ withdrawals ts e =
        (rw same_fourth at counted) ∙ from_nothing info.withdrawn (withdrawals ts e) z in
      let now_valid = later-IsValid (finish e.now ts) t.now after o'.0 valid in
      let now_within = later-Within (finish e.now ts) t.now after o'.0 valid within in
      let covers =
        settled-Covers t (run ts e) e' after stored (rw token u') (rw same_third at covered) h in
      let (streamed, owed, mid, streamed_is, paid, sum) =
        settlement-PaidRest t.op (begun t (run ts e)) e' after is stored now_valid now_within covers
          h in
      (after, stored, streamed, owed, mid, streamed_is, paid, rw total at sum)
