-- ===== src/Stream/Lifetime.antt =====
-- All that the recipients of a stream of contracts/stream/src/lib.rs get, from its start to the
-- settlement of `cancel` or `force_cancel`.
use mathlib.Core.Option.{some-injective}
use conduit_contracts.Base.{
  ℕ, ◌*◌, ◌≤◌, ◌≡◌, inl, inr, refl, sym, ◌∙◌, some, arith, int_laws, List, [], ◌∷◌, ℤ, pos,
  pos_part, ◌+ℤ◌, ◌-ℤ◌, ◌≤ℤ◌, min_ℤ, max_ℤ, ok, committed_cases, eq_of_parts, +ℤ_parts,
}
use conduit_contracts.Host.{Host}
use conduit_contracts.Stream.Storage.{StreamInfo}
use conduit_contracts.Stream.State.{Env}
use conduit_contracts.Stream.Math.{streamed_amount}
use conduit_contracts.Stream.Accrual.{scale}
use conduit_contracts.Stream.Payments.{withdraw}
use conduit_contracts.Stream.Settlement.{settle}
use conduit_contracts.Stream.Invariant.{IsValid, later-IsValid, streamed_amount-le-contract_value}
use conduit_contracts.Stream.Run.{Op, apply, Transaction, begun, execute, run, InOrder}
use conduit_contracts.Stream.Preservation.{discarded, apply-Continues}
use conduit_contracts.Stream.Withdrawal.{withdraw-Withdrawal, withdraw-within}
use conduit_contracts.Stream.History.{finish, execute-Continues}
use conduit_contracts.Stream.Earnings.{
  time_run, NotOverrun, later-time_run, streamed_amount-time_run,
}
use conduit_contracts.Stream.Retention.{NeverOverrun, apply-RunsOn}
use conduit_contracts.Stream.Shares.{PaidOut, settle-Settled}
use conduit_contracts.Stream.Solvency.{Covers, held}
use conduit_contracts.Stream.Receipts.{withdrawal, apply-Counts}

-- No more was withdrawn than what the time run is worth.
abbrev pub Within : ℕ → StreamInfo → Type 0
Within now info = info.withdrawn ≤ℤ pos (pos_part info.rate_per_second * time_run now info)

longer-Within :
    (now later : ℕ) (info after : StreamInfo) (sent : ℤ)
    → info.withdrawn +ℤ sent ≤ℤ pos (pos_part info.rate_per_second * time_run now info)
    → after.withdrawn ≡ info.withdrawn +ℤ sent
    → after.rate_per_second ≡ info.rate_per_second
    → time_run now info ≤ time_run later after
    → Within later after
longer-Within now later info after sent w counted rate le =
    ground (arith, w, counted, rate, scale (pos_part info.rate_per_second) le)

pub later-Within :
    (now later : ℕ) (info : StreamInfo)
    → now ≤ later
    → IsValid now info
    → Within now info
    → Within later info
later-Within now later info le v w =
    omega (arith, w, scale (pos_part info.rate_per_second) (later-time_run now later info le v))

nothing_sent : (a : ℤ) (n : ℕ) → a ≤ℤ pos n → a +ℤ pos 0 ≤ℤ pos n
nothing_sent a n h = omega (arith, +ℤ_parts a (pos 0))

-- The share is the rest of what has streamed, where the balance covers it.
share_is_rest :
    (streamed withdrawn balance owed : ℤ)
    → withdrawn ≤ℤ streamed
    → streamed ≤ℤ withdrawn +ℤ balance
    → owed ≡ min_ℤ (max_ℤ (streamed -ℤ withdrawn) (pos 0)) balance
    → withdrawn +ℤ owed ≡ streamed
share_is_rest streamed withdrawn balance owed w b h =
    eq_of_parts (withdrawn +ℤ owed) streamed (rw h (omega int_laws))

module _ {L : Type 0} ⦃host : Host L⦄ where
  -- A withdrawal stays within what has streamed.
  apply-within :
      (op : Op) (e e' : Env L) (info : StreamInfo)
      → e.store.config ≡ some info
      → IsValid e.now info
      → Within e.now info
      → apply op e ≡ ok (tt, e')
      → info.withdrawn +ℤ withdrawal op e
        ≤ℤ pos (pos_part info.rate_per_second * time_run e.now info)
  unfolding apply withdrawal
  apply-within (Op.withdraw amount) e e' info c v w h =
      let (sent, k) = discarded (withdraw amount) e e' h in
      let (_, paid) = withdraw-Withdrawal e e' info amount sent c k in
      let (streamed, streamed_is, within, _, _) = withdraw-within e e' info amount sent paid in
      let worth = streamed_amount-time_run e.now info (omega (arith, v)) streamed_is in
      rw k (rw worth at within)
  apply-within op e e' info c v w h =
      ground (
        arith,
        w,
        nothing_sent info.withdrawn (pos_part info.rate_per_second * time_run e.now info),
      )

  apply-Within :
      (op : Op) (e e' : Env L) (info : StreamInfo)
      → e.store.config ≡ some info
      → IsValid e.now info
      → NotOverrun e.now info
      → Within e.now info
      → apply op e ≡ ok (tt, e')
      → (after : StreamInfo) × (e'.store.config ≡ some after) × Within e.now after
  apply-Within op e e' info c v o w h =
      let (after, stored, counted) = apply-Counts op e e' info c h in
      let (again, stored', longer) = apply-RunsOn op e e' info c v o h in
      let (third, stored'', k) = apply-Continues op e e' info c v h in
      let same = some-injective again after (sym stored' ∙ stored) in
      let same' = some-injective third after (sym stored'' ∙ stored) in
      (
        after,
        stored,
        longer-Within e.now e.now info after (withdrawal op e) (apply-within op e e' info c v w h)
            counted (rw same' at k.same_rate) (rw same at longer),
      )

  execute-Within :
      (t : Transaction L) (e : Env L) (info : StreamInfo)
      → e.store.config ≡ some info
      → IsValid t.now info
      → NotOverrun t.now info
      → Within t.now info
      → (after : StreamInfo) × ((execute t e).store.config ≡ some after) × Within t.now after
  unfolding execute
  execute-Within t e info c v o w =
      elim (committed_cases (apply t.op) (begun t e) (apply t.op (begun t e)) refl) [
        | inl (e', h, same) ↦ rw same (apply-Within t.op (begun t e) e' info c v o w h)
        | inr same ↦ rw same (info, c, w)
      ]

  pub run-Within :
      (ts : List (Transaction L)) (e : Env L) (info : StreamInfo) (now : ℕ)
      → e.store.config ≡ some info
      → IsValid now info
      → InOrder now ts
      → NeverOverrun ts e
      → Within now info
      → (after : StreamInfo) × ((run ts e).store.config ≡ some after) × Within (finish now ts) after
  unfolding run
  run-Within [] e info now c v o n w = (info, c, w)
  run-Within (t ∷ ts) e info now c v o n w =
      let (mid, stored, k) = execute-Continues t e info now c v o.0 in
      let v' = later-IsValid now t.now info o.0 v in
      let w' = later-Within now t.now info o.0 v w in
      let (again, stored', w'') = execute-Within t e info c v' (n.0 info c) w' in
      let same = some-injective again mid (sym stored' ∙ stored) in
      run-Within ts (execute t e) mid t.now stored k.valid o.1 n.1 (rw same at w'')

  -- What the recipient is paid at a settlement, and what it makes up.
  abbrev pub PaidRest : Env L → StreamInfo → ℤ → Type 0
  PaidRest e info before =
      (streamed : ℤ) × (owed : ℤ) × (mid : L) × (streamed_amount e.now info ≡ ok streamed)
      × PaidOut e.ledger mid info.token e.self info.recipient owed
      × (before +ℤ owed ≡ streamed)

  pub settle-PaidRest :
      (e e' : Env L) (info : StreamInfo)
      → e.store.config ≡ some info
      → IsValid e.now info
      → Within e.now info
      → Covers e info
      → settle info e ≡ ok (tt, e')
      → PaidRest e info info.withdrawn
  settle-PaidRest e e' info c v w k h =
      let (streamed, owed, refund, mid, s) = settle-Settled e e' info c h in
      let worth = streamed_amount-time_run e.now info (omega (arith, v)) s.streamed_is in
      let below = streamed_amount-le-contract_value e.now info v k.is_bounded s.streamed_is in
      (
        streamed,
        owed,
        mid,
        s.streamed_is,
        s.paid_recipient,
        share_is_rest streamed info.withdrawn (held e info) owed (rw worth w)
            (omega (arith, below, k.covered)) s.owed_is,
      )
