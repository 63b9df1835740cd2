-- ===== src/Stream/Receipts.antt =====
-- What the recipients of a stream of contracts/stream/src/lib.rs withdraw over a history of calls,
-- against the counter that the stream keeps and against what has streamed.
use conduit_contracts.Base.{
  succeeds, ◌≡◌, refl, ◌∙◌, false, some, arith, int_laws, eq_of_parts, +ℤ_parts, List, [], ◌∷◌, ℤ,
  pos, ◌+ℤ◌, Outcome, ok, err, panic, trap, committed,
}
use conduit_contracts.Host.{Host}
use conduit_contracts.Stream.Storage.{StreamInfo, Error}
use conduit_contracts.Stream.State.{Env}
use conduit_contracts.Stream.Payments.{withdraw}
use conduit_contracts.Stream.Settlement.{clawback}
use conduit_contracts.Stream.Run.{Op, apply, Transaction, begun, execute, run}
use conduit_contracts.Stream.Preservation.{discarded}
use conduit_contracts.Stream.Creation.{initialize_again}
use conduit_contracts.Stream.Withdrawal.{withdraw-Withdrawal}
use conduit_contracts.Stream.Pausing.{pause-Updated, resume-Updated}
use conduit_contracts.Stream.Shares.{settle-Settled}
use conduit_contracts.Stream.Cancellation.{cancel-settle, force_cancel-settle, bumped}
use conduit_contracts.Stream.Clawback.{clawback-Clawed}
use conduit_contracts.Stream.Funding.{top_up-Deposited, extend_duration-Deposited}
use conduit_contracts.Stream.Handover.{transfer_recipient-ok}

-- What a call hands over to the recipient as a withdrawal: nothing if it fails.
abbrev pub sent_of : {S : Type 0} → Outcome Error (ℤ × S) → ℤ
sent_of (ok (sent, s)) = sent
sent_of (err e) = pos 0
sent_of (panic e) = pos 0
sent_of (trap t) = pos 0

plus_nothing : (a b : ℤ) → b ≡ a → b ≡ a +ℤ pos 0
plus_nothing a b h = eq_of_parts b (a +ℤ pos 0) (rw h (omega (arith, +ℤ_parts a (pos 0))))

+ℤ_assoc : (a b c : ℤ) → a +ℤ b +ℤ c ≡ a +ℤ (b +ℤ c)
+ℤ_assoc a b c = eq_of_parts (a +ℤ b +ℤ c) (a +ℤ (b +ℤ c)) (omega int_laws)

module _ {L : Type 0} ⦃host : Host L⦄ where
  unfoldable pub withdrawal : Op → Env L → ℤ
  withdrawal (Op.withdraw amount) e = sent_of (withdraw amount e)
  withdrawal op e = pos 0

  -- The sum over a history.
  unfoldable pub withdrawals : List (Transaction L) → Env L → ℤ
  withdrawals [] e = pos 0
  withdrawals (t ∷ ts) e = withdrawal t.op (begun t e) +ℤ withdrawals ts (execute t e)

  failed_withdrawal :
      (op : Op) (e : Env L) → succeeds (apply op e) ≡ false → withdrawal op e ≡ pos 0
  unfolding apply withdrawal
  failed_withdrawal (Op.withdraw amount) e h = ground arith
  failed_withdrawal (Op.initialize a b t r s n k) e h = refl
  failed_withdrawal Op.cancel e h = refl
  failed_withdrawal Op.force_cancel e h = refl
  failed_withdrawal Op.pause e h = refl
  failed_withdrawal Op.resume e h = refl
  failed_withdrawal Op.clawback e h = refl
  failed_withdrawal (Op.top_up amount) e h = refl
  failed_withdrawal (Op.extend_duration extra) e h = refl
  failed_withdrawal (Op.transfer_recipient to) e h = refl

  -- The counter of the stored stream moves by what was withdrawn.
  abbrev Counts : Env L → StreamInfo → ℤ → Type 0
  Counts e' info sent =
      (after : StreamInfo) × (e'.store.config ≡ some after)
      × (after.withdrawn ≡ info.withdrawn +ℤ sent)

  unchanged-Counts :
      (e' : Env L) (info after : StreamInfo)
      → e'.store.config ≡ some after
      → after.withdrawn ≡ info.withdrawn
      → Counts e' info (pos 0)
  unchanged-Counts e' info after c h = (after, c, plus_nothing info.withdrawn after.withdrawn h)

  pub apply-Counts :
      (op : Op) (e e' : Env L) (info : StreamInfo)
      → e.store.config ≡ some info
      → apply op e ≡ ok (tt, e')
      → Counts e' info (withdrawal op e)
  unfolding apply withdrawal
  apply-Counts (Op.initialize a b t r s n k) e e' info c h = cc (initialize_again e a b t r s n k c)
  apply-Counts (Op.withdraw amount) e e' info c h =
      let (sent, k) = discarded (withdraw amount) e e' h in
      let (_, w) = withdraw-Withdrawal e e' info amount sent c k in (_, w.stored, rw k refl)
  apply-Counts Op.cancel e e' info c h =
      let (_, _, _, _, s) = settle-Settled (bumped e) e' info c (cancel-settle e e' info c h).2 in
      unchanged-Counts e' info _ s.stored refl
  apply-Counts Op.force_cancel e e' info c h =
      let (_, _, _, _, s) =
        settle-Settled (bumped e) e' info c (force_cancel-settle e e' info c h).4 in
      unchanged-Counts e' info _ s.stored refl
  apply-Counts Op.pause e e' info c h =
      let (_, up) = pause-Updated e e' info c h in unchanged-Counts e' info _ up.stored refl
  apply-Counts Op.resume e e' info c h =
      let (_, _, up) = resume-Updated e e' info c h in unchanged-Counts e' info _ up.stored refl
  apply-Counts Op.clawback e e' info c h =
      let (amount, k) = discarded clawback e e' h in
      let (_, claw) = clawback-Clawed e e' info amount c k in
      unchanged-Counts e' info info claw.unchanged refl
  apply-Counts (Op.top_up amount) e e' info c h =
      let (_, d) = top_up-Deposited e e' info amount c h in
      unchanged-Counts e' info info d.stored refl
  apply-Counts (Op.extend_duration extra) e e' info c h =
      let (_, _, _, d) = extend_duration-Deposited e e' info extra c h in
      unchanged-Counts e' info _ d.stored refl
  apply-Counts (Op.transfer_recipient to) e e' info c h =
      let (_, _, stored, _) = transfer_recipient-ok e e' info to c h in
      unchanged-Counts e' info _ stored refl

  unchanged-Failed :
      (op : Op) (e : Env L) (info : StreamInfo)
      → e.store.config ≡ some info
      → succeeds (apply op e) ≡ false
      → Counts e info (withdrawal op e)
  unchanged-Failed op e info c h =
      rw (failed_withdrawal op e h) (unchanged-Counts e info info c refl)

  -- A call, whatever its outcome.
  committed-Counts :
      (op : Op) (e : Env L) (info : StreamInfo) (r : Outcome Error (Unit {0} × Env L))
      → apply op e ≡ r
      → e.store.config ≡ some info
      → Counts (committed (apply op) e) info (withdrawal op e)
  committed-Counts op e info (ok (u, e')) h c = rw (committed, h) (apply-Counts op e e' info c h)
  committed-Counts op e info (err x) h c =
      rw (committed, h) (unchanged-Failed op e info c (rw h refl))
  committed-Counts op e info (panic x) h c =
      rw (committed, h) (unchanged-Failed op e info c (rw h refl))
  committed-Counts op e info (trap x) h c =
      rw (committed, h) (unchanged-Failed op e info c (rw h refl))

  execute-Counts :
      (t : Transaction L) (e : Env L) (info : StreamInfo)
      → e.store.config ≡ some info
      → Counts (execute t e) info (withdrawal t.op (begun t e))
  unfolding execute
  execute-Counts t e info c = committed-Counts t.op (begun t e) info (apply t.op (begun t e)) refl c

  -- Over any history of calls on an initialized stream, by anybody, in any order and with any
  -- outcome, the counter `withdrawn` of the stored stream grows by exactly the sum of what the
  -- successful withdrawals sent.
  pub run_counts_withdrawals :
      (ts : List (Transaction L)) (e : Env L) (info : StreamInfo)
      → e.store.config ≡ some info
      → (after : StreamInfo) × ((run ts e).store.config ≡ some after)
        × (after.withdrawn ≡ info.withdrawn +ℤ withdrawals ts e)
  unfolding run withdrawals
  run_counts_withdrawals [] e info c = unchanged-Counts e info info c refl
  run_counts_withdrawals (t ∷ ts) e info c =
      let (mid, stored, first) = execute-Counts t e info c in
      let (after, last, rest) = run_counts_withdrawals ts (execute t e) mid stored in
      (
        after,
        last,
        rest
            ∙ rw first (
                +ℤ_assoc info.withdrawn (withdrawal t.op (begun t e))
                  (withdrawals ts (execute t e))),
      )
