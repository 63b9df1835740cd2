-- ===== src/Stream/Retention.antt =====
-- What a stream of contracts/stream/src/lib.rs has earned, over its calls and over their histories.
use mathlib.Core.Option.{some-injective}
use conduit_contracts.Base.{
  ℕ, ◌≤◌, ◌≡◌, inl, inr, refl, sym, ◌∙◌, some, arith, List, [], ◌∷◌, ℤ, ◌+ℤ◌, ◌≤ℤ◌, ok,
  committed_cases,
}
use conduit_contracts.Host.{Host}
use conduit_contracts.Stream.Storage.{StreamInfo, is_paused}
use conduit_contracts.Stream.State.{Env}
use conduit_contracts.Stream.Math.{streamed_amount, effective_now}
use conduit_contracts.Stream.Payments.{withdraw}
use conduit_contracts.Stream.Settlement.{clawback, settle}
use conduit_contracts.Stream.Invariant.{IsValid, later-IsValid}
use conduit_contracts.Stream.Run.{Op, apply, Transaction, begun, execute, run, InOrder}
use conduit_contracts.Stream.Preservation.{discarded}
use conduit_contracts.Stream.Creation.{initialize_again}
use conduit_contracts.Stream.Withdrawal.{withdraw-Withdrawal}
use conduit_contracts.Stream.Pausing.{pause-Updated, resume-Updated}
use conduit_contracts.Stream.Shares.{settle-Settled}
use conduit_contracts.Stream.Cancellation.{cancel-settle, force_cancel-settle, bumped}
use conduit_contracts.Stream.Clawback.{clawback-Clawed}
use conduit_contracts.Stream.Funding.{top_up-Deposited, extend_duration-Deposited}
use conduit_contracts.Stream.Handover.{transfer_recipient-ok}
use conduit_contracts.Stream.History.{finish, execute-Continues}
use conduit_contracts.Stream.Earnings.{
  time_run, NotOverrun, later-time_run, paused-time_run, resumed-time_run, extended-time_run,
  cancelled-time_run, streamed_amount-le,
}

module _ {L : Type 0} ⦃host : Host L⦄ where
  -- The stored stream has run no less at `later` than `info` had at `now`.
  abbrev pub RunsOn : Env L → ℕ → ℕ → StreamInfo → Type 0
  RunsOn e' now later info =
      (after : StreamInfo) × (e'.store.config ≡ some after)
      × (time_run now info ≤ time_run later after)

  same-RunsOn :
      (e' : Env L) (now : ℕ) (info after : StreamInfo)
      → e'.store.config ≡ some after
      → after.start_time ≡ info.start_time
      → after.end_time ≡ info.end_time
      → after.paused_at ≡ info.paused_at
      → after.flags ≡ info.flags
      → RunsOn e' now now info
  unfolding time_run effective_now is_paused
  same-RunsOn e' now info after c s n p f = (after, c, ground arith)

  settle-RunsOn :
      (e e' : Env L) (info : StreamInfo)
      → e.store.config ≡ some info
      → IsValid e.now info
      → settle info e ≡ ok (tt, e')
      → RunsOn e' e.now e.now info
  settle-RunsOn e e' info c v h =
      let (_, _, _, _, s) = settle-Settled e e' info c h in
      (_, s.stored, cancelled-time_run e.now info v)

  pub apply-RunsOn :
      (op : Op) (e e' : Env L) (info : StreamInfo)
      → e.store.config ≡ some info
      → IsValid e.now info
      → NotOverrun e.now info
      → apply op e ≡ ok (tt, e')
      → RunsOn e' e.now e.now info
  unfolding apply
  apply-RunsOn (Op.initialize a b t r s n k) e e' info c v o h =
      cc (initialize_again e a b t r s n k c)
  apply-RunsOn (Op.withdraw amount) e e' info c v o h =
      let (sent, k) = discarded (withdraw amount) e e' h in
      let (_, w) = withdraw-Withdrawal e e' info amount sent c k in
      same-RunsOn e' e.now info (record info { withdrawn = info.withdrawn +ℤ sent }) w.stored refl
        refl refl refl
  apply-RunsOn Op.cancel e e' info c v o h =
      settle-RunsOn (bumped e) e' info c v (cancel-settle e e' info c h).2
  apply-RunsOn Op.force_cancel e e' info c v o h =
      settle-RunsOn (bumped e) e' info c v (force_cancel-settle e e' info c h).4
  apply-RunsOn Op.pause e e' info c v o h =
      let (_, up) = pause-Updated e e' info c h in (_, up.stored, paused-time_run e.now info v)
  apply-RunsOn Op.resume e e' info c v o h =
      let (p, _, up) = resume-Updated e e' info c h in
      (_, up.stored, resumed-time_run e.now info v p o)
  apply-RunsOn Op.clawback e e' info c v o h =
      let (amount, k) = discarded clawback e e' h in
      let (_, claw) = clawback-Clawed e e' info amount c k in
      same-RunsOn e' e.now info info claw.unchanged refl refl refl refl
  apply-RunsOn (Op.top_up amount) e e' info c v o h =
      let (_, d) = top_up-Deposited e e' info amount c h in
      same-RunsOn e' e.now info info d.stored refl refl refl refl
  apply-RunsOn (Op.extend_duration extra) e e' info c v o h =
      let (_, b, _, d) = extend_duration-Deposited e e' info extra c h in
      (_, d.stored, extended-time_run e.now extra info b v o)
  apply-RunsOn (Op.transfer_recipient to) e e' info c v o h =
      let (_, _, stored, _) = transfer_recipient-ok e e' info to c h in
      same-RunsOn e' e.now info (record info { recipient = to }) stored refl refl refl refl

  execute-RunsOn :
      (t : Transaction L) (e : Env L) (info : StreamInfo)
      → e.store.config ≡ some info
      → IsValid t.now info
      → NotOverrun t.now info
      → RunsOn (execute t e) t.now t.now info
  unfolding execute
  execute-RunsOn t e info c v o =
      elim (committed_cases (apply t.op) (begun t e) (apply t.op (begun t e)) refl) [
        | inl (e', h, same) ↦ rw same (apply-RunsOn t.op (begun t e) e' info c v o h)
        | inr same ↦ rw same (info, c, omega arith)
      ]

  -- At no call is the stored stream paused before its end and past its end.
  abbrev pub NeverOverrun : List (Transaction L) → Env L → Type 0
  NeverOverrun [] e = Unit
  NeverOverrun (t ∷ ts) e =
      ((info : StreamInfo) → e.store.config ≡ some info → NotOverrun t.now info)
      × NeverOverrun ts (execute t e)

  pub run-RunsOn :
      (ts : List (Transaction L)) (e : Env L) (info : StreamInfo) (now later : ℕ)
      → e.store.config ≡ some info
      → IsValid now info
      → InOrder now ts
      → NeverOverrun ts e
      → finish now ts ≤ later
      → (after : StreamInfo) × ((run ts e).store.config ≡ some after)
        × (after.rate_per_second ≡ info.rate_per_second)
        × (time_run now info ≤ time_run later after)
  unfolding run
  run-RunsOn [] e info now later c v o n le = (info, c, refl, later-time_run now later info le v)
  run-RunsOn (t ∷ ts) e info now later c v o n le =
      let v' = later-IsValid now t.now info o.0 v in
      let (mid, stored, k) = execute-Continues t e info now c v o.0 in
      let (again, stored', first) = execute-RunsOn t e info c v' (n.0 info c) in
      let same = some-injective again mid (sym stored' ∙ stored) in
      let (after, last, rate, rest) =
        run-RunsOn ts (execute t e) mid t.now later stored k.valid o.1 n.1 le in
      (
        after,
        last,
        rate ∙ k.same_rate,
        omega (arith, later-time_run now t.now info o.0 v, rw same at first, rest),
      )

  -- Whatever calls are made on a valid stream, by anybody, in the order of time and with any outcome:
  -- if at none of them the stream is both past its end and paused since before its end, then at
  -- every later time what has streamed, where it can be computed, is no less than what had streamed
  -- at the beginning. So no pause, resumption, extension or cancellation takes away what was earned.
  pub run_keeps_earned :
      (ts : List (Transaction L)) (e : Env L) (info : StreamInfo) (streamed : ℤ)
      → e.store.config ≡ some info
      → IsValid e.now info
      → InOrder e.now ts
      → NeverOverrun ts e
      → streamed_amount e.now info ≡ ok streamed
      → (after : StreamInfo) × ((run ts e).store.config ≡ some after)
        × ((later : ℕ) (streamed_later : ℤ)
            → finish e.now ts ≤ later
            → streamed_amount later after ≡ ok streamed_later
            → streamed ≤ℤ streamed_later)
  run_keeps_earned ts e info streamed c v o n h =
      let (after, stored, rate, _) =
        run-RunsOn ts e info e.now (finish e.now ts) c v o n (omega arith) in
      (
        after,
        stored,
        λ later streamed_later le h'.
            let (again, stored', _, longer) = run-RunsOn ts e info e.now later c v o n le in
            let same = some-injective again after (sym stored' ∙ stored) in
            streamed_amount-le e.now later info after (omega (arith, v)) rate (rw same at longer) h
              h',
      )
