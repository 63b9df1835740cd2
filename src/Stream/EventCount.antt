-- ===== src/Stream/EventCount.antt =====
-- How many events of contracts/stream/src/events.rs a history of calls publishes.
use conduit_contracts.Base.{
  ℕ, ◌+◌, ◌≡◌, refl, some, arith, List, [], ◌∷◌, Outcome, ok, err, panic, trap, succeeds, committed,
  if◌then◌else◌,
}
use conduit_contracts.Host.{Host}
use conduit_contracts.Stream.Storage.{StreamInfo, Error}
use conduit_contracts.Stream.State.{Env}
use conduit_contracts.Stream.Run.{Op, apply, Transaction, begun, execute, run, InOrder}
use conduit_contracts.Stream.Invariant.{IsValid}
use conduit_contracts.Stream.EventLog.{sequences, counter, apply_logs}
use conduit_contracts.Stream.EventHistory.{countdown, HasNoGap, run-HasNoGap}
use conduit_contracts.Stream.History.{execute-Continues}

module _ {L : Type 0} ⦃host : Host L⦄ where
  abbrev one_if_success : Op → Env L → ℕ
  one_if_success op e = if succeeds (apply op e) then 1 else 0

  -- The calls of a history that succeed.
  unfoldable pub successes : List (Transaction L) → Env L → ℕ
  successes [] e = 0
  successes (t ∷ ts) e = one_if_success t.op (begun t e) + successes ts (execute t e)

  committed-counter :
      (op : Op) (e : Env L) (info : StreamInfo) (r : Outcome Error (Unit {0} × Env L))
      → apply op e ≡ r
      → e.store.config ≡ some info
      → counter (committed (apply op) e) ≡ counter e + one_if_success op e
  committed-counter op e info (ok (u, e')) h c =
      let l = apply_logs op e e' info c h in rw (committed, h, l.counted) refl
  committed-counter op e info (err x) h c = rw (committed, h) (omega arith)
  committed-counter op e info (panic x) h c = rw (committed, h) (omega arith)
  committed-counter op e info (trap x) h c = rw (committed, h) (omega arith)

  execute-counter :
      (t : Transaction L) (e : Env L) (info : StreamInfo)
      → e.store.config ≡ some info
      → counter (execute t e) ≡ counter e + one_if_success t.op (begun t e)
  unfolding execute
  execute-counter t e info c =
      committed-counter t.op (begun t e) info (apply t.op (begun t e)) refl c

  run-counter :
      (ts : List (Transaction L)) (e : Env L) (info : StreamInfo) (now : ℕ)
      → e.store.config ≡ some info
      → IsValid now info
      → InOrder now ts
      → counter (run ts e) ≡ counter e + successes ts e
  unfolding run successes
  run-counter [] e info now c v o = omega arith
  run-counter (t ∷ ts) e info now c v o =
      let (mid, stored, k) = execute-Continues t e info now c v o.0 in
      omega (
        arith,
        run-counter ts (execute t e) mid t.now stored k.valid o.1,
        execute-counter t e info c,
      )

  -- Whatever calls are made on a valid stream whose events are numbered from 1 without a gap, in
  -- the order of time: they are numbered so afterwards, the counter is the number of the latest, and
  -- as many events were published as calls succeeded.
  pub run_numbers_events :
      (ts : List (Transaction L)) (e : Env L) (info : StreamInfo)
      → e.store.config ≡ some info
      → IsValid e.now info
      → InOrder e.now ts
      → HasNoGap e
      → (sequences (run ts e).events ≡ countdown (counter (run ts e)))
        × (counter (run ts e) ≡ counter e + successes ts e)
  run_numbers_events ts e info c v o n =
      (run-HasNoGap ts e info e.now c v o n, run-counter ts e info e.now c v o)
