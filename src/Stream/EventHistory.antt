-- ===== src/Stream/EventHistory.antt =====
-- The log that a consumer of the events of contracts/stream/src/events.rs sees.
use conduit_contracts.Base.{
  ℕ, zero, suc, ◌≡◌, inl, inr, refl, some, arith, List, [], ◌∷◌, committed_cases,
}
use conduit_contracts.Host.{Host}
use conduit_contracts.Stream.Storage.{StreamInfo}
use conduit_contracts.Stream.State.{Env}
use conduit_contracts.Stream.Run.{apply, Transaction, begun, execute, run, InOrder}
use conduit_contracts.Stream.Invariant.{IsValid}
use conduit_contracts.Stream.EventLog.{sequences, counter, apply_logs}
use conduit_contracts.Stream.History.{execute-Continues}

-- n, n - 1, …, 1: the latest event first.
abbrev pub countdown : ℕ → List ℕ
countdown zero = []
countdown (suc n) = suc n ∷ countdown n

module _ {L : Type 0} ⦃host : Host L⦄ where
  abbrev pub HasNoGap : Env L → Type 0
  HasNoGap e = sequences e.events ≡ countdown (counter e)

  execute-HasNoGap :
      (t : Transaction L) (e : Env L) (info : StreamInfo)
      → e.store.config ≡ some info
      → HasNoGap e
      → HasNoGap (execute t e)
  unfolding execute
  execute-HasNoGap t e info c n =
      elim (committed_cases (apply t.op) (begun t e) (apply t.op (begun t e)) refl) [
        | inl (e', h, same) ↦
            let l = apply_logs t.op (begun t e) e' info c h in
            rw (same, l.counted, l.published, n) (ground arith)
        | inr same ↦ rw same n
      ]

  -- Whatever calls are made on a valid stream whose events are numbered from 1 without a gap: they
  -- are numbered so afterwards, and the counter is the number of the latest.
  pub run-HasNoGap :
      (ts : List (Transaction L)) (e : Env L) (info : StreamInfo) (now : ℕ)
      → e.store.config ≡ some info
      → IsValid now info
      → InOrder now ts
      → HasNoGap e
      → HasNoGap (run ts e)
  unfolding run
  run-HasNoGap [] e info now c v o n = n
  run-HasNoGap (t ∷ ts) e info now c v o n =
      let (mid, stored, k) = execute-Continues t e info now c v o.0 in
      run-HasNoGap ts (execute t e) mid t.now stored k.valid o.1 (execute-HasNoGap t e info c n)
