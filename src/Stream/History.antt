-- ===== src/Stream/History.antt =====
-- Histories of a stream of contracts/stream/src/lib.rs: what holds after any sequence of calls.
use conduit_contracts.Base.{
  ℕ, ◌≤◌, ◌<◌, ◌≡◌, inl, inr, refl, some, pos, ◌≤ℤ◌, List, [], ◌∷◌, committed_cases,
}
use conduit_contracts.Host.{Host}
use conduit_contracts.Stream.Storage.{StreamInfo}
use conduit_contracts.Stream.State.{Env}
use conduit_contracts.Stream.Run.{apply, Transaction, begun, execute, run, InOrder}
use conduit_contracts.Stream.Invariant.{IsValid, contract_value, later-IsValid}
use conduit_contracts.Stream.Preservation.{
  Continues, apply-Continues, Stored, unchanged-Continues, Continues-trans,
}

module _ {L : Type 0} ⦃host : Host L⦄ where
  -- The time of the last call.
  abbrev pub finish : ℕ → List (Transaction L) → ℕ
  finish now [] = now
  finish now (t ∷ ts) = finish t.now ts

  pub execute-Continues :
      (t : Transaction L) (e : Env L) (info : StreamInfo) (now : ℕ)
      → e.store.config ≡ some info
      → IsValid now info
      → now ≤ t.now
      → Stored (execute t e) t.now info
  unfolding execute
  execute-Continues t e info now c v le =
      let v' = later-IsValid now t.now info le v in
      elim (committed_cases (apply t.op) (begun t e) (apply t.op (begun t e)) refl) [
        | inl (e', h, same) ↦ rw same (apply-Continues t.op (begun t e) e' info c v' h)
        | inr same ↦ rw same (info, c, unchanged-Continues t.now info v')
      ]

  pub run-Continues :
      (ts : List (Transaction L)) (e : Env L) (info : StreamInfo) (now : ℕ)
      → e.store.config ≡ some info
      → IsValid now info
      → InOrder now ts
      → Stored (run ts e) (finish now ts) info
  unfolding run
  run-Continues [] e info now c v o = (info, c, unchanged-Continues now info v)
  run-Continues (t ∷ ts) e info now c v o =
      let (mid, stored, first) = execute-Continues t e info now c v o.0 in
      let (after, stored', rest) =
        run-Continues ts (execute t e) mid t.now stored first.valid o.1 in
      (after, stored', Continues-trans t.now (finish t.now ts) info mid after first rest)

  -- Whatever calls are made on a valid stream, by anybody, in any order and with any outcome, as
  -- long as time does not run backwards and whatever happens to the tokens in between: the stream
  -- stays valid, its sender, token and rate never change, the total withdrawn never shrinks, and
  -- on a bounded stream that total never passes the rate times the length of the stream.
  pub run_keeps_terms :
      (ts : List (Transaction L)) (e : Env L) (info : StreamInfo)
      → e.store.config ≡ some info
      → IsValid e.now info
      → InOrder e.now ts
      → (after : StreamInfo) × ((run ts e).store.config ≡ some after)
        × Continues (finish e.now ts) info after
        × (0 < after.end_time → after.withdrawn ≤ℤ pos (contract_value after))
  run_keeps_terms ts e info c v o =
      let (after, stored, k) = run-Continues ts e info e.now c v o in
      (after, stored, k, k.valid.within_value)
