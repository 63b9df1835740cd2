-- ===== src/Chain/Payment.antt =====
-- From the solvency of a stream on the chain to a withdrawal that succeeds.
use conduit_contracts.Base.{
  ℕ, ◌+◌, ◌≤◌, ◌<◌, ◌≡◌, inl, inr, true, false, none, some, arith, ℤ, pos, ◌+ℤ◌, ◌≤ℤ◌, min_ℤ, ok,
  u64_limit, min_ℤ_bounds, List,
}
use conduit_contracts.Host.{Address, Host, TokenLaws}
use conduit_contracts.Stream.Storage.{
  StreamInfo, Event as StreamEvent, is_cancelled, is_clawback_enabled,
}
use conduit_contracts.Stream.State.{Env as StreamEnv}
use conduit_contracts.Stream.Math.{withdrawable_amount}
use conduit_contracts.Stream.Invariant.{IsValid, later-IsValid}
use conduit_contracts.Stream.Payments.{withdraw}
use conduit_contracts.Stream.EventLog.{counter}
use conduit_contracts.Stream.Claim.{withdraw_succeeds}
use conduit_contracts.Factory.Storage.{Env, Instance}
use conduit_contracts.Factory.Deploy.{Deployer}
use conduit_contracts.Chain.Steps.{Invocation, stream_env, Reach}
use conduit_contracts.Chain.Solvency.{Reach-Sound, Holds-IsValid, chain_stays_solvent}

lesser_of :
    (amount available held : ℤ)
    → pos 1 ≤ℤ amount
    → pos 1 ≤ℤ available
    → available ≤ℤ held
    → (pos 0 ≤ℤ min_ℤ amount available) × (min_ℤ amount available ≤ℤ held)
lesser_of amount available held asked positive enough =
    let bounds = min_ℤ_bounds amount available in (ground arith, ground arith)

module _ {L : Type 0} ⦃host : Host L⦄ where
  -- The token contract accepts every payment from `from` to `to` that `from` can cover.
  abbrev pub AcceptsCovered : L → Address → Address → Address → Type 0
  AcceptsCovered l token from to =
      (amount : ℤ)
      → pos 0 ≤ℤ amount
      → amount ≤ℤ host.balance l token from
      → (l' : L) × (host.transfer l token from to amount ≡ some l')

module _ {L : Type 0} ⦃host : Host L⦄ ⦃deployer : Deployer⦄ ⦃laws : TokenLaws L⦄ where
  stream-IsValid :
      {e e' : Env L} (a : Address) (s : Instance) (info : StreamInfo) (now : ℕ)
      → ((b : Address) → e.streams b ≡ none)
      → Reach e e'
      → e'.streams a ≡ some s
      → s.store.config ≡ some info
      → e'.now ≤ now
      → IsValid now info
  stream-IsValid {e' = e'} a s info now fresh r deployed stored later =
      later-IsValid e'.now now info later (
        Holds-IsValid e' a s info (Reach-Sound r (λ a' s' there. cc (fresh a', there)) a s deployed)
          stored)

  -- After any transactions on a chain that started without streams: on a bounded stream without the
  -- clawback flag that is not cancelled, a withdrawal of a positive amount that the recipient
  -- authorized succeeds whenever anything is available, if the token contract accepts what the
  -- stream's contract can cover and the event counter is not at its end. It sends the lesser of the
  -- amount and what is available.
  pub recipient_is_paid :
      {e e' : Env L} (a : Address) (s : Instance) (info : StreamInfo) (i : Invocation)
      (events : List StreamEvent) (amount available : ℤ)
      → ((b : Address) → e.streams b ≡ none)
      → Reach e e'
      → e'.streams a ≡ some s
      → s.store.config ≡ some info
      → 0 < info.end_time
      → is_clawback_enabled info ≡ false
      → is_cancelled info ≡ false
      → e'.now ≤ i.now
      → i.auth info.recipient ≡ true
      → withdrawable_amount i.now info ≡ ok available
      → pos 1 ≤ℤ available
      → pos 1 ≤ℤ amount
      → AcceptsCovered e'.ledger info.token a info.recipient
      → counter (stream_env e' a s i events) + 1 < u64_limit
      → (after : StreamEnv L) × (withdraw amount (stream_env e' a s i events)
          ≡ ok (min_ℤ amount available, after))
        × (host.transfer e'.ledger info.token a info.recipient (min_ℤ amount available)
            ≡ some after.ledger)
        × (after.store.config
            ≡ some (record info { withdrawn = info.withdrawn +ℤ min_ℤ amount available }))
  recipient_is_paid {e' = e'} a s info i events amount available fresh r deployed stored b u running
        later signed due positive asked accepts counts =
      let held : available ≤ℤ host.balance e'.ledger info.token a =
        elim (chain_stays_solvent a s info fresh r deployed stored b u) [
          | inl x ↦ cc (x, running)
          | inr (_, holds) ↦ holds i.now available later due
        ] in
      let (nonneg, covered) = lesser_of amount available _ asked positive held in
      let (ledger, accepted) = accepts (min_ℤ amount available) nonneg covered in
      let (_, (after, runs, ledger_is, stored')) =
        withdraw_succeeds (stream_env e' a s i events) info amount available ledger stored
          (stream-IsValid a s info i.now fresh r deployed stored later) running due positive asked
          signed accepted counts in
      (after, runs, rw ledger_is accepted, stored')
