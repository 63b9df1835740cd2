-- ===== src/Factory/Solvency.antt =====
-- From `create_stream` of contracts/factory/src/lib.rs to the calls of contracts/stream/src/lib.rs
-- on the contract that it deployed.
use mathlib.Core.Option
use conduit_contracts.Base.{
  ℕ, ◌≤◌, ◌<◌, ◌≡◌, ◌≢◌, ◌⊎◌, sym, refl, subst, ◌∙◌, ap, true, false, some, arith, int_laws, List,
  ℤ, pos, ◌+ℤ◌, ◌≤ℤ◌, ok,
}
use conduit_contracts.Host.{Address, Host}
use conduit_contracts.Stream.Storage.{StreamInfo, is_cancelled, is_clawback_enabled}
use conduit_contracts.Stream.State.{Env as StreamEnv}
use conduit_contracts.Stream.Math.{withdrawable_amount}
use conduit_contracts.Stream.Invariant.{IsValid, contract_value}
use conduit_contracts.Stream.Run.{Transaction, run, InOrder}
use conduit_contracts.Stream.History.{finish}
use conduit_contracts.Stream.Solvency.{Covers, held}
use conduit_contracts.Stream.Escrow.{Undrained, run_stays_solvent}
use conduit_contracts.Factory.Storage.{Env, Instance, at}
use conduit_contracts.Factory.Deploy.{Deployer, InitArgs}
use conduit_contracts.Factory.Creation.{create_stream}
use conduit_contracts.Factory.Opening.{stream_info_of}
use conduit_contracts.Factory.Escrow.{create_stream_escrows}

enough : (v d b : ℤ) → v ≤ℤ d → pos 0 ≤ℤ b → v ≤ℤ pos 0 +ℤ (b +ℤ d)
enough v d b le nonneg = omega int_laws

-- Without the argument the flag is not set.
initial_flags :
    (args : InitArgs) → args.clawback ≡ false → is_clawback_enabled (stream_info_of args) ≡ false
unfolding is_clawback_enabled
initial_flags args h = rw h refl

module _ {L : Type 0} ⦃host : Host L⦄ where
  -- `s` is the environment in which the contract at `address` next runs, in the state `e`.
  pub record StandsAt (e : Env L) (address : Address) (s : StreamEnv L) : Type 0 where
    pub code : ℕ
    pub deployed : e.streams address ≡ some (record { code = code; store = s.store })
    pub same_self : s.self ≡ address
    pub same_ledger : s.ledger ≡ e.ledger

  -- What was just put at `address` is what stands there.
  placed :
      (e : Env L) (address : Address) (s : StreamEnv L) (streams : Address → Option.Option Instance)
      (i : Instance)
      → e.streams ≡ at streams address (some i)
      → StandsAt e address s
      → s.store ≡ i.store
  placed e address s streams i h stands = ground arith

module _ {L : Type 0} ⦃host : Host L⦄ ⦃deployer : Deployer⦄ where
  -- What a bounded stream starts with.
  pub created_funded :
      (e e' : Env L) (args : InitArgs) (deposit : ℤ) (id : ℕ)
      → args.sender ≢ e.self
      → args.sender ≢ deployer.address_of e.self id
      → create_stream args deposit e ≡ ok (id, e')
      → 0 < args.end_time
      → pos (contract_value (stream_info_of args))
        ≤ℤ pos 0 +ℤ host.balance e'.ledger args.token (deployer.address_of e.self id)
  created_funded e e' args deposit id sf ss h bounded =
      let (_, _, _, _, _, _, escrowed, _, worth) =
        create_stream_escrows e e' args deposit id sf ss h in
      let stream = deployer.address_of e.self id in
      rw escrowed.stream_holds (
        enough (pos (contract_value (stream_info_of args))) deposit
          (host.balance e.ledger args.token stream) (worth bounded)
          ((host.balance_range e.ledger args.token stream).0))

  -- What a bounded stream without the clawback flag starts with.
  created-Covers :
      (e e' : Env L) (args : InitArgs) (deposit : ℤ) (id : ℕ) (s : StreamEnv L)
      → args.sender ≢ e.self
      → args.sender ≢ deployer.address_of e.self id
      → 0 < args.end_time
      → args.clawback ≡ false
      → create_stream args deposit e ≡ ok (id, e')
      → StandsAt e' (deployer.address_of e.self id) s
      → (s.store.config ≡ some (stream_info_of args))
        × IsValid e.now (stream_info_of args)
        × Covers s (stream_info_of args)
  created-Covers e e' args deposit id s sf ss bounded unclawed h stands =
      let (g, code, mid, store, _, opens, _, valid, _) =
        create_stream_escrows e e' args deposit id sf ss h in
      let stream = deployer.address_of e.self id in
      (
        ap (λ x. x.config)
              (placed e' stream s e.streams (record { code = code; store = store }) opens.deployed
                stands)
            ∙ opens.configured,
        valid,
        record {
          is_bounded = bounded;
          unclawable = initial_flags args unclawed;
          covered =
              subst (λ x. pos (contract_value (stream_info_of args)) ≤ℤ pos 0 +ℤ x)
                (sym (
                  ap (λ l. host.balance l args.token s.self) stands.same_ledger
                  ∙ ap (host.balance e'.ledger args.token) stands.same_self))
                (created_funded e e' args deposit id sf ss h bounded);
        },
      )

  -- A bounded stream without the clawback flag that the factory created for a sender who is neither
  -- the factory nor the new contract, over any calls made on it by anybody but itself in the order of
  -- time, where nobody else takes its tokens: unless it was cancelled, it holds at least what the
  -- whole stream is worth less what was withdrawn, so at every later time it holds what the recipient
  -- may then withdraw.
  pub created_stays_solvent :
      (e e' : Env L) (args : InitArgs) (deposit : ℤ) (id : ℕ) (s : StreamEnv L)
      (ts : List (Transaction L))
      → args.sender ≢ e.self
      → args.sender ≢ deployer.address_of e.self id
      → 0 < args.end_time
      → args.clawback ≡ false
      → create_stream args deposit e ≡ ok (id, e')
      → StandsAt e' (deployer.address_of e.self id) s
      → s.now ≡ e.now
      → InOrder e.now ts
      → Undrained ts s args.token
      → (after : StreamInfo) × ((run ts s).store.config ≡ some after)
        × ((is_cancelled after ≡ true)
            ⊎ ((pos (contract_value after) ≤ℤ after.withdrawn +ℤ held (run ts s) after)
                × ((now : ℕ) (available : ℤ)
                    → finish e.now ts ≤ now
                    → withdrawable_amount now after ≡ ok available
                    → available ≤ℤ held (run ts s) after)))
  created_stays_solvent e e' args deposit id s ts sf ss bounded unclawed h stands now o u =
      let (stored, valid, covers) =
        created-Covers e e' args deposit id s sf ss bounded unclawed h stands in
      rw (sym now)
        (run_stays_solvent ts s (stream_info_of args) stored (rw now valid) (rw now o) u covers)
