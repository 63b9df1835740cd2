-- ===== src/Stream/Creation.antt =====
-- `initialize` of contracts/stream/src/lib.rs: what it accepts, and the state that it creates.
use conduit_contracts.Base.{
  ℕ, ◌≤◌, ◌<◌, ◌≡◌, ◌⊎◌, refl, Bool, true, false, some, none, arith, ℤ, pos, ◌≤ℤ◌, ok, panic,
  committed,
}
use conduit_contracts.Host.{Host, Address}
use conduit_contracts.Stream.Storage.{
  StreamInfo, already_initialized, invalid_amount, invalid_time_range, is_paused, is_cancelled,
  is_clawback_enabled,
}
use conduit_contracts.Stream.State.{Env}
use conduit_contracts.Stream.Setup.{initialize, initial_info}
use conduit_contracts.Stream.Invariant.{IsValid}

-- An end that is given is after the start.
abbrev pub IsRange : ℕ → ℕ → Type 0
IsRange start end = (end ≡ 0) ⊎ (start < end)

pub initial_info-IsValid :
    (now : ℕ) (sender recipient token : Address) (rate : ℤ) (start end : ℕ) (claw : Bool)
    → pos 1 ≤ℤ rate
    → IsRange start end
    → IsValid now (initial_info sender recipient token rate start end claw)
unfolding is_paused
initial_info-IsValid now sender recipient token rate start end true r b = ground arith
initial_info-IsValid now sender recipient token rate start end false r b = ground arith

initial_info-flags :
    (sender recipient token : Address) (rate : ℤ) (start end : ℕ) (claw : Bool)
    → let info = initial_info sender recipient token rate start end claw in
      (is_paused info ≡ false) × (is_cancelled info ≡ false) × (is_clawback_enabled info ≡ claw)
unfolding is_paused is_cancelled is_clawback_enabled
initial_info-flags sender recipient token rate start end true = (refl, refl, refl)
initial_info-flags sender recipient token rate start end false = (refl, refl, refl)

module _ {L : Type 0} ⦃host : Host L⦄ (e : Env L) (sender recipient token : Address) (rate : ℤ)
    (start end : ℕ) (claw : Bool) where
  pub initialize_again :
      {info : StreamInfo}
      → e.store.config ≡ some info
      → initialize sender recipient token rate start end claw e ≡ panic already_initialized
  unfolding initialize
  initialize_again c = ground arith

  abbrev pub initial : StreamInfo
  initial = initial_info sender recipient token rate start end claw

  -- On a fresh contract `initialize` refuses a rate that is not positive, refuses an end that is
  -- given and not after the start, and otherwise succeeds: it stores a valid stream that is
  -- neither paused nor cancelled, has the clawback flag as asked, has paid out nothing, and
  -- counts its events from 0. It moves no tokens. A second call on what it leaves is refused
  -- with `AlreadyInitialized`, whatever its arguments.
  pub initialize_branches :
      e.store.config ≡ none
      → (rate ≤ℤ pos 0
          → initialize sender recipient token rate start end claw e ≡ panic invalid_amount)
        × (pos 1 ≤ℤ rate
            → 0 < end
            → end ≤ start
            → initialize sender recipient token rate start end claw e ≡ panic invalid_time_range)
        × (pos 1 ≤ℤ rate
            → IsRange start end
            → (e' : Env L) × (initialize sender recipient token rate start end claw e ≡ ok (tt, e'))
              × (e'.store.config ≡ some initial)
              × (e'.store.event_sequence ≡ some 0)
              × (e'.ledger ≡ e.ledger)
              × IsValid e.now initial
              × (is_paused initial ≡ false)
              × (is_cancelled initial ≡ false)
              × (is_clawback_enabled initial ≡ claw)
              × ((sender' recipient' token' : Address) (rate' : ℤ) (start' end' : ℕ) (claw' : Bool)
                  → initialize sender' recipient' token' rate' start' end' claw' e'
                    ≡ panic already_initialized))
  unfolding initialize
  initialize_branches c = (
    λ r. ground arith,
    λ r p q. ground arith,
    λ r b. (
      committed (initialize sender recipient token rate start end claw) e,
      ground arith,
      ground arith,
      ground arith,
      ground arith,
      initial_info-IsValid e.now sender recipient token rate start end claw r b,
      (initial_info-flags sender recipient token rate start end claw).0,
      (initial_info-flags sender recipient token rate start end claw).1,
      (initial_info-flags sender recipient token rate start end claw).2,
      λ s' r' t' n' a' b' c'. ground arith,
    ),
  )
