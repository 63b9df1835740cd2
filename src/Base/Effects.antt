-- ===== src/Base/Effects.antt =====
-- The outcome of a contract call, and calls as actions on a state. A call that does not succeed
-- has no state of its own: the host discards what it wrote and every event that it published.
use mathlib.Core.Path.{◌≡◌}
use mathlib.Core.Logic.{◌⊎◌, inl, inr}
use native.Mathlib.Omega.{arith}
use mathlib.Core.Bool.{Bool, true, false}
use mathlib.Core.Option.{Option, none, some}

-- Why the host stopped a call: a failed `require_auth`, an overflow of plain arithmetic, `unwrap`
-- of a missing storage entry, a token contract that refused, or a failed call or deployment.
pub data Trap : Type 0 where
  unauthorized overflow missing_entry token_failed call_failed : Trap

-- `err` is a returned `Err`, `panic` is `panic_with_error!`.
pub data Outcome (E A : Type 0) : Type 0 where
  ok : A → Outcome E A
  err : E → Outcome E A
  panic : E → Outcome E A
  trap : Trap → Outcome E A

abbrev pub Action : Type 0 → Type 0 → Type 0 → Type 0
Action S E A = S → Outcome E (A × S)

module _ {S E : Type 0} where
  abbrev pub pure : {A : Type 0} → A → Action S E A
  pure a s = ok (a, s)

  abbrev pub gets : {A : Type 0} → (S → A) → Action S E A
  gets f s = ok (f s, s)

  abbrev pub modify : (S → S) → Action S E (Unit {0})
  modify f s = ok (tt, f s)

  abbrev pub fail_if : Bool → E → Action S E (Unit {0})
  fail_if true e s = err e
  fail_if false e s = ok (tt, s)

  abbrev pub panic_if : Bool → E → Action S E (Unit {0})
  panic_if true e s = panic e
  panic_if false e s = ok (tt, s)

  abbrev pub trap_unless : Bool → Trap → Action S E (Unit {0})
  trap_unless true t s = ok (tt, s)
  trap_unless false t s = trap t

  -- `o.ok_or(e)?`
  abbrev pub ok_or : {A : Type 0} → Option A → E → Action S E A
  ok_or (some a) e s = ok (a, s)
  ok_or none e s = err e

  abbrev pub or_trap : {A : Type 0} → Option A → Trap → Action S E A
  or_trap (some a) t s = ok (a, s)
  or_trap none t s = trap t

-- `r?` on a result that needs no state.
abbrev pub lift : {S E A : Type 0} → Outcome E A → Action S E A
lift (ok a) s = ok (a, s)
lift (err e) s = err e
lift (panic e) s = panic e
lift (trap t) s = trap t

infixl 5 ◌>>=◌ ◌>>◌
abbrev pub ◌>>=◌ : {S E A B : Type 0} → Action S E A → (A → Action S E B) → Action S E B
◌>>=◌ m f s = elim (m s) [
  | ok (a, s') ↦ f a s'
  | err e ↦ err e
  | panic e ↦ panic e
  | trap t ↦ trap t
]

abbrev pub ◌>>◌ : {S E B : Type 0} → Action S E (Unit {0}) → Action S E B → Action S E B
m >> k = m >>= λ _. k

-- What the host keeps of a call: the new state if it succeeded, the old one if not.
abbrev pub committed : {S E A : Type 0} → Action S E A → S → S
committed m s = elim (m s) [ ok (a, s') ↦ s' | err e ↦ s | panic e ↦ s | trap t ↦ s ]

-- Whether a call went through.
abbrev pub succeeds : {E A : Type 0} → Outcome E A → Bool
succeeds (ok r) = true
succeeds (err e) = false
succeeds (panic e) = false
succeeds (trap t) = false

-- A call either succeeds with a new state, or leaves the state as it was.
pub committed_cases :
    {S E : Type 0} (m : Action S E (Unit {0})) (s : S) (r : Outcome E (Unit {0} × S))
    → m s ≡ r
    → ((s' : S) × (m s ≡ ok (tt, s')) × (committed m s ≡ s')) ⊎ (committed m s ≡ s)
committed_cases m s (ok (u, s')) h = inl (s', h, ground arith)
committed_cases m s (err x) h = inr (ground arith)
committed_cases m s (panic x) h = inr (ground arith)
committed_cases m s (trap x) h = inr (ground arith)

-- The two steps of a sequence that succeeds.
pub >>=-ok :
    {S E A B : Type 0} (m : Action S E A) (f : A → Action S E B) (s : S) (b : B) (s' : S)
    (r : Outcome E (A × S))
    → m s ≡ r
    → (m >>= f) s ≡ ok (b, s')
    → (a : A) × (mid : S) × (m s ≡ ok (a, mid)) × (f a mid ≡ ok (b, s'))
>>=-ok m f s b s' (ok (a, mid)) e h = (a, mid, e, ground arith)
>>=-ok m f s b s' (err x) e h = ground arith
>>=-ok m f s b s' (panic x) e h = ground arith
>>=-ok m f s b s' (trap x) e h = ground arith
