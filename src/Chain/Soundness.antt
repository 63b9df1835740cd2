-- ===== src/Chain/Soundness.antt =====
-- What holds of every stream on the chain, and that a call of `create_stream` of
-- contracts/factory/src/lib.rs keeps it.
use native.Mathlib.Decide.{ℕ_discrete}
use conduit_contracts.Base.{
  Option, ℕ, ◌≤◌, ◌≡◌, ◌≢◌, ◌⊎◌, inl, inr, sym, ap, ◌∙◌, false, some, arith, ==-refl, ==-false,
}
use conduit_contracts.Host.{Address, Host}
use conduit_contracts.Stream.Storage.{StreamInfo}
use conduit_contracts.Stream.Invariant.{IsValid, later-IsValid}
use conduit_contracts.Stream.Sparing.{Spares}
use conduit_contracts.Factory.Storage.{Env, Instance, at}
use conduit_contracts.Factory.Deploy.{Deployer}
use conduit_contracts.Chain.Streams.{Guarded, spared-Guarded}

-- A change of one entry of a map of streams.
pub at_cases :
    {V : Type 0} (f : Address → Option V) (k : Address) (v : V) (a : Address) (s : V)
    → at f k (some v) a ≡ some s
    → ((a ≡ k) × (s ≡ v)) ⊎ ((a ≢ k) × (f a ≡ some s))
at_cases f k v a s h = elim (ℕ_discrete a k) [
  | yes here ↦ inl (here, ground (arith, here, ==-refl k))
  | no there ↦ inr (there, ground (arith, ==-false a k there))
]

module _ {L : Type 0} ⦃host : Host L⦄ ⦃deployer : Deployer⦄ where
  -- The contract at `a`: the factory gave it that address, and its stored stream is valid and
  -- guarded.
  pub record Holds (e : Env L) (a : Address) (s : Instance) : Type 0 where
    pub id : ℕ
    pub located : a ≡ deployer.address_of e.self id
    pub info : StreamInfo
    pub stored : s.store.config ≡ some info
    pub valid : IsValid e.now info
    pub guarded : Guarded e.ledger a info

  abbrev pub Sound : Env L → Type 0
  Sound e = (a : Address) (s : Instance) → e.streams a ≡ some s → Holds e a s

  pub kept-Holds :
      (e e' : Env L) (a : Address) (s : Instance)
      → e'.self ≡ e.self
      → e.now ≤ e'.now
      → Spares e.ledger e'.ledger a
      → Holds e a s
      → Holds e' a s
  kept-Holds e e' a s self_is later spared k = record {
    id = k.id;
    located = k.located ∙ ap (λ x. deployer.address_of x k.id) (sym self_is);
    info = k.info;
    stored = k.stored;
    valid = later-IsValid e.now e'.now k.info later k.valid;
    guarded = spared-Guarded e.ledger e'.ledger a k.info spared k.guarded;
  }

  -- What a call of the factory leaves as it was, and that every stream is still sound.
  pub record Advances (e e' : Env L) : Type 0 where
    pub same_self : e'.self ≡ e.self
    pub same_auth : e'.auth ≡ e.auth
    pub same_now : e'.now ≡ e.now
    pub sound : Sound e'

  abbrev pub Unsigned : Env L → Type 0
  Unsigned e = (e.auth e.self ≡ false) × ((id : ℕ) → e.auth (deployer.address_of e.self id) ≡ false)
