-- ===== src/Stream/Balances.antt =====
-- What the payments of contracts/stream/src/lib.rs do to the token balances.
use conduit_contracts.Base.{
  ◌≡◌, ◌≢◌, ◌⊎◌, inl, inr, refl, some, arith, int_laws, ℤ, pos, ◌+ℤ◌, ◌-ℤ◌, ◌≤ℤ◌,
}
use conduit_contracts.Host.{Host, Address}
use conduit_contracts.Stream.Shares.{PaidOut}

pub sign_cases : (a : ℤ) → (pos 1 ≤ℤ a) ⊎ (a ≤ℤ pos 0)
sign_cases a = omega arith

module _ {L : Type 0} ⦃host : Host L⦄ where
  -- `from` pays `amount` to `to`, and nobody else's balance changes.
  pub record Moves (l l' : L) (token from to : Address) (amount : ℤ) : Type 0 where
    pub debit : host.balance l' token from ≡ host.balance l token from -ℤ amount
    pub credit : host.balance l' token to ≡ host.balance l token to +ℤ amount
    pub frame : (a : Address) → a ≢ from → a ≢ to → host.balance l' token a ≡ host.balance l token a

  pub transfer-Moves :
      (l l' : L) (token from to : Address) (amount : ℤ)
      → from ≢ to
      → host.transfer l token from to amount ≡ some l'
      → Moves l l' token from to amount
  transfer-Moves l l' token from to amount ne h = record {
    debit = host.transfer_debits l token from to amount l' h ne;
    credit = host.transfer_credits l token from to amount l' h ne;
    frame = λ a p q. host.transfer_frames l token from to amount l' a h p q;
  }

  pub PaidOut-Moves :
      (l l' : L) (token from to : Address) (amount : ℤ)
      → from ≢ to
      → pos 0 ≤ℤ amount
      → PaidOut l l' token from to amount
      → Moves l l' token from to amount
  PaidOut-Moves l l' token from to amount ne nonneg p = elim (sign_cases amount) [
    | inl positive ↦ transfer-Moves l l' token from to amount ne (p.when_positive positive)
    | inr zero ↦
        rw (p.when_not zero)
          (record { debit = omega int_laws; credit = omega int_laws; frame = λ a _ _. refl })
  ]
