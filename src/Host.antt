-- ===== src/Host.antt =====
-- What the contracts take from outside the repository: the token contract (the `token::Client` of
-- the SDK) and the host's rule for extending a time to live. Both are parameters, with the
-- documented behaviour that the contracts rely on as laws.
use conduit_contracts.Base.{
  ℕ, ◌≤◌, ◌<◌, ◌≡◌, ◌≢◌, true, Option, some, ℤ, pos, ◌+ℤ◌, ◌-ℤ◌, ◌≤ℤ◌, fits_i128,
}

-- Addresses are only compared.
abbrev pub Address : Type 0
Address = ℕ

-- `extend_ttl threshold to ttl` is the number of ledgers that an entry has left after
-- `extend_ttl(threshold, to)`, if it had `ttl` before.
pub record TtlRule : Type 0 where
  pub extend_ttl : ℕ → ℕ → ℕ → ℕ
  pub extend_ttl_short : (threshold to ttl : ℕ) → ttl < threshold → extend_ttl threshold to ttl ≡ to
  pub extend_ttl_long : (threshold to ttl : ℕ) → threshold ≤ ttl → extend_ttl threshold to ttl ≡ ttl

-- `L` is the state of all token contracts. `balance l t a` is what `a` holds of token `t`;
-- `transfer l t x y amount` is `none` where the token contract refuses.
pub record Host (L : Type 0) : Type 0 where
  pub ttl_rule : TtlRule
  pub open ttl_rule use *
  pub balance : L → Address → Address → ℤ
  pub transfer : L → Address → Address → Address → ℤ → Option L
  pub balance_range :
      (l : L) (t a : Address) → (pos 0 ≤ℤ balance l t a) × (fits_i128 (balance l t a) ≡ true)
  pub transfer_debits :
      (l : L) (t x y : Address) (amount : ℤ) (l' : L)
      → transfer l t x y amount ≡ some l'
      → x ≢ y
      → balance l' t x ≡ balance l t x -ℤ amount
  pub transfer_credits :
      (l : L) (t x y : Address) (amount : ℤ) (l' : L)
      → transfer l t x y amount ≡ some l'
      → x ≢ y
      → balance l' t y ≡ balance l t y +ℤ amount
  pub transfer_frames :
      (l : L) (t x y : Address) (amount : ℤ) (l' : L) (a : Address)
      → transfer l t x y amount ≡ some l'
      → a ≢ x
      → a ≢ y
      → balance l' t a ≡ balance l t a

-- What the token contracts keep beyond a single balance: they refuse a negative amount, and a
-- transfer of one token leaves every other token alone.
pub record TokenLaws (L : Type 0) ⦃host : Host L⦄ : Type 0 where
  pub transfer_nonneg :
      (l : L) (t x y : Address) (amount : ℤ) (l' : L)
      → host.transfer l t x y amount ≡ some l'
      → pos 0 ≤ℤ amount
  pub transfer_separate :
      (l : L) (t x y : Address) (amount : ℤ) (l' : L) (s a : Address)
      → host.transfer l t x y amount ≡ some l'
      → s ≢ t
      → host.balance l' s a ≡ host.balance l s a
