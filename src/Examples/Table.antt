-- ===== src/Examples/Table.antt =====
-- Token contracts as a table of balances, and a host over it: an instance of what the contracts
-- take from outside the repository.
use native.Mathlib.Nat.{mod-lt, mod-eq_of_lt}
use conduit_contracts.Base.{
  ℕ, ◌+◌, ◌-◌, ◌%◌, ◌≤◌, ◌<◌, ◌≡◌, ◌≢◌, refl, Bool, true, ◌&&◌, Option, some, none, arith, ltb, leb,
  ◌==◌, if◌then◌else◌, ℤ, pos, pos_part, ◌+ℤ◌, ◌-ℤ◌, ◌≤ℤ◌, leb_ℤ, fits_i128, i128_limit, ==-refl,
  ==-false, sym,
}
use conduit_contracts.Host.{Address, TtlRule, Host, TokenLaws}

-- Balances by token and by account; a balance is what the entry is below 2^127.
abbrev pub Table : Type 0
Table = Address → Address → ℕ

abbrev pub holding : Table → Address → Address → ℕ
holding l t a = l t a % i128_limit

abbrev moved : Table → Address → Address → Address → ℕ → Table
moved l t x y n s a =
    if s == t
    then (if a == x then holding l t x - n else if a == y then holding l t y + n else l s a)
    else l s a

abbrev can_move : Table → Address → Address → Address → ℤ → Bool
can_move l t x y amount =
    leb_ℤ (pos 0) amount
    && leb (pos_part amount) (holding l t x)
    && ltb (holding l t y + pos_part amount) i128_limit

abbrev pub move : Table → Address → Address → Address → ℤ → Option Table
move l t x y amount =
    if can_move l t x y amount then some (moved l t x y (pos_part amount)) else none

abbrev pub table_balance : Table → Address → Address → ℤ
table_balance l t a = pos (holding l t a)

pub range :
    (l : Table) (t a : Address)
    → (pos 0 ≤ℤ table_balance l t a) × (fits_i128 (table_balance l t a) ≡ true)
range l t a = ground (arith, mod-lt (l t a) {m = i128_limit})

-- What the table holds below the limit is read back unchanged.
small : (n : ℕ) → n < i128_limit → n % i128_limit ≡ n
small n h = mod-eq_of_lt h

move-some :
    (l : Table) (t x y : Address) (amount : ℤ) (l' : Table)
    → move l t x y amount ≡ some l'
    → (can_move l t x y amount ≡ true) × (l' ≡ moved l t x y (pos_part amount))
move-some l t x y amount l' h = ground arith

moved-sender :
    (l : Table) (t x y : Address) (n : ℕ) → holding (moved l t x y n) t x ≡ holding l t x - n
moved-sender l t x y n =
    rw (==-refl t, ==-refl x)
      (small (holding l t x - n) (ground (arith, mod-lt (l t x) {m = i128_limit})))

moved-receiver :
    (l : Table) (t x y : Address) (n : ℕ)
    → x ≢ y
    → holding l t y + n < i128_limit
    → holding (moved l t x y n) t y ≡ holding l t y + n
moved-receiver l t x y n ne h =
    rw (==-refl t, ==-refl y, ==-false y x (λ e. ne (sym e))) (small (holding l t y + n) h)

pub debits :
    (l : Table) (t x y : Address) (amount : ℤ) (l' : Table)
    → move l t x y amount ≡ some l'
    → x ≢ y
    → table_balance l' t x ≡ table_balance l t x -ℤ amount
unfolding ◌-ℤ◌
debits l t x y amount l' h ne =
    let m = move-some l t x y amount l' h in
    let e = moved-sender l t x y (pos_part amount) in
    let r = mod-lt (l t x) {m = i128_limit} in rw (m.1, e) (ground arith)

pub credits :
    (l : Table) (t x y : Address) (amount : ℤ) (l' : Table)
    → move l t x y amount ≡ some l'
    → x ≢ y
    → table_balance l' t y ≡ table_balance l t y +ℤ amount
unfolding ◌+ℤ◌
credits l t x y amount l' h ne =
    let m = move-some l t x y amount l' h in
    let e = moved-receiver l t x y (pos_part amount) ne (ground arith) in rw (m.1, e) (ground arith)

pub frames :
    (l : Table) (t x y : Address) (amount : ℤ) (l' : Table) (a : Address)
    → move l t x y amount ≡ some l'
    → a ≢ x
    → a ≢ y
    → table_balance l' t a ≡ table_balance l t a
frames l t x y amount l' a h p q =
    let m = move-some l t x y amount l' h in
    rw (m.1, ==-refl t, ==-false a x p, ==-false a y q) (refl)

-- A payment that is covered is accepted, if the two accounts together hold less than the limit.
pub covered_move :
    (l : Table) (t x y : Address) (amount : ℤ)
    → holding l t x + holding l t y < i128_limit
    → pos 0 ≤ℤ amount
    → amount ≤ℤ table_balance l t x
    → (l' : Table) × (move l t x y amount ≡ some l')
covered_move l t x y amount room nonneg covered = (moved l t x y (pos_part amount), ground arith)

-- Time to live by the documented rule.
abbrev pub extend : ℕ → ℕ → ℕ → ℕ
extend threshold to ttl = if ltb ttl threshold then to else ttl

pub extend_short : (threshold to ttl : ℕ) → ttl < threshold → extend threshold to ttl ≡ to
extend_short threshold to ttl h = ground arith

pub extend_long : (threshold to ttl : ℕ) → threshold ≤ ttl → extend threshold to ttl ≡ ttl
extend_long threshold to ttl h = ground arith

instance abbrev pub plain_rule : TtlRule
plain_rule = record {
  extend_ttl = extend;
  extend_ttl_short = extend_short;
  extend_ttl_long = extend_long;
}

instance abbrev pub table_host : Host Table
table_host = record {
  ttl_rule = plain_rule;
  balance = table_balance;
  transfer = move;
  balance_range = range;
  transfer_debits = debits;
  transfer_credits = credits;
  transfer_frames = frames;
}

moved_apart :
    (l : Table) (t x y : Address) (n : ℕ) (s a : Address)
    → s ≢ t
    → table_balance (moved l t x y n) s a ≡ table_balance l s a
moved_apart l t x y n s a ne = rw (==-false s t ne) refl

pub nonneg :
    (l : Table) (t x y : Address) (amount : ℤ) (l' : Table)
    → move l t x y amount ≡ some l'
    → pos 0 ≤ℤ amount
nonneg l t x y amount l' h = ground (arith, (move-some l t x y amount l' h).0)

pub apart :
    (l : Table) (t x y : Address) (amount : ℤ) (l' : Table) (s a : Address)
    → move l t x y amount ≡ some l'
    → s ≢ t
    → table_balance l' s a ≡ table_balance l s a
apart l t x y amount l' s a h ne =
    rw (move-some l t x y amount l' h).1 (moved_apart l t x y (pos_part amount) s a ne)

instance abbrev pub table_laws : TokenLaws Table
table_laws = record { transfer_nonneg = nonneg; transfer_separate = apart }
