-- ===== src/Stream/Flags.antt =====
-- The flag operations of contracts/stream/src (`|=` and `&= !`), on the flag words that the
-- contract itself writes: the three lowest bits.
use Prim.Native.Nat.{bit_and, bit_or}
use conduit_contracts.Base.{
  ℕ, ◌-◌, ◌<◌, ◌≡◌, refl, Bool, true, false, not, ◌&&◌, ◌⊎◌, arith, ltb, ◌==◌, u32_limit,
}
use conduit_contracts.Stream.Storage.{flag_paused, flag_clawback_enabled, flag_cancelled}

abbrev pub flag_limit : ℕ
flag_limit = 8

abbrev pub test : ℕ → ℕ → Bool
test flags bit = not (bit_and flags bit == 0)

abbrev same : Bool → Bool → Bool
same true b = b
same false b = not b

-- A test of the eight flag words.
abbrev every_word : (ℕ → Bool) → Bool
every_word p = p 0 && p 1 && p 2 && p 3 && p 4 && p 5 && p 6 && p 7

word_cases :
    (x : ℕ)
    → x < flag_limit
    → (x ≡ 0) ⊎ (x ≡ 1) ⊎ (x ≡ 2) ⊎ (x ≡ 3) ⊎ (x ≡ 4) ⊎ (x ≡ 5) ⊎ (x ≡ 6) ⊎ (x ≡ 7)
word_cases x lt = omega arith

every_word_lem : (p : ℕ → Bool) (x : ℕ) → every_word p ≡ true → x < flag_limit → p x ≡ true
every_word_lem p x all lt = ground (arith, word_cases x lt)

-- `flags |= bit` sets `bit`, keeps `other`, and stays in range.
abbrev sets : ℕ → ℕ → ℕ → Bool
sets bit other x =
    test (bit_or x bit) bit
    && same (test (bit_or x bit) other) (test x other)
    && ltb (bit_or x bit) flag_limit

-- `flags &= !bit` clears `bit`, keeps `other`, and stays in range.
abbrev clears : ℕ → ℕ → ℕ → Bool
clears bit other x =
    not (test (bit_and x (u32_limit - 1 - bit)) bit)
    && same (test (bit_and x (u32_limit - 1 - bit)) other) (test x other)
    && ltb (bit_and x (u32_limit - 1 - bit)) flag_limit

pub record WasSet (bit other x y : ℕ) : Type 0 where
  pub now_set : test y bit ≡ true
  pub kept : test y other ≡ test x other
  pub in_range : y < flag_limit

pub record WasCleared (bit other x y : ℕ) : Type 0 where
  pub now_clear : test y bit ≡ false
  pub kept : test y other ≡ test x other
  pub in_range : y < flag_limit

pub set_paused_cancelled :
    (x : ℕ) → x < flag_limit → WasSet flag_paused flag_cancelled x (bit_or x flag_paused)
set_paused_cancelled x h = ground (arith, every_word_lem (sets flag_paused flag_cancelled) x refl h)

pub set_paused_clawback :
    (x : ℕ) → x < flag_limit → WasSet flag_paused flag_clawback_enabled x (bit_or x flag_paused)
set_paused_clawback x h =
    ground (arith, every_word_lem (sets flag_paused flag_clawback_enabled) x refl h)

pub set_cancelled_paused :
    (x : ℕ) → x < flag_limit → WasSet flag_cancelled flag_paused x (bit_or x flag_cancelled)
set_cancelled_paused x h = ground (arith, every_word_lem (sets flag_cancelled flag_paused) x refl h)

pub clear_paused_cancelled :
    (x : ℕ)
    → x < flag_limit
    → WasCleared flag_paused flag_cancelled x (bit_and x (u32_limit - 1 - flag_paused))
clear_paused_cancelled x h =
    ground (arith, every_word_lem (clears flag_paused flag_cancelled) x refl h)

pub clear_paused_clawback :
    (x : ℕ)
    → x < flag_limit
    → WasCleared flag_paused flag_clawback_enabled x (bit_and x (u32_limit - 1 - flag_paused))
clear_paused_clawback x h =
    ground (arith, every_word_lem (clears flag_paused flag_clawback_enabled) x refl h)
