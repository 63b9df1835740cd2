-- ===== src/Base/Words.antt =====
-- The machine integers of the source: `i128` as an integer with its range tested, `u64` and `u32`
-- as numbers. A checked operation gives `none` out of range.
use Prim.Native.Nat.{ℕ, ◌+◌, ◌-◌, ◌^◌}
use mathlib.Core.Bool.{Bool}
use mathlib.Core.Option.{Option, none, some}
use conduit_contracts.Base.Tests.{ltb, leb, if◌then◌else◌}
use conduit_contracts.Base.Int.{ℤ, pos, negsuc, ◌+ℤ◌, ◌-ℤ◌, ◌*ℤ◌, ltb_ℤ}

abbrev pub u64_limit : ℕ
u64_limit = 2 ^ 64

abbrev pub u32_limit : ℕ
u32_limit = 2 ^ 32

-- `i128` holds -2^127 up to 2^127 - 1.
abbrev pub i128_limit : ℕ
i128_limit = 2 ^ 127

abbrev pub fits_i128 : ℤ → Bool
fits_i128 (pos n) = ltb n i128_limit
fits_i128 (negsuc n) = ltb n i128_limit

abbrev pub in_i128 : ℤ → Option ℤ
in_i128 z = if fits_i128 z then some z else none

abbrev pub in_u64 : ℕ → Option ℕ
in_u64 n = if ltb n u64_limit then some n else none

-- `checked_add`, `checked_sub` and `checked_mul` of `i128`; a plain `+` or `-` traps where these
-- give `none`, since the release profile has `overflow-checks`.
unfoldable pub checked_add : ℤ → ℤ → Option ℤ
checked_add a b = in_i128 (a +ℤ b)

unfoldable pub checked_sub : ℤ → ℤ → Option ℤ
checked_sub a b = in_i128 (a -ℤ b)

unfoldable pub checked_mul : ℤ → ℤ → Option ℤ
checked_mul a b = in_i128 (a *ℤ b)

-- `i128::saturating_sub`.
unfoldable pub saturating_sub : ℤ → ℤ → ℤ
saturating_sub a b =
    let z = a -ℤ b in
    if fits_i128 z
    then z
    else if ltb_ℤ z (pos 0)
    then negsuc (i128_limit - 1)
    else pos (i128_limit - 1)

-- `checked_sub` and `checked_add` of `u64`.
unfoldable pub checked_sub_u64 : ℕ → ℕ → Option ℕ
checked_sub_u64 a b = if leb b a then some (a - b) else none

unfoldable pub checked_add_u64 : ℕ → ℕ → Option ℕ
checked_add_u64 a b = in_u64 (a + b)
