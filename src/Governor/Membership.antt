-- ===== src/Governor/Membership.antt =====
-- The set of role keys of contracts/governor/src/role.rs: membership after an insertion or a
-- removal, and the number of admins in it.
use conduit_contracts.Base.{
  ℕ, suc, ◌≤◌, ◌<◌, ◌≡◌, ◌≢◌, refl, true, false, ◌||◌, not, ◌&&◌, arith, if◌then◌else◌, List, [],
  ◌∷◌, Bool-cases, inl, inr,
}
use conduit_contracts.Host.{Address}
use conduit_contracts.Governor.Storage.{
  Role, admin, fee_manager, rate_manager, RoleKey, same_role, same_key, has_key, insert_key,
  remove_key,
}
use conduit_contracts.Governor.Role.{key}

-- How many accounts hold `Admin`.
abbrev pub admins : List RoleKey → ℕ
admins [] = 0
admins (j ∷ js) = let rest = admins js in if same_role j.role admin then suc rest else rest

-- No key is listed twice.
abbrev pub IsUnique : List RoleKey → Type 0
IsUnique [] = Unit {0}
IsUnique (j ∷ js) = (has_key j js ≡ false) × IsUnique js

same_role_refl : (r : Role) → same_role r r ≡ true
same_role_refl admin = refl
same_role_refl fee_manager = refl
same_role_refl rate_manager = refl

pub same_key_refl : (k : RoleKey) → same_key k k ≡ true
same_key_refl k = ground (arith, same_role_refl k.role)

pub same_key_eq : (j k : RoleKey) → same_key j k ≡ true → j ≡ k
same_key_eq j k h = ground arith

pub has_key-insert :
    (k q : RoleKey) (js : List RoleKey)
    → has_key q (insert_key k js) ≡ (same_key q k || has_key q js)
has_key-insert k q js = ground (arith, same_key_eq q k)

pub has_key-remove :
    (k q : RoleKey) (js : List RoleKey)
    → has_key q (remove_key k js) ≡ (not (same_key k q) && has_key q js)
has_key-remove k q [] = ground arith
has_key-remove k q (j ∷ js) =
    ground (arith, has_key-remove k q js, same_key_eq q j, same_key_eq k j, same_key_refl k)

pub insert_key-IsUnique :
    (k : RoleKey) (js : List RoleKey) → IsUnique js → IsUnique (insert_key k js)
insert_key-IsUnique k js u = ground arith

pub remove_key-IsUnique :
    (k : RoleKey) (js : List RoleKey) → IsUnique js → IsUnique (remove_key k js)
remove_key-IsUnique k [] u = tt
remove_key-IsUnique k (j ∷ js) u =
    ground (arith, remove_key-IsUnique k js u.1, has_key-remove k j js)

pub remove_key_absent :
    (k : RoleKey) (js : List RoleKey) → has_key k js ≡ false → remove_key k js ≡ js
remove_key_absent k [] h = refl
remove_key_absent k (j ∷ js) h = ground (arith, remove_key_absent k js)

-- A removal of a key that is there takes one admin away exactly if it is an admin's.
pub admins-remove :
    (k : RoleKey) (js : List RoleKey)
    → IsUnique js
    → has_key k js ≡ true
    → admins js ≡ (
        if same_role k.role admin then suc (admins (remove_key k js)) else admins (remove_key k js))
admins-remove k [] u h = cc
admins-remove k (j ∷ js) u h =
    ground (arith, admins-remove k js u.1, same_key_eq k j, remove_key_absent k js)

-- Where there is an admin, some account holds the role.
pub admins-pos :
    (js : List RoleKey) → 0 < admins js → (a : Address) × (has_key (key admin a) js ≡ true)
admins-pos [] h = absurd (omega arith)
admins-pos (j ∷ js) h = elim (Bool-cases (same_role j.role admin)) [
  | inl here ↦ (j.account, ground arith)
  | inr there ↦ let (a, held) = admins-pos js (ground arith) in (a, ground arith)
]

pub admins_of_held :
    (a : Address) (js : List RoleKey) → has_key (key admin a) js ≡ true → 1 ≤ admins js
admins_of_held a [] h = cc
admins_of_held a (j ∷ js) h = ground (arith, admins_of_held a js, same_key_eq (key admin a) j)

pub two_admins :
    (a b : Address) (js : List RoleKey)
    → IsUnique js
    → has_key (key admin a) js ≡ true
    → has_key (key admin b) js ≡ true
    → a ≢ b
    → 2 ≤ admins js
two_admins a b js u ha hb ne = ground (
  arith,
  admins-remove (key admin a) js u ha,
  admins_of_held b (remove_key (key admin a) js),
  has_key-remove (key admin a) (key admin b) js,
)
