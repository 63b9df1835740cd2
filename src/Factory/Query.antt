-- ===== src/Factory/Query.antt =====
-- contracts/factory/src/query.rs: a page of a list.
use conduit_contracts.Base.{
  ℕ, zero, suc, ◌+◌, ◌-◌, min, List, [], ◌∷◌, Option, none, some, length, u32_limit,
}

-- `v.get(i)`.
abbrev pub get_elem? : {A : Type 0} → List A → ℕ → Option A
get_elem? [] i = none
get_elem? (x ∷ xs) zero = some x
get_elem? (x ∷ xs) (suc i) = get_elem? xs i

-- `for i in start..end`, with the rounds left; `none` where `unwrap` meets no element.
unfoldable pub collect : List ℕ → ℕ → ℕ → Option (List ℕ)
collect v zero i = some []
collect v (suc left) i =
    let rest = collect v left (i + 1) in
    elim (get_elem? v i) [
      | none ↦ none
      | some x ↦ elim rest [ none ↦ none | some xs ↦ some (x ∷ xs) ]
    ]

-- The sum saturates at the largest `usize` of the wasm32 target.
unfoldable pub paginate : List ℕ → ℕ → ℕ → Option (List ℕ)
unfolding collect
paginate v offset limit =
    collect v (min (min (offset + limit) (u32_limit - 1)) (length v) - offset) offset
