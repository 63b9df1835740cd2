-- ===== src/Factory/Paging.antt =====
-- contracts/factory/src/query.rs against `take` and `drop`.
use native.Mathlib.Numerals.{add-one}
use native.Mathlib.Decide.{dec_le}
use conduit_contracts.Base.{
  ℕ, zero, suc, ◌+◌, ◌-◌, ◌≤◌, ◌<◌, ◌≡◌, ◌⊎◌, min, refl, arith, List, [], ◌∷◌, some, length, take,
  drop, u32_limit, inl, inr, ap, ◌∙◌,
}
use conduit_contracts.Factory.Query.{get_elem?, collect, paginate}

get_elem?-drop :
    (v : List ℕ) (i : ℕ)
    → i < length v
    → (x : ℕ) × (get_elem? v i ≡ some x) × (drop i v ≡ x ∷ drop (suc i) v)
get_elem?-drop [] i h = elim h [ ]
get_elem?-drop (x ∷ v) zero h = (x, refl, refl)
get_elem?-drop (x ∷ v) (suc i) h = get_elem?-drop v i (omega arith)

collect_lem :
    (v : List ℕ) (left i : ℕ) → i + left ≤ length v → collect v left i ≡ some (take left (drop i v))
unfolding collect
collect_lem v zero i h = refl
collect_lem v (suc left) i h =
    let (x, found, dropped) = get_elem?-drop v i (omega arith) in
    let ih : collect v left (suc i) ≡ some (take left (drop (suc i) v)) =
      collect_lem v left (suc i) (omega arith) in
    ground (arith, found, dropped, ih, add-one i)

drop_past : (v : List ℕ) (i : ℕ) → length v ≤ i → drop i v ≡ []
drop_past [] zero h = refl
drop_past [] (suc i) h = refl
drop_past (x ∷ v) zero h = absurd (omega arith)
drop_past (x ∷ v) (suc i) h = drop_past v i (omega arith)

take_past : (v : List ℕ) (n m : ℕ) → length v ≤ n → length v ≤ m → take n v ≡ take m v
take_past [] zero zero h k = refl
take_past [] zero (suc m) h k = refl
take_past [] (suc n) zero h k = refl
take_past [] (suc n) (suc m) h k = refl
take_past (x ∷ v) zero m h k = absurd (omega arith)
take_past (x ∷ v) (suc n) zero h k = absurd (omega arith)
take_past (x ∷ v) (suc n) (suc m) h k = rw (take_past v n m (omega arith) (omega arith))

length-drop : (n : ℕ) (v : List ℕ) → length (drop n v) ≡ length v - n
length-drop zero v = omega arith
length-drop (suc n) [] = omega arith
length-drop (suc n) (x ∷ v) = omega (arith, length-drop n v)

-- Two counts that agree up to the length take the same.
take_enough :
    (v : List ℕ) (n m : ℕ) → (n ≡ m) ⊎ ((length v ≤ n) × (length v ≤ m)) → take n v ≡ take m v
take_enough v n m (inl e) = ap (λ k. take k v) e
take_enough v n m (inr (a, b)) = take_past v n m a b

page_empty :
    (v : List ℕ) (rounds limit offset : ℕ)
    → rounds ≡ 0
    → collect v rounds offset ≡ some (take limit [])
unfolding collect
page_empty v rounds limit offset e =
    rw e (ap some (take_past [] 0 limit (omega arith) (omega arith)))

-- A page never fails: for every offset and limit it is the first `limit` elements of what is left
-- after the first `offset`, also where `offset + limit` is past the end or past the largest
-- `usize`. The list is one that a `Vec` can hold.
pub paginate_lem :
    (v : List ℕ) (offset limit : ℕ)
    → length v < u32_limit
    → paginate v offset limit ≡ some (take limit (drop offset v))
unfolding paginate
paginate_lem v offset limit h =
    let rounds = min (min (offset + limit) (u32_limit - 1)) (length v) - offset in
    elim (dec_le offset (length v)) [
      | yes within ↦
          collect_lem v rounds offset (omega arith)
          ∙ ap some (take_enough (drop offset v) rounds limit (omega (arith, length-drop offset v)))
      | no past ↦
          rw (drop_past v offset (omega arith)) (page_empty v rounds limit offset (omega arith))
    ]
