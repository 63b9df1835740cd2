-- ===== src/Base/Lists.antt =====
-- Lists measured by native numbers, under the library's names.
use Prim.Native.Nat.{ℕ, zero, suc, ◌+◌, ◌<◌}
use mathlib.Core.Path.{◌≡◌, refl, ap, sym}
use mathlib.Core.Logic.{◌⊎◌, inl, inr}
use mathlib.Core.Option.{Option, none, some, some-injective}
use mathlib.Core.List.{List, [], ◌∷◌, ◌++◌}
use native.Mathlib.Omega.{arith}

module _ {ℓ} {A : Type ℓ} where
  abbrev pub length : List A → ℕ
  length [] = 0
  length (x ∷ xs) = suc (length xs)

  abbrev pub take : ℕ → List A → List A
  take zero xs = []
  take (suc n) [] = []
  take (suc n) (x ∷ xs) = x ∷ take n xs

  abbrev pub drop : ℕ → List A → List A
  drop zero xs = xs
  drop (suc n) [] = []
  drop (suc n) (x ∷ xs) = drop n xs

  pub length-append : (xs ys : List A) → length (xs ++ ys) ≡ length xs + length ys
  length-append [] ys = omega arith
  length-append (x ∷ xs) ys = omega (arith, length-append xs ys)

  abbrev pub get_elem? : List A → ℕ → Option A
  get_elem? [] i = none
  get_elem? (x ∷ xs) zero = some x
  get_elem? (x ∷ xs) (suc i) = get_elem? xs i

  pub get_elem?-append_left :
      (xs ys : List A) (i : ℕ) (x : A) → get_elem? xs i ≡ some x → get_elem? (xs ++ ys) i ≡ some x
  get_elem?-append_left [] ys i x h = cc h
  get_elem?-append_left (z ∷ xs) ys zero x h = h
  get_elem?-append_left (z ∷ xs) ys (suc i) x h = get_elem?-append_left xs ys i x h

  pub get_elem?-append_end : (xs : List A) (y : A) → get_elem? (xs ++ y ∷ []) (length xs) ≡ some y
  get_elem?-append_end [] y = refl
  get_elem?-append_end (x ∷ xs) y = get_elem?-append_end xs y

  pub get_elem?-append_cases :
      (xs : List A) (y : A) (i : ℕ) (x : A)
      → get_elem? (xs ++ y ∷ []) i ≡ some x
      → (get_elem? xs i ≡ some x) ⊎ ((i ≡ length xs) × (x ≡ y))
  get_elem?-append_cases [] y zero x h = inr (refl, sym (some-injective y x h))
  get_elem?-append_cases [] y (suc i) x h = cc h
  get_elem?-append_cases (z ∷ xs) y zero x h = inl h
  get_elem?-append_cases (z ∷ xs) y (suc i) x h = elim (get_elem?-append_cases xs y i x h) [
    | inl there ↦ inl there
    | inr (last, same) ↦ inr (ap suc last, same)
  ]

  pub get_elem?-lt-length : (xs : List A) (i : ℕ) (x : A) → get_elem? xs i ≡ some x → i < length xs
  get_elem?-lt-length [] i x h = cc h
  get_elem?-lt-length (z ∷ xs) zero x h = omega arith
  get_elem?-lt-length (z ∷ xs) (suc i) x h = omega (arith, get_elem?-lt-length xs i x h)
