-- ===== src/Prelude/Lists.antt =====
-- Lists measured and indexed by native numbers, under the library's names (`std::vector`).
use Prim.Native.Nat.{ℕ, zero, suc, ◌+◌, ◌<◌}
use mathlib.Core.Path.{◌≡◌, refl, ap}
use mathlib.Core.Bool.{Bool, true, false}
use mathlib.Core.List.{List, [], ◌∷◌, ◌++◌}
use mathlib.Core.Option.{Option, none, some}
use native.Mathlib.Omega.{arith}

module _ {ℓ} {A : Type ℓ} where
  abbrev pub length : List A → ℕ
  length [] = 0
  length (x ∷ xs) = suc (length xs)

  abbrev pub get_elem? : List A → ℕ → Option A
  get_elem? [] i = none
  get_elem? (x ∷ xs) zero = some x
  get_elem? (x ∷ xs) (suc i) = get_elem? xs i

  abbrev pub is_empty : List A → Bool
  is_empty [] = true
  is_empty (x ∷ xs) = false

  pub length-append : (xs ys : List A) → length (xs ++ ys) ≡ length xs + length ys
  length-append [] ys = omega arith
  length-append (x ∷ xs) ys = omega (arith, length-append xs ys)

  -- An index in range has an element.
  pub get_elem?_of_lt : (xs : List A) (i : ℕ) → i < length xs → (a : A) × (get_elem? xs i ≡ some a)
  get_elem?_of_lt [] i h = elim h [ ]
  get_elem?_of_lt (x ∷ xs) zero h = (x, refl)
  get_elem?_of_lt (x ∷ xs) (suc i) h = get_elem?_of_lt xs i (omega arith)

  -- Every element satisfies `P`.
  abbrev pub All {κ} : (A → Type κ) → List A → Type κ
  All P [] = Unit
  All P (x ∷ xs) = P x × All P xs

module _ {ℓ} {A : Type ℓ} where
  -- The first `n` elements, and those behind them (`substr`).
  abbrev pub first : ℕ → List A → List A
  first zero xs = []
  first (suc n) [] = []
  first (suc n) (x ∷ xs) = x ∷ first n xs

  abbrev pub after : ℕ → List A → List A
  after zero xs = xs
  after (suc n) [] = []
  after (suc n) (x ∷ xs) = after n xs

  pub first-after : (n : ℕ) (xs : List A) → first n xs ++ after n xs ≡ xs
  first-after zero xs = refl
  first-after (suc n) [] = refl
  first-after (suc n) (x ∷ xs) = ap (λ t. x ∷ t) (first-after n xs)
