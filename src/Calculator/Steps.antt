-- ===== src/Calculator/Steps.antt =====
-- The steps of the calculator's parser over what is written.
use waylaunch.Prelude.{
  ℕ, suc, ◌+◌, ◌≡◌, refl, Bool, true, false, Option, none, some, [], ◌∷◌, arith,
}
use waylaunch.Prelude.Tests.{◌>>=◌}
use waylaunch.Prelude.Lists.{length}
use waylaunch.Prelude.Text.{Text, is_space}
use waylaunch.Prelude.Decimal.{skip_spaces}
use waylaunch.Calculator.Floats.{Floats}
use waylaunch.Calculator.Parser.{
  Parser, with_rest, is_product, is_sum, multiplied, added, term_loop, parse_term, expression_loop,
  parse_expression,
}
use waylaunch.Calculator.Grammar.{AddOp, MulOp, add_byte, mul_byte, combine_product, combine_sum}
use waylaunch.Calculator.Spelling.{follows_sums, follows_term, follows_factor, skip_follow}

module _ {ℓ} {D : Type ℓ} (F : Floats D) where
  multiplied_lem :
      (op : MulOp) (v w : D)
      → (is_product (mul_byte op) ≡ true)
        × (multiplied F (mul_byte op) v w ≡ combine_product F op v w)
  unfolding multiplied is_product
  multiplied_lem MulOp.times v w = (refl, refl)
  multiplied_lem MulOp.over v w = (refl, refl)
  multiplied_lem MulOp.power v w = (refl, refl)

  skip_mul : (op : MulOp) (s : Text) → skip_spaces (mul_byte op ∷ s) ≡ mul_byte op ∷ s
  unfolding skip_spaces is_space
  skip_mul MulOp.times s = refl
  skip_mul MulOp.over s = refl
  skip_mul MulOp.power s = refl

  skip_add : (op : AddOp) (s : Text) → skip_spaces (add_byte op ∷ s) ≡ add_byte op ∷ s
  unfolding skip_spaces is_space
  skip_add AddOp.plus s = refl
  skip_add AddOp.minus s = refl

  added_lem :
      (op : AddOp) (v w : D)
      → (is_sum (add_byte op) ≡ true) × (added F (add_byte op) v w ≡ combine_sum F op v w)
  unfolding added is_sum
  added_lem AddOp.plus v w = (refl, refl)
  added_lem AddOp.minus v w = (refl, refl)

no_product :
    (c : ℕ) (s : Text)
    → follows_term (c ∷ s) ≡ true
    → (follows_factor (c ∷ s) ≡ true) × (is_product c ≡ false)
unfolding is_product is_sum
no_product c s h = ground arith

no_sum :
    (c : ℕ) (s : Text)
    → follows_sums (c ∷ s) ≡ true
    → (follows_factor (c ∷ s) ≡ true) × (is_sum c ≡ false)
unfolding is_product is_sum
no_sum c s h = ground arith

module _ {ℓ} {D : Type ℓ} (F : Floats D) (degrees : Bool) (factor : Parser D) where
  pub term_step :
      (x : Option D) (k : D → Option D) (s r rest : Text)
      → factor s ≡ with_rest r x
      → ((v : D) → term_loop F degrees factor (length r + 1) v r ≡ with_rest rest (k v))
      → parse_term F degrees factor s ≡ with_rest rest (x >>= k)
  unfolding parse_term
  term_step none k s r rest h g = rw (h, parse_term) refl
  term_step (some v) k s r rest h g = rw (h, parse_term) (g v)

  product_after :
      (y : Option D) (k : D → Option D) (n : ℕ) (r rest : Text)
      → ((v : D) → term_loop F degrees factor n v r ≡ with_rest rest (k v))
      → elim y [ none ↦ none | some v ↦ term_loop F degrees factor n v r ]
        ≡ with_rest rest (y >>= k)
  product_after none k n r rest g = refl
  product_after (some v) k n r rest g = g v

  pub product_step :
      (op : MulOp) (x : Option D) (k : D → Option D) (left : D) (n : ℕ) (s r rest : Text)
      → factor s ≡ with_rest r x
      → ((v : D) → term_loop F degrees factor n v r ≡ with_rest rest (k v))
      → term_loop F degrees factor (suc n) left (mul_byte op ∷ s)
        ≡ with_rest rest (x >>= (λ w. combine_product F op left w >>= k))
  unfolding term_loop
  product_step op none k left n s r rest h g =
      rw (skip_mul F op s, (multiplied_lem F op left left).0, h, term_loop) refl
  product_step op (some w) k left n s r rest h g =
      rw (skip_mul F op s, (multiplied_lem F op left left).0, h, term_loop)
        (rw ((multiplied_lem F op left w).1)
          (product_after (combine_product F op left w) k n r rest g))

  pub products_end :
      (n : ℕ) (left : D) (rest : Text)
      → follows_term rest ≡ true
      → term_loop F degrees factor (suc n) left rest ≡ some (left, rest)
  unfolding term_loop skip_spaces
  products_end n left [] h = refl
  products_end n left (c ∷ s) h =
      let (f, p) = no_product c s h in rw (skip_follow (c ∷ s) f, p, term_loop) refl

  pub expression_step :
      (x : Option D) (k : D → Option D) (s r rest : Text)
      → parse_term F degrees factor s ≡ with_rest r x
      → ((v : D) → expression_loop F degrees factor (length r + 1) v r ≡ with_rest rest (k v))
      → parse_expression F degrees factor s ≡ with_rest rest (x >>= k)
  unfolding parse_expression
  expression_step none k s r rest h g = rw (h, parse_expression) refl
  expression_step (some v) k s r rest h g = rw (h, parse_expression) (g v)

  pub sum_step :
      (op : AddOp) (x : Option D) (k : D → Option D) (left : D) (n : ℕ) (s r rest : Text)
      → parse_term F degrees factor s ≡ with_rest r x
      → ((v : D) → expression_loop F degrees factor n v r ≡ with_rest rest (k v))
      → expression_loop F degrees factor (suc n) left (add_byte op ∷ s)
        ≡ with_rest rest (x >>= (λ w. k (combine_sum F op left w)))
  unfolding expression_loop
  sum_step op none k left n s r rest h g =
      rw (skip_add F op s, (added_lem F op left left).0, h, expression_loop) refl
  sum_step op (some w) k left n s r rest h g =
      rw (skip_add F op s, (added_lem F op left left).0, h, expression_loop)
        (rw ((added_lem F op left w).1) (g (combine_sum F op left w)))

  pub sums_end :
      (n : ℕ) (left : D) (rest : Text)
      → follows_sums rest ≡ true
      → expression_loop F degrees factor (suc n) left rest ≡ some (left, rest)
  unfolding expression_loop skip_spaces
  sums_end n left [] h = refl
  sums_end n left (c ∷ s) h =
      let (f, p) = no_sum c s h in rw (skip_follow (c ∷ s) f, p, expression_loop) refl
