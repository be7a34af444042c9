-- ===== src/Content/Sizes.antt =====
-- What the predicates of a query mean.
use waylaunch.Prelude.{
  ℕ, ◌+◌, ◌*◌, ◌<◌, ◌≤◌, ◌^◌, ◌≡◌, ◌↔◌, refl, ap, ◌∙◌, Bool, true, false, ◌&&◌, ◌||◌, some, [], ◌∷◌,
  ◌++◌, arith,
}
use waylaunch.Prelude.Lists.{All}
use waylaunch.Prelude.Int.{pos, ◌+ℤ◌, ◌-ℤ◌, ◌*ℤ◌, ltb_ℤ, leb_ℤ, clamp}
use waylaunch.Prelude.Text.{Text, to_lower, codes}
use waylaunch.Prelude.Decimal.{show_ℕ, show_ℕ-IsDigit, show_ℕ-StartsDigit, is_digit, read_shown}
use waylaunch.Content.Filter.{
  MetaFilter, no_filter, Compare, operator_of, without_operator, has_equals, without_equals,
  parse_size, span_digits, wrap64, times, scaled, strtoll,
}
use waylaunch.Content.Query.{with_size, checked_bound, size_bound}

-- A unit of sizes, the byte it is written with and its number of bytes.
pub data SizeUnit : Type 0 where
  bytes kib mib gib : SizeUnit

abbrev pub unit_text : SizeUnit → Text
unit_text SizeUnit.bytes = []
unit_text SizeUnit.kib = codes "k"
unit_text SizeUnit.mib = codes "M"
unit_text SizeUnit.gib = codes "G"

abbrev pub unit_bytes : SizeUnit → ℕ
unit_bytes SizeUnit.bytes = 1
unit_bytes SizeUnit.kib = 1024
unit_bytes SizeUnit.mib = 1_048_576
unit_bytes SizeUnit.gib = 1_073_741_824

-- A size predicate as it is written.
pub data SizeTest : Type 0 where
  more less at_least at_most : SizeTest

abbrev pub test_text : SizeTest → Text
test_text SizeTest.more = codes ">"
test_text SizeTest.less = codes "<"
test_text SizeTest.at_least = codes ">="
test_text SizeTest.at_most = codes "<="

abbrev pub Meets : SizeTest → ℕ → ℕ → Type 0
Meets SizeTest.more size n = n < size
Meets SizeTest.less size n = size < n
Meets SizeTest.at_least size n = n ≤ size
Meets SizeTest.at_most size n = size ≤ n

-- Whether the bounds of a filter let a size through: those that are not negative are bound.
abbrev pub lets_through : MetaFilter → ℕ → Bool
lets_through mf size =
    (ltb_ℤ mf.size_min (pos 0) || leb_ℤ mf.size_min (pos size))
    && (ltb_ℤ mf.size_max (pos 0) || leb_ℤ (pos size) mf.size_max)

span_digits-unit :
    (ds : Text) (u : SizeUnit)
    → All (λ c. is_digit c ≡ true) ds
    → span_digits (ds ++ unit_text u) ≡ (ds, unit_text u)
unfolding span_digits is_digit
span_digits-unit [] SizeUnit.bytes a = refl
span_digits-unit [] SizeUnit.kib a = refl
span_digits-unit [] SizeUnit.mib a = refl
span_digits-unit [] SizeUnit.gib a = refl
span_digits-unit (c ∷ ds) u (x, a) = rw (x, span_digits) (rw (span_digits-unit ds u a) refl)

strtoll-show : (n : ℕ) → n < 2 ^ 63 → strtoll (show_ℕ n) ≡ pos n
unfolding strtoll clamp
strtoll-show n h = rw (read_shown n, strtoll) (ground arith)

pub wrap64_fits : (n : ℕ) → n < 2 ^ 63 → wrap64 (pos n) ≡ pos n
unfolding wrap64
wrap64_fits n h = ground arith

pos-mul : (m n : ℕ) → pos m *ℤ pos n ≡ pos (m * n)
unfolding ◌*ℤ◌
pos-mul m n = grind arith

times_fits : (n k m : ℕ) → n * k ≡ m → m < 2 ^ 63 → times (pos n) k ≡ pos m
unfolding times
times_fits n k m e h = ap wrap64 (pos-mul n k ∙ ap pos e) ∙ wrap64_fits m h

scaled-unit :
    (n : ℕ) (u : SizeUnit)
    → n * unit_bytes u < 2 ^ 63
    → scaled (pos n) (unit_text u) ≡ pos (n * unit_bytes u)
unfolding scaled to_lower
scaled-unit n SizeUnit.bytes h = ap pos (omega arith)
scaled-unit n SizeUnit.kib h = times_fits n 1024 (n * 1024) refl h
scaled-unit n SizeUnit.mib h =
    ap (λ x. times x 1024) (times_fits n 1024 (n * 1024) refl (omega (arith, h)))
    ∙ times_fits (n * 1024) 1024 (n * 1_048_576) (omega arith) h
scaled-unit n SizeUnit.gib h =
    ap (λ x. times (times x 1024) 1024) (times_fits n 1024 (n * 1024) refl (omega (arith, h)))
    ∙ ap (λ x. times x 1024)
        (times_fits (n * 1024) 1024 (n * 1_048_576) (omega arith) (omega (arith, h)))
    ∙ times_fits (n * 1_048_576) 1024 (n * 1_073_741_824) (omega arith) h

unit_bytes_fits : (n : ℕ) (u : SizeUnit) → n * unit_bytes u < 2 ^ 63 → n < 2 ^ 63
unit_bytes_fits n SizeUnit.bytes h = omega (arith, h)
unit_bytes_fits n SizeUnit.kib h = omega (arith, h)
unit_bytes_fits n SizeUnit.mib h = omega (arith, h)
unit_bytes_fits n SizeUnit.gib h = omega (arith, h)

parse_size-show :
    (n : ℕ) (u : SizeUnit)
    → n * unit_bytes u < 2 ^ 63
    → parse_size (show_ℕ n ++ unit_text u) ≡ pos (n * unit_bytes u)
unfolding parse_size
parse_size-show n u h =
    let (c, ds, e, d) = show_ℕ-StartsDigit n in
    rw (span_digits-unit (show_ℕ n) u (show_ℕ-IsDigit n))
      (rw e (rw (rw e at (strtoll-show n (unit_bytes_fits n u h))) (scaled-unit n u h)))

no_equals :
    (n : ℕ) (s : Text)
    → (without_equals (show_ℕ n ++ s) ≡ show_ℕ n ++ s) × (has_equals (show_ℕ n ++ s) ≡ false)
unfolding without_equals has_equals is_digit
no_equals n s = let (c, ds, e, d) = show_ℕ-StartsDigit n in rw e (ground arith)

abbrev op_of : SizeTest → Compare
op_of SizeTest.more = Compare.above
op_of SizeTest.less = Compare.below
op_of SizeTest.at_least = Compare.above
op_of SizeTest.at_most = Compare.below

abbrev or_equal : SizeTest → Bool
or_equal SizeTest.more = false
or_equal SizeTest.less = false
or_equal SizeTest.at_least = true
or_equal SizeTest.at_most = true

abbrev filter_of : SizeTest → ℕ → MetaFilter
filter_of SizeTest.more b = record no_filter { size_min = pos b +ℤ pos 1; active = true }
filter_of SizeTest.less b = record no_filter { size_max = pos b -ℤ pos 1; active = true }
filter_of SizeTest.at_least b = record no_filter { size_min = pos b; active = true }
filter_of SizeTest.at_most b = record no_filter { size_max = pos b; active = true }

not_negative : (b : ℕ) → ltb_ℤ (pos b) (pos 0) ≡ false
not_negative b = grind arith

more_fits : (b : ℕ) → b + 1 < 2 ^ 63 → wrap64 (pos b +ℤ pos 1) ≡ pos b +ℤ pos 1
unfolding ◌+ℤ◌ wrap64
more_fits b h = ground arith

less_fits : (b : ℕ) → 0 < b → b + 1 < 2 ^ 63 → wrap64 (pos b -ℤ pos 1) ≡ pos b -ℤ pos 1
unfolding ◌-ℤ◌ wrap64
less_fits b z h = ground arith

checked_filter :
    (t : SizeTest) (b : ℕ)
    → 0 < b
    → b + 1 < 2 ^ 63
    → checked_bound (op_of t) (or_equal t) (pos b) no_filter ≡ some (filter_of t b)
unfolding checked_bound size_bound
checked_filter SizeTest.more b z h =
    rw (not_negative b)
      (ap (λ x. some (record no_filter { size_min = x; active = true })) (more_fits b h))
checked_filter SizeTest.less b z h =
    rw (not_negative b)
      (ap (λ x. some (record no_filter { size_max = x; active = true })) (less_fits b z h))
checked_filter SizeTest.at_least b z h = grind arith
checked_filter SizeTest.at_most b z h = grind arith

filter_of-Meets :
    (t : SizeTest) (b size : ℕ)
    → 0 < b
    → (lets_through (filter_of t b) size ≡ true) ↔ Meets t size b
unfolding ◌+ℤ◌ ◌-ℤ◌
filter_of-Meets SizeTest.more b size h = grind arith
filter_of-Meets SizeTest.less b size h = grind arith
filter_of-Meets SizeTest.at_least b size h = grind arith
filter_of-Meets SizeTest.at_most b size h = grind arith

written_size :
    (t : SizeTest) (n : ℕ) (u : SizeUnit)
    → n * unit_bytes u < 2 ^ 63
    → with_size (test_text t ++ (show_ℕ n ++ unit_text u)) no_filter
      ≡ checked_bound (op_of t) (or_equal t) (pos (n * unit_bytes u)) no_filter
unfolding with_size without_operator operator_of without_equals has_equals
written_size SizeTest.more n u h =
    let (a, b) = no_equals n (unit_text u) in rw (a, b, parse_size-show n u h) refl
written_size SizeTest.less n u h =
    let (a, b) = no_equals n (unit_text u) in rw (a, b, parse_size-show n u h) refl
written_size SizeTest.at_least n u h = rw (parse_size-show n u h) refl
written_size SizeTest.at_most n u h = rw (parse_size-show n u h) refl

unit_pos : (n : ℕ) (u : SizeUnit) → 0 < n → 0 < n * unit_bytes u
unit_pos n SizeUnit.bytes h = omega arith
unit_pos n SizeUnit.kib h = omega arith
unit_pos n SizeUnit.mib h = omega arith
unit_pos n SizeUnit.gib h = omega arith

-- A size predicate with a number that is not 0, whose bytes and one more fit 63 bits, gives a filter
-- that lets a size through if and only if the size is as the predicate says, the unit taken into
-- account.
pub with_size-Meets :
    (t : SizeTest) (n : ℕ) (u : SizeUnit) (size : ℕ)
    → n * unit_bytes u + 1 < 2 ^ 63
    → 0 < n
    → (mf : MetaFilter) × (with_size (test_text t ++ (show_ℕ n ++ unit_text u)) no_filter ≡ some mf)
      × ((lets_through mf size ≡ true) ↔ Meets t size (n * unit_bytes u))
with_size-Meets t n u size h z =
    let some_bytes = unit_pos n u z in
    (
      filter_of t (n * unit_bytes u),
      written_size t n u (omega (arith, h)) ∙ checked_filter t (n * unit_bytes u) some_bytes h,
      filter_of-Meets t (n * unit_bytes u) size some_bytes,
    )
