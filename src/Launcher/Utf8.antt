-- ===== src/Launcher/Utf8.antt =====
-- The bytes of a character, as on_key of src/ui/launcher_ui.cpp writes and finds them.
use waylaunch.Prelude.{
  ℕ, zero, suc, ◌+◌, ◌<◌, ◌≤◌, ◌≡◌, refl, ap, true, false, [], ◌∷◌, ◌++◌, inl, inr, arith,
}
use mathlib.Core.List.{append_assoc}
use waylaunch.Prelude.Tests.{ltb, Bool-cases}
use waylaunch.Prelude.Lists.{length, length-append, first, after, All}
use waylaunch.Prelude.Text.{Text}
use waylaunch.Launcher.Editor.{is_continuation, byte_at, utf8, char_start, continuations}

-- A first byte that does not continue a character, and others that do.
abbrev pub IsChar : Text → Type 0
IsChar w =
    (c : ℕ) × (cs : Text) × (w ≡ c ∷ cs)
    × (is_continuation c ≡ false)
    × All (λ d. is_continuation d ≡ true) cs

pub first_byte : (c : ℕ) → c < 1114112 → IsChar (utf8 c)
unfolding utf8 is_continuation
first_byte c h = elim (Bool-cases (ltb c 128)) [
  | inl a ↦ rw a (_, _, refl, ground arith, tt)
  | inr a ↦ elim (Bool-cases (ltb c 2048)) [
    | inl b ↦ rw (a, b) (_, _, refl, ground arith, (ground arith, tt))
    | inr b ↦ elim (Bool-cases (ltb c 65536)) [
      | inl d ↦ rw (a, b, d) (_, _, refl, ground arith, (ground arith, (ground arith, tt)))
      | inr d ↦
          rw (a, b, d)
            (_, _, refl, ground arith, (ground arith, (ground arith, (ground arith, tt))))
    ]
  ]
]

pub first-append : (u v : Text) → first (length u) (u ++ v) ≡ u
first-append [] v = refl
first-append (c ∷ u) v = ap (λ t. c ∷ t) (first-append u v)

pub after-append : (u v : Text) → after (length u) (u ++ v) ≡ v
after-append [] v = refl
after-append (c ∷ u) v = after-append u v

pub byte_at-append : (u v : Text) (i : ℕ) → byte_at (u ++ v) (length u + i) ≡ byte_at v i
byte_at-append [] v i = let same : 0 + i ≡ i = omega arith in rw same refl
byte_at-append (c ∷ u) v i =
    let same : suc (length u) + i ≡ suc (length u + i) = omega arith in
    rw same (byte_at-append u v i)

pub byte_at-continuation :
    (cs v : Text) (i : ℕ)
    → All (λ d. is_continuation d ≡ true) cs
    → i < length cs
    → is_continuation (byte_at (cs ++ v) i) ≡ true
byte_at-continuation [] v i a h = absurd (omega arith)
byte_at-continuation (c ∷ cs) v zero (x, a) h = x
byte_at-continuation (c ∷ cs) v (suc i) (x, a) h = byte_at-continuation cs v i a (omega arith)

-- From within a character, or from its end, back to its first byte.
pub char_start-within :
    (u : Text) (c : ℕ) (cs v : Text) (k : ℕ)
    → is_continuation c ≡ false
    → All (λ d. is_continuation d ≡ true) cs
    → k ≤ length cs
    → char_start (u ++ ((c ∷ cs) ++ v)) (length u + suc k) ≡ length u
unfolding char_start
char_start-within u c cs v zero x a h =
    let same : length u + 1 ≡ suc (length u + 0) = omega arith in
    let at_u : length u + 0 ≡ length u = omega arith in
    rw same (rw (byte_at-append u (c ∷ (cs ++ v)) 0, x, char_start) at_u)
char_start-within u c cs v (suc k) x a h =
    let same : length u + suc (suc k) ≡ suc (length u + suc k) = omega arith in
    rw same (
      rw
        (
          byte_at-append u (c ∷ (cs ++ v)) (suc k),
          byte_at-continuation cs v k a (omega arith),
          char_start,
        )
        (char_start-within u c cs v k x a (omega arith)))

pub char_start-utf8 :
    (u : Text) (c : ℕ) (v : Text)
    → c < 1114112
    → char_start (u ++ (utf8 c ++ v)) (length u + length (utf8 c)) ≡ length u
char_start-utf8 u c v h =
    let (b, bs, e, x, a) = first_byte c h in
    rw e (char_start-within u b bs v (length bs) x a (omega arith))

pub continuations-append :
    (cs v : Text)
    → All (λ d. is_continuation d ≡ true) cs
    → continuations v ≡ 0
    → continuations (cs ++ v) ≡ length cs
unfolding continuations
continuations-append [] v a h = h
continuations-append (c ∷ cs) v (x, a) h =
    rw (x, continuations) (ap suc (continuations-append cs v a h))

pub char_start-last :
    (u : Text) (c : ℕ) (v : Text)
    → c < 1114112
    → char_start ((u ++ utf8 c) ++ v) (length (u ++ utf8 c)) ≡ length u
char_start-last u c v h =
    rw (append_assoc u (utf8 c) v, length-append u (utf8 c)) (char_start-utf8 u c v h)

pub length-utf8 : (c : ℕ) → 0 < length (utf8 c)
unfolding utf8
length-utf8 c = ground arith

pub after-more : (u v : Text) (k : ℕ) → after (length u + k) (u ++ v) ≡ after k v
after-more [] v k = let same : 0 + k ≡ k = omega arith in rw same refl
after-more (c ∷ u) v k =
    let same : suc (length u) + k ≡ suc (length u + k) = omega arith in rw same (after-more u v k)
