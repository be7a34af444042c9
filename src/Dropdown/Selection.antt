-- ===== src/Dropdown/Selection.antt =====
-- Which window a dropdown slot takes for its own.
use waylaunch.Prelude.{
  ℕ, zero, suc, ◌+◌, ◌≤◌, ◌<◌, ◌≡◌, ◌∙◌, refl, ◌⊎◌, inl, inr, Bool, true, false, Option, some, List,
  [], ◌∷◌, arith,
}
use native.Mathlib.Decide.{dec_lt}
use waylaunch.Prelude.Tests.{Bool-cases}
use waylaunch.Prelude.Int.{ℤ}
use waylaunch.Prelude.Text.{Text, text_eq}
use waylaunch.Dropdown.Ownership.{
  HyprClient, Ownership, tier, classify_ownership, is_exact, select_from,
}

-- A section over the slot: its app-id, the pid of its owner, and the ancestry test.
module _ (app : Text) (owner : ℤ) (ancestry : ℤ → ℤ → Bool) where
  abbrev rank : HyprClient → ℕ
  rank c = tier (classify_ownership c.pid owner ancestry)

  -- No client from index `i` on has the class and a tier below `t`.
  abbrev pub NoneBelow : ℕ → List HyprClient → Type 0
  NoneBelow t [] = Unit {0}
  NoneBelow t (c ∷ cs) =
      ((text_eq c.klass app ≡ false) ⊎ (t ≤ tier (classify_ownership c.pid owner ancestry)))
      × NoneBelow t cs

  -- The first client with the class and the tier `t`, all before it being of another class or of
  -- a greater tier, and none after it better.
  abbrev pub FirstBest : List HyprClient → ℕ → ℕ → Type 0
  FirstBest [] k t = ⊥
  FirstBest (c ∷ cs) zero t =
      (text_eq c.klass app ≡ true)
      × (tier (classify_ownership c.pid owner ancestry) ≡ t)
      × NoneBelow t cs
  FirstBest (c ∷ cs) (suc k) t =
      ((text_eq c.klass app ≡ false) ⊎ (t < tier (classify_ownership c.pid owner ancestry)))
      × FirstBest cs k t

  -- No client has the class.
  abbrev pub NoneMatches : List HyprClient → Type 0
  NoneMatches [] = Unit {0}
  NoneMatches (c ∷ cs) = (text_eq c.klass app ≡ false) × NoneMatches cs

  -- The loop with a best tier `b` at hand keeps it, or finds a better one further on.
  abbrev pub Outcome : ℕ → ℕ × Ownership → List HyprClient → Option (ℕ × Ownership) → Type 0
  Outcome i b cs r =
      ((r ≡ some b) × NoneBelow (tier b.1) cs)
      ⊎ ((k : ℕ) × (t : Ownership) × (r ≡ some (i + k, t))
          × (tier t < tier b.1)
          × FirstBest cs k (tier t))

  pub exact-NoneBelow : (cs : List HyprClient) → NoneBelow 0 cs
  exact-NoneBelow [] = tt
  exact-NoneBelow (c ∷ cs) = (inr (omega arith), exact-NoneBelow cs)

  pub step_other :
      (i : ℕ) (best : Option (ℕ × Ownership)) (c : HyprClient) (cs : List HyprClient)
      → text_eq c.klass app ≡ false
      → select_from i best (c ∷ cs) app owner ancestry
        ≡ select_from (suc i) best cs app owner ancestry
  unfolding select_from
  step_other i best c cs h = ground arith

  step_worse :
      (i : ℕ) (b : ℕ × Ownership) (c : HyprClient) (cs : List HyprClient)
      → tier b.1 ≤ rank c
      → select_from i (some b) (c ∷ cs) app owner ancestry
        ≡ select_from (suc i) (some b) cs app owner ancestry
  unfolding select_from
  step_worse i b c cs h = ground arith

  step_better :
      (i : ℕ) (b : ℕ × Ownership) (c : HyprClient) (cs : List HyprClient)
      → text_eq c.klass app ≡ true
      → rank c < tier b.1
      → is_exact (classify_ownership c.pid owner ancestry) ≡ false
      → select_from i (some b) (c ∷ cs) app owner ancestry
        ≡ select_from
            (suc i)
            (some (i, classify_ownership c.pid owner ancestry))
            cs
            app
            owner
            ancestry
  unfolding select_from
  step_better i b c cs m h x = ground arith

  step_exact :
      (i : ℕ) (b : ℕ × Ownership) (c : HyprClient) (cs : List HyprClient)
      → text_eq c.klass app ≡ true
      → rank c < tier b.1
      → is_exact (classify_ownership c.pid owner ancestry) ≡ true
      → (select_from i (some b) (c ∷ cs) app owner ancestry
          ≡ some (i, classify_ownership c.pid owner ancestry))
        × (rank c ≡ 0)
  unfolding select_from
  step_exact i b c cs m h x = ground arith

  skip-Outcome :
      (i : ℕ) (b : ℕ × Ownership) (c : HyprClient) (cs : List HyprClient)
      (r : Option (ℕ × Ownership))
      → (text_eq c.klass app ≡ false) ⊎ (tier b.1 ≤ rank c)
      → Outcome (suc i) b cs r
      → Outcome i b (c ∷ cs) r
  skip-Outcome i b c cs r h (inl (e, n)) = inl (e, (h, n))
  skip-Outcome i b c cs r (inl m) (inr (k, t, e, l, f)) =
      let next : suc i + k ≡ i + suc k = omega arith in inr (suc k, t, rw next at e, l, (inl m, f))
  skip-Outcome i b c cs r (inr m) (inr (k, t, e, l, f)) =
      let next : suc i + k ≡ i + suc k = omega arith in
      inr (suc k, t, rw next at e, l, (inr (omega arith), f))

  pub here_index :
      (i : ℕ) (t : Ownership) → ◌≡◌ {A = Option (ℕ × Ownership)} (some (i, t)) (some (i + 0, t))
  here_index i t = let same : i + 0 ≡ i = omega arith in rw same

  take-Outcome :
      (i : ℕ) (b : ℕ × Ownership) (c : HyprClient) (cs : List HyprClient)
      (r : Option (ℕ × Ownership))
      → text_eq c.klass app ≡ true
      → rank c < tier b.1
      → Outcome (suc i) (i, classify_ownership c.pid owner ancestry) cs r
      → Outcome i b (c ∷ cs) r
  take-Outcome i b c cs r m h (inl (e, n)) =
      inr (0, classify_ownership c.pid owner ancestry, e ∙ here_index i _, h, (m, refl, n))
  take-Outcome i b c cs r m h (inr (k, t, e, l, f)) =
      let next : suc i + k ≡ i + suc k = omega arith in
      inr (suc k, t, rw next at e, omega arith, (inr l, f))

  better-Outcome :
      (i : ℕ) (b : ℕ × Ownership) (c : HyprClient) (cs : List HyprClient)
      → text_eq c.klass app ≡ true
      → rank c < tier b.1
      → Outcome
          (suc i)
          (i, classify_ownership c.pid owner ancestry)
          cs
          (select_from
            (suc i)
            (some (i, classify_ownership c.pid owner ancestry))
            cs
            app
            owner
            ancestry)
      → Outcome i b (c ∷ cs) (select_from i (some b) (c ∷ cs) app owner ancestry)
  better-Outcome i b c cs m h o =
      elim (Bool-cases (is_exact (classify_ownership c.pid owner ancestry))) [
        | inl x ↦
            let (e, z) = step_exact i b c cs m h x in
            inr (
              0,
              classify_ownership c.pid owner ancestry,
              e ∙ here_index i _,
              h,
              (m, refl, rw z (exact-NoneBelow cs)),
            )
        | inr x ↦ rw (step_better i b c cs m h x) (take-Outcome i b c cs _ m h o)
      ]

  pub select_from-Outcome :
      (i : ℕ) (b : ℕ × Ownership) (cs : List HyprClient)
      → Outcome i b cs (select_from i (some b) cs app owner ancestry)
  unfolding select_from
  select_from-Outcome i b [] = inl (refl, tt)
  select_from-Outcome i b (c ∷ cs) =
      let on = select_from-Outcome (suc i) b cs in
      let better = select_from-Outcome (suc i) (i, classify_ownership c.pid owner ancestry) cs in
      elim (Bool-cases (text_eq c.klass app)) [
        | inr e ↦ rw (step_other i (some b) c cs e) (skip-Outcome i b c cs _ (inl e) on)
        | inl e ↦ elim (dec_lt (rank c) (tier b.1)) [
          | yes h ↦ better-Outcome i b c cs e h better
          | no h ↦
              rw (step_worse i b c cs (omega arith))
                (skip-Outcome i b c cs _ (inr (omega arith)) on)
        ]
      ]
