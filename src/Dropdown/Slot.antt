-- ===== src/Dropdown/Slot.antt =====
-- The window that a dropdown slot selects, and the windows that it shows as tabs.
use waylaunch.Prelude.{
  ℕ, zero, suc, ◌+◌, ◌≤◌, ◌<◌, ◌≡◌, refl, ap, ◌∙◌, ◌⊎◌, inl, inr, Bool, true, false, Option, none,
  some, List, [], ◌∷◌, arith,
}
use Prim.Native.Nat.add
use mathlib.Core.List.{Memᴰ}
use native.Mathlib.Decide.{dec_lt}
use waylaunch.Prelude.Tests.{Bool-cases}
use waylaunch.Prelude.Int.{ℤ, pos, ◌<ℤ◌}
use waylaunch.Prelude.Text.{Text, text_eq}
use waylaunch.Dropdown.Ownership.{
  HyprClient, Ownership, tier, classify_ownership, is_exact, index_of, select_from, select_owned,
  is_owned, filter_from, filter_owned,
}
use waylaunch.Dropdown.Selection.{
  NoneBelow, NoneMatches, FirstBest, Outcome, step_other, select_from-Outcome, exact-NoneBelow,
  here_index,
}

module _ (app : Text) (owner : ℤ) (ancestry : ℤ → ℤ → Bool) where
  -- The loop with nothing selected yet.
  abbrev Found : ℕ → List HyprClient → Option (ℕ × Ownership) → Type 0
  Found i cs r =
      ((r ≡ none) × NoneMatches app owner ancestry cs)
      ⊎ ((k : ℕ) × (t : Ownership) × (r ≡ some (i + k, t))
          × FirstBest app owner ancestry cs k (tier t))

  later :
      (i : ℕ) (c : HyprClient) (cs : List HyprClient) (r : Option (ℕ × Ownership))
      → text_eq c.klass app ≡ false
      → Found (suc i) cs r
      → Found i (c ∷ cs) r
  later i c cs r m (inl (e, n)) = inl (e, (m, n))
  later i c cs r m (inr (k, t, e, f)) =
      let next : suc i + k ≡ i + suc k = omega arith in inr (suc k, t, rw next at e, (inl m, f))

  first_exact :
      (i : ℕ) (c : HyprClient) (cs : List HyprClient)
      → text_eq c.klass app ≡ true
      → is_exact (classify_ownership c.pid owner ancestry) ≡ true
      → (select_from i none (c ∷ cs) app owner ancestry
          ≡ some (i, classify_ownership c.pid owner ancestry))
        × (tier (classify_ownership c.pid owner ancestry) ≡ 0)
  unfolding select_from
  first_exact i c cs m x = ground arith

  first_other :
      (i : ℕ) (c : HyprClient) (cs : List HyprClient)
      → text_eq c.klass app ≡ true
      → is_exact (classify_ownership c.pid owner ancestry) ≡ false
      → select_from i none (c ∷ cs) app owner ancestry
        ≡ select_from
            (suc i)
            (some (i, classify_ownership c.pid owner ancestry))
            cs
            app
            owner
            ancestry
  unfolding select_from
  first_other i c cs m x = ground arith

  first-Found :
      (i : ℕ) (c : HyprClient) (cs : List HyprClient) (r : Option (ℕ × Ownership))
      → text_eq c.klass app ≡ true
      → Outcome app owner ancestry (suc i) (i, classify_ownership c.pid owner ancestry) cs r
      → Found i (c ∷ cs) r
  first-Found i c cs r m (inl (e, n)) = inr (
    0,
    classify_ownership c.pid owner ancestry,
    e ∙ here_index app owner ancestry i _,
    (m, refl, n),
  )
  first-Found i c cs r m (inr (k, t, e, l, f)) =
      let next : suc i + k ≡ i + suc k = omega arith in inr (suc k, t, rw next at e, (inr l, f))

  select_from-Found :
      (i : ℕ) (cs : List HyprClient) → Found i cs (select_from i none cs app owner ancestry)
  unfolding select_from
  select_from-Found i [] = inl (refl, tt)
  select_from-Found i (c ∷ cs) =
      let on = select_from-Found (suc i) cs in
      elim (Bool-cases (text_eq c.klass app)) [
        | inr e ↦ rw (step_other app owner ancestry i none c cs e) (later i c cs _ e on)
        | inl e ↦ elim (Bool-cases (is_exact (classify_ownership c.pid owner ancestry))) [
          | inl x ↦
              let (s, z) = first_exact i c cs e x in
              inr (
                0,
                classify_ownership c.pid owner ancestry,
                s ∙ here_index app owner ancestry i _,
                (e, refl, rw z (exact-NoneBelow app owner ancestry cs)),
              )
          | inr x ↦
              rw (first_other i c cs e x)
                (first-Found i c cs _ e (select_from-Outcome app owner ancestry (suc i) _ cs))
        ]
      ]

  -- Without a client of the slot's class nothing is selected; otherwise the selected client has
  -- that class, no client of the class has a better tier, and none before it an equal one.
  pub select_owned_best :
      (cs : List HyprClient)
      → ((select_owned cs app owner ancestry ≡ none) × NoneMatches app owner ancestry cs)
        ⊎ ((k t : ℕ) × (select_owned cs app owner ancestry ≡ some k)
            × FirstBest app owner ancestry cs k t)
  unfolding select_owned
  select_owned_best cs = elim (select_from-Found 0 cs) [
    | inl (e, n) ↦ inl (rw e refl, n)
    | inr (k, t, e, f) ↦ inr (k, tier t, rw (add.zero k) at (ap index_of e), f)
  ]

  owned_kept :
      (i : ℕ) (c : HyprClient) (cs : List HyprClient)
      → text_eq c.klass app ≡ true
      → tier (classify_ownership c.pid owner ancestry) < 2
      → filter_from i (c ∷ cs) app owner ancestry ≡ i ∷ filter_from (suc i) cs app owner ancestry
  unfolding filter_from is_owned
  owned_kept i c cs m h = ground arith

  other_dropped :
      (i : ℕ) (c : HyprClient) (cs : List HyprClient)
      → pos 0 <ℤ owner
      → (text_eq c.klass app ≡ false) ⊎ (2 ≤ tier (classify_ownership c.pid owner ancestry))
      → filter_from i (c ∷ cs) app owner ancestry ≡ filter_from (suc i) cs app owner ancestry
  unfolding filter_from is_owned
  other_dropped i c cs o h = ground arith

  filter_keeps :
      (i : ℕ) (c : HyprClient) (cs : List HyprClient) {j : ℕ}
      → Memᴰ j (filter_from (suc i) cs app owner ancestry)
      → Memᴰ j (filter_from i (c ∷ cs) app owner ancestry)
  unfolding filter_from
  filter_keeps i c cs h = elim (Bool-cases (is_owned c app owner ancestry)) [
    | inl e ↦ rw e (Memᴰ.tail h)
    | inr e ↦ rw e h
  ]

  best_kept :
      (i k t : ℕ) (cs : List HyprClient)
      → t < 2
      → FirstBest app owner ancestry cs k t
      → Memᴰ (i + k) (filter_from i cs app owner ancestry)
  best_kept i k t [] h f = absurd f
  best_kept i zero t (c ∷ cs) h f =
      rw (owned_kept i c cs f.0 (omega arith)) (Memᴰ.head (omega arith))
  best_kept i (suc k) t (c ∷ cs) h f =
      let next : suc i + k ≡ i + suc k = omega arith in
      filter_keeps i c cs (rw next at (best_kept (suc i) k t cs h f.1))

  none_kept :
      (i : ℕ) (cs : List HyprClient)
      → pos 0 <ℤ owner
      → NoneBelow app owner ancestry 2 cs
      → filter_from i cs app owner ancestry ≡ []
  unfolding filter_from
  none_kept i [] o n = refl
  none_kept i (c ∷ cs) o n = other_dropped i c cs o n.0 ∙ none_kept (suc i) cs o n.1

  class_only-NoneBelow :
      (k t : ℕ) (cs : List HyprClient)
      → 2 ≤ t
      → FirstBest app owner ancestry cs k t
      → NoneBelow app owner ancestry 2 cs
  class_only-NoneBelow k t [] h f = tt
  class_only-NoneBelow zero t (c ∷ cs) h f = (inr (omega arith), below cs f.2)
    where
      below :
          (ds : List HyprClient)
          → NoneBelow app owner ancestry t ds
          → NoneBelow app owner ancestry 2 ds
      below [] n = tt
      below (d ∷ ds) n = (ground arith, below ds n.1)
  class_only-NoneBelow (suc k) t (c ∷ cs) h f = (ground arith, class_only-NoneBelow k t cs h f.1)

  -- With a known owner the selected window is one of the slot's tabs, unless the slot has no tab
  -- at all and the selection is a window of another process with the same class.
  pub selected_is_tab :
      (cs : List HyprClient) (k : ℕ)
      → pos 0 <ℤ owner
      → select_owned cs app owner ancestry ≡ some k
      → Memᴰ k (filter_owned cs app owner ancestry) ⊎ (filter_owned cs app owner ancestry ≡ [])
  unfolding filter_owned
  selected_is_tab cs k o h = elim (select_owned_best cs) [
    | inl (e, n) ↦ cc
    | inr (j, t, e, f) ↦
        let same : 0 + j ≡ k = add.zero j ∙ (cc) in
        elim (dec_lt t 2) [
          | yes b ↦ inl (rw same at (best_kept 0 j t cs b f))
          | no b ↦ inr (none_kept 0 cs o (class_only-NoneBelow j t cs (omega arith) f))
        ]
  ]
