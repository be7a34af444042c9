-- ===== src/Launcher/TopHit.antt =====
-- The top hit of rebuild_items in src/ui/launcher_ui.cpp.
use waylaunch.Prelude.{
  ℕ, suc, ◌+◌, ◌≡◌, refl, sym, ap, ◌∙◌, inl, inr, Bool, true, false, List, [], ◌∷◌, ◌++◌, arith,
}
use mathlib.Core.List.{append_assoc, append-nil}
use waylaunch.Prelude.Tests.{Bool-cases}
use waylaunch.Prelude.Lists.{length, length-append, All}
use waylaunch.Launcher.Items.{ListItem}
use waylaunch.Launcher.Search.{best_from, item_at, without, combine}

module _ {ℓ} {S : Type ℓ} where
  -- What `>` is on floating-point numbers other than NaN.
  pub record IsAbove (above : S → S → Bool) : Type ℓ where
    pub asym : (x y : S) → above x y ≡ true → above y x ≡ false
    pub above_not : (x y z : S) → above x y ≡ true → above z y ≡ false → above x z ≡ true

  All-append {κ} :
      (P : ListItem S → Type κ) (xs ys : List (ListItem S)) → All P xs → All P ys → All P (xs ++ ys)
  All-append P [] ys h k = k
  All-append P (x ∷ xs) ys (p, h) k = (p, All-append P xs ys h k)

  All-map {κ} :
      (P Q : ListItem S → Type κ) (xs : List (ListItem S))
      → ((x : ListItem S) → P x → Q x)
      → All P xs
      → All Q xs
  All-map P Q [] f h = tt
  All-map P Q (x ∷ xs) f (p, h) = (f x p, All-map P Q xs f h)

  item_at-length :
      (it b : ListItem S) (pre post : List (ListItem S))
      → item_at it (pre ++ b ∷ post) (length pre) ≡ b
  item_at-length it b [] post = refl
  item_at-length it b (x ∷ pre) post = item_at-length it b pre post

  without-length :
      (b : ListItem S) (pre post : List (ListItem S))
      → without (pre ++ b ∷ post) (length pre) ≡ pre ++ post
  without-length b [] post = refl
  without-length b (x ∷ pre) post = ap (λ t. x ∷ t) (without-length b pre post)

  pick :
      (it b : ListItem S) (all content pre post : List (ListItem S)) (n : ℕ)
      → all ≡ pre ++ b ∷ post
      → n ≡ length pre
      → item_at it all n ∷ (without all n ++ content) ≡ b ∷ ((pre ++ post) ++ content)
  pick it b all content pre post n e i =
      rw (e, i, item_at-length it b pre post, without-length b pre post) refl

  module _ (above : S → S → Bool) where
    abbrev Below : ListItem S → ListItem S → Type 0
    Below b x = above b.score x.score ≡ true

    abbrev NotAbove : ListItem S → ListItem S → Type 0
    NotAbove b x = above x.score b.score ≡ false

    -- A split of a list at an item that nothing is above, and that is above all before it.
    abbrev pub IsSplit :
        List (ListItem S) → List (ListItem S) → ListItem S → List (ListItem S) → Type ℓ
    IsSplit items pre b post =
        (items ≡ pre ++ b ∷ post)
        × All (λ x. above b.score x.score ≡ true) pre
        × All (λ x. above x.score b.score ≡ false) post

    best_from_lem :
        (pre mid rest : List (ListItem S)) (b : ListItem S) (i : ℕ)
        → IsAbove above
        → i ≡ length pre + 1 + length mid
        → All (Below b) pre
        → All (NotAbove b) mid
        → (front behind : List (ListItem S)) × (best : ListItem S) × IsSplit
            (pre ++ b ∷ (mid ++ rest))
            front
            best
            behind
          × (best_from above b.score (length pre) i rest ≡ length front)
    unfolding best_from
    best_from_lem pre mid [] b i o e h k =
        (pre, mid, b, (ap (λ t. pre ++ b ∷ t) (append-nil mid), h, k), refl)
    best_from_lem pre mid (it ∷ rest) b i o e h k = elim (Bool-cases (above it.score b.score)) [
      | inl t ↦
          let before = pre ++ b ∷ mid in
          let n : i ≡ length before = omega (arith, e, length-append pre (b ∷ mid)) in
          let below =
            All-append (Below it) pre (b ∷ mid)
              (All-map (Below b) (Below it) pre
                (λ x p. o.above_not it.score b.score x.score t (o.asym b.score x.score p)) h)
              (
                t,
                All-map (NotAbove b) (Below it) mid
                    (λ x q. o.above_not it.score b.score x.score t q) k,
              ) in
          let (front, behind, best, (same, f, g), index) =
            best_from_lem before [] rest it (suc i) o (omega (arith, n)) below tt in
          (
            front,
            behind,
            best,
            (sym (append_assoc pre (b ∷ mid) (it ∷ rest)) ∙ same, f, g),
            rw t (rw (sym n) at index),
          )
      | inr f ↦
          let more = mid ++ it ∷ [] in
          let n : suc i ≡ length pre + 1 + length more =
            omega (arith, e, length-append mid (it ∷ [])) in
          let (front, behind, best, (same, g, l), index) =
            best_from_lem pre more rest b (suc i) o n h
              (All-append (NotAbove b) mid (it ∷ []) k (f, tt)) in
          (
            front,
            behind,
            best,
            (ap (λ u. pre ++ b ∷ u) (sym (append_assoc mid (it ∷ []) rest)) ∙ same, g, l),
            rw f index,
          )
    ]

    -- With scores that `>` orders, the first of the candidates that no other is above comes first, the
    -- others keep their order behind it, and the content matches come last.
    pub combine_best :
        (it : ListItem S) (items content : List (ListItem S))
        → IsAbove above
        → (pre post : List (ListItem S)) × (best : ListItem S) × IsSplit (it ∷ items) pre best post
          × (combine above (it ∷ items) content ≡ best ∷ ((pre ++ post) ++ content))
    unfolding combine
    combine_best it items content o =
        let (pre, post, b, (e, h, k), i) = best_from_lem [] [] items it 1 o (omega arith) tt tt in
        (
          pre,
          post,
          b,
          (e, h, k),
          pick it b (it ∷ items) content pre post (best_from above it.score 0 1 items) e i,
        )
