-- ===== src/Launcher/Liveness.antt =====
-- The results of the current query can always arrive, and an event of an earlier query can lose
-- them.
use waylaunch.Prelude.{ℕ, ◌≡◌, refl, ap, ◌∙◌, inl, inr, true, false, List, [], arith}
use waylaunch.Prelude.Tests.{◌==◌, Bool-cases, ==_iff}
use waylaunch.Prelude.Text.{Text}
use waylaunch.Launcher.Editor.{Field}
use waylaunch.Launcher.Items.{ListItem}
use waylaunch.Launcher.Search.{
  Setup, apply_file_results, update_search, rebuild_items, rebuild_app_items, kick_file_search,
  kick,
}
use waylaunch.Launcher.Input.{retype}
use waylaunch.Launcher.Worker.{
  Worker, System, Background, Later, take, announce, found, finish, deliver, retyped,
}

module _ {ℓ} {S : Type ℓ} (c : Setup S) where
  -- The worker has nothing to do.
  abbrev pub IsIdle : System S → Type 0
  IsIdle s = (s.worker ≡ Worker.waiting) × (s.ui.shared.file_has_pending ≡ false)

  -- A query is waiting for the worker, and it is the one in the field.
  abbrev IsAsked : System S → Type 0
  IsAsked s =
      (s.ui.shared.file_has_pending ≡ true) × (s.ui.shared.file_pending_query ≡ s.ui.field.query)

  -- Results are ready for the main thread, and they are of the generation that it waits for.
  abbrev IsReady : List (ListItem S) → List (ListItem S) → System S → Type ℓ
  IsReady files contents s =
      (s.ui.shared.file_ready ≡ files)
      × (s.ui.shared.content_ready ≡ contents)
      × (s.ui.shared.file_ready_gen ≡ s.ui.shared.file_gen)

  abbrev IsAnswered : Text → System S → Type 0
  IsAnswered q s =
      (s.ui.field.query ≡ q)
      × (s.worker ≡ Worker.announcing)
      × (s.ui.shared.file_has_pending ≡ false)

  -- The results of a query are shown.
  abbrev pub IsShown : Text → System S → Type ℓ
  IsShown q s =
      (s.ui.file_items ≡ found c false q)
      × (s.ui.content_items ≡ found c true q)
      × (s.ui.field.query ≡ q)

  same_test : (a b : ℕ) → a ≡ b → (a == b) ≡ true
  same_test a b h = (==_iff a b).1 h

  join : {s t u : System S} → Later c s t → Later c t u → Later c s u
  join (Later.done s) m = m
  join (Later.and_then b l) m = Later.and_then b (join l m)

  one : {s t : System S} → Background c s t → Later c s t
  one {s} {t} b = Later.and_then b (Later.done t)

  retyped-IsAsked : (f : Field) (s : System S) → c.async_enabled ≡ true → IsAsked (retyped c f s)
  unfolding retype update_search rebuild_items rebuild_app_items kick_file_search kick
  retyped-IsAsked f s e = rw e (refl, refl)

  finish-IsAsked :
      (gen : ℕ) (query q : Text) (s : System S)
      → IsAsked s
      → s.ui.field.query ≡ q
      → IsAsked (finish c gen query s) × ((finish c gen query s).ui.field.query ≡ q)
  unfolding finish
  finish-IsAsked gen query q s h e = elim (Bool-cases (gen == s.ui.shared.file_gen)) [
    | inl g ↦ rw (g, finish) (h, e)
    | inr g ↦ rw (g, finish) (h, e)
  ]

  finish_posts :
      (gen : ℕ) (query : Text) (s : System S)
      → (gen == s.ui.shared.file_gen) ≡ true
      → (finish c gen query s).worker ≡ Worker.announcing
  unfolding finish
  finish_posts gen query s g = rw (g, finish) refl

  finish_drops :
      (gen : ℕ) (query : Text) (s : System S)
      → (gen == s.ui.shared.file_gen) ≡ false
      → (finish c gen query s).worker ≡ Worker.waiting
  unfolding finish
  finish_drops gen query s g = rw (g, finish) refl

  retyped_query : (f : Field) (s : System S) → (retyped c f s).ui.field.query ≡ f.query
  unfolding retype update_search rebuild_items rebuild_app_items kick_file_search
  retyped_query f s = refl

  -- The worker comes back to its wait, and the query is still to be taken.
  waits :
      (q : Text) (w : Worker) (s : System S)
      → s.worker ≡ w
      → IsAsked s
      → s.ui.field.query ≡ q
      → (t : System S) × Later c s t
        × (t.worker ≡ Worker.waiting)
        × IsAsked t
        × (t.ui.field.query ≡ q)
  unfolding announce finish
  waits q Worker.waiting s w h e = (s, Later.done s, w, h, e)
  waits q Worker.announcing s w h e = (announce s, one (Background.announced s w), refl, h, e)
  waits q (Worker.searching gen query) s w h e =
      let next = finish c gen query s in
      let (asked, same) = finish-IsAsked gen query q s h e in
      let step = Background.finished s gen query w in
      elim (Bool-cases (gen == s.ui.shared.file_gen)) [
        | inl g ↦ (
          announce next,
          Later.and_then step (one (Background.announced next (finish_posts gen query s g))),
          refl,
          asked,
          same,
        )
        | inr g ↦ (next, one step, finish_drops gen query s g, asked, same)
      ]

  -- From its wait, the worker finds the results of the query.
  answers :
      (q : Text) (s : System S)
      → s.worker ≡ Worker.waiting
      → IsAsked s
      → s.ui.field.query ≡ q
      → (t : System S) × Later c s t
        × IsReady (found c false q) (found c true q) t
        × IsAnswered q t
        × (t.signals ≡ s.signals)
  unfolding take finish
  answers q s w (p, a) e =
      let gen = s.ui.shared.file_gen in
      let query = s.ui.shared.file_pending_query in
      let same : query ≡ q = a ∙ e in
      (
        finish c gen query (take s),
        Later.and_then (Background.taken s w p) (one (Background.finished (take s) gen query refl)),
        rw (same_test gen gen refl, finish) (ap (found c false) same, ap (found c true) same, refl),
        rw (same_test gen gen refl, finish) (e, refl, refl),
        rw (same_test gen gen refl, finish) refl,
      )

  -- The event of results that are ready shows them, and leaves emptied lists ready.
  deliver_lem :
      (files contents : List (ListItem S)) (s : System S)
      → IsReady files contents s
      → (((deliver c s).ui.file_items ≡ files) × ((deliver c s).ui.content_items ≡ contents))
        × IsReady [] [] (deliver c s)
        × ((deliver c s).ui.field ≡ s.ui.field)
        × ((deliver c s).ui.shared.file_has_pending ≡ s.ui.shared.file_has_pending)
  unfolding deliver apply_file_results rebuild_items
  deliver_lem files contents s (a, b, g) =
      rw (same_test s.ui.shared.file_ready_gen s.ui.shared.file_gen g, deliver)
        ((a, b), (refl, refl, g), refl, refl)

  -- When a provider is asked at all, and whatever was going on when the query was changed, the
  -- worker and the event can bring the results of the new query to the screen without any other
  -- change, and then the worker has nothing more to do.
  pub results_arrive :
      (f : Field) (s : System S)
      → c.async_enabled ≡ true
      → (t : System S) × Later c (retyped c f s) t × IsShown f.query t × IsIdle t
  unfolding announce deliver
  results_arrive f s enabled =
      let s0 = retyped c f s in
      let (t, l, w, asked, e) =
        waits f.query s0.worker s0 refl (retyped-IsAsked f s enabled) (retyped_query f s) in
      let (u, m, ready, (e2, w2, p2), n) = answers f.query t w asked e in
      let v = announce u in
      let ((fs, cs), again, q, p) =
        deliver_lem (found c false f.query) (found c true f.query) v ready in
      let last =
        Later.and_then (Background.announced u w2) (one (Background.delivered v (omega arith))) in
      (deliver c v, join l (join m last), (fs, cs, ap (λ h. h.query) q ∙ e2), (refl, p ∙ p2))

  -- When a provider is asked at all and the worker has nothing to do, then two changes of the query
  -- can end with no results shown and nothing left to do, whatever the providers find: the event of
  -- the first results takes those of the second query, which are there by then, and the second
  -- event, written behind that, takes the emptied lists.
  pub results_lost :
      (f g : Field) (s : System S)
      → c.async_enabled ≡ true
      → IsIdle s
      → (t u : System S) × Later c (retyped c f s) t
        × Later c (retyped c g t) u
        × (u.ui.field.query ≡ g.query)
        × (u.ui.file_items ≡ [])
        × (u.ui.content_items ≡ [])
        × (u.signals ≡ 0)
        × IsIdle u
  unfolding announce deliver
  results_lost f g s enabled (w, p) =
      let (x, m, ready, (e, w1, p1), n) =
        answers f.query (retyped c f s) w (retyped-IsAsked f s enabled) (retyped_query f s) in
      let t = announce x in
      let (y, m2, ready2, (e2, w2, p2), n2) =
        answers g.query (retyped c g t) refl (retyped-IsAsked g t enabled) (retyped_query g t) in
      let (shown, empty, q3, p3) =
        deliver_lem (found c false g.query) (found c true g.query) y ready2 in
      let z = deliver c y in
      let ((fs, cs), empty2, q4, p4) = deliver_lem [] [] (announce z) empty in
      (
        t,
        deliver c (announce z),
        join m (one (Background.announced x w1)),
        join m2 (
            Later.and_then (Background.delivered y (omega (arith, n2))) (
              Later.and_then (Background.announced z w2)
                (one (Background.delivered (announce z) (omega arith))))),
        ap (λ h. h.query) (q4 ∙ q3) ∙ e2,
        fs,
        cs,
        refl,
        (refl, p4 ∙ (p3 ∙ p2)),
      )
