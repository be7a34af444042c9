-- ===== src/Launcher/Delivery.antt =====
-- What the worker's results come to: those of an earlier query are never shown, and those of the
-- current one can be.
use waylaunch.Prelude.{
  ℕ, suc, ◌^◌, ◌<◌, ◌≤◌, ◌≡◌, refl, ap, ◌∙◌, ◌⊎◌, inl, inr, Bool, true, false, List, [], arith,
}
use waylaunch.Prelude.Tests.{◌==◌, if◌then◌else◌, Bool-cases, ==_iff}
use waylaunch.Prelude.Text.{Text}
use waylaunch.Launcher.Editor.{Field}
use waylaunch.Launcher.Items.{ListItem}
use waylaunch.Launcher.Search.{
  Setup, apply_file_results, update_search, rebuild_items, rebuild_app_items, kick_file_search,
  kick,
}
use waylaunch.Launcher.Input.{retype}
use waylaunch.Launcher.Worker.{
  Worker, System, Background, Reach, IsFresh, take, announce, found, finish, deliver, retyped,
}

kicked_query :
    (enabled pending : Bool) (old query : Text)
    → (pending ≡ true → enabled ≡ true)
    → (if enabled then true else pending) ≡ true
    → (if enabled then query else old) ≡ query
kicked_query true pending old query h e = refl
kicked_query false pending old query h e = absurd (cc (h e))

kicked_enabled :
    (enabled pending : Bool)
    → (pending ≡ true → enabled ≡ true)
    → (if enabled then true else pending) ≡ true
    → enabled ≡ true
kicked_enabled true pending h e = refl
kicked_enabled false pending h e = h e

module _ {ℓ} {S : Type ℓ} (c : Setup S) where
  -- Both lists are empty, or they are what the providers find for the query.
  abbrev pub AreResults : Text → List (ListItem S) → List (ListItem S) → Type ℓ
  AreResults q files contents =
      ((files ≡ []) × (contents ≡ [])) ⊎ ((files ≡ found c false q) × (contents ≡ found c true q))

  WorkerIsSound : ℕ → Text → Worker → Type 0
  WorkerIsSound n q (Worker.searching gen query) = (gen ≤ n) × (gen ≡ n → query ≡ q)
  WorkerIsSound n q _ = Unit

  record IsSound (n : ℕ) (s : System S) : Type ℓ where
    gen_ok : s.ui.shared.file_gen ≡ n
    worker_ok : WorkerIsSound n s.ui.field.query s.worker
    pending_ok :
        s.ui.shared.file_has_pending ≡ true → s.ui.shared.file_pending_query ≡ s.ui.field.query
    enabled_ok : s.ui.shared.file_has_pending ≡ true → c.async_enabled ≡ true
    before_ok : s.ui.shared.file_ready_gen ≤ n
    ready_ok :
        s.ui.shared.file_ready_gen ≡ n
        → AreResults s.ui.field.query s.ui.shared.file_ready s.ui.shared.content_ready
    shown_ok : AreResults s.ui.field.query s.ui.file_items s.ui.content_items

  start-IsSound : (s : System S) → IsFresh c s → IsSound 0 s
  unfolding WorkerIsSound
  start-IsSound s (pending, gen, ready_gen, ready, contents, files, shown, worker) = record {
    gen_ok = gen;
    worker_ok = rw (worker, WorkerIsSound) tt;
    pending_ok = λ h. cc;
    enabled_ok = λ h. cc;
    before_ok = omega arith;
    ready_ok = λ h. inl (ready, contents);
    shown_ok = inl (files, shown);
  }

  worker_outdated :
      (n : ℕ) (q r : Text) (w : Worker) → WorkerIsSound n q w → WorkerIsSound (suc n) r w
  unfolding WorkerIsSound
  worker_outdated n q r (Worker.searching gen query) (a, b) =
      (omega (arith, a), λ e. absurd (omega (arith, a, e)))
  worker_outdated n q r _ h = tt

  typing-IsSound :
      (n : ℕ) (s : System S) (f : Field)
      → suc n < 2 ^ 64
      → IsSound n s
      → IsSound (suc n) (retyped c f s)
  unfolding retype update_search rebuild_items rebuild_app_items kick_file_search kick WorkerIsSound
  typing-IsSound n s f small h = record {
    gen_ok = omega (arith, small, h.gen_ok);
    worker_ok = worker_outdated n s.ui.field.query f.query s.worker h.worker_ok;
    pending_ok =
        kicked_query c.async_enabled s.ui.shared.file_has_pending s.ui.shared.file_pending_query
          f.query h.enabled_ok;
    enabled_ok = kicked_enabled c.async_enabled s.ui.shared.file_has_pending h.enabled_ok;
    before_ok = omega (arith, h.before_ok);
    ready_ok = λ e. absurd (omega (arith, h.before_ok, e));
    shown_ok = inl (refl, refl);
  }

  taken-IsSound :
      (n : ℕ) (s : System S)
      → s.ui.shared.file_has_pending ≡ true
      → IsSound n s
      → IsSound n (take s)
  unfolding take WorkerIsSound
  taken-IsSound n s p h = record {
    gen_ok = h.gen_ok;
    worker_ok = (omega (arith, h.gen_ok), λ e. h.pending_ok p);
    pending_ok = λ e. cc;
    enabled_ok = λ e. cc;
    before_ok = h.before_ok;
    ready_ok = h.ready_ok;
    shown_ok = h.shown_ok;
  }

  finished-IsSound :
      (n gen : ℕ) (query : Text) (s : System S)
      → s.worker ≡ Worker.searching gen query
      → IsSound n s
      → IsSound n (finish c gen query s)
  unfolding finish WorkerIsSound
  finished-IsSound n gen query s w h =
      let (a, b) = rw (w, WorkerIsSound) at h.worker_ok in
      elim (Bool-cases (gen == s.ui.shared.file_gen)) [
        | inl e ↦
            let current : gen ≡ n = (==_iff gen s.ui.shared.file_gen).0 e ∙ h.gen_ok in
            let same : query ≡ s.ui.field.query = b current in
            rw (e, finish)
              (record {
                gen_ok = h.gen_ok;
                worker_ok = tt;
                pending_ok = h.pending_ok;
                enabled_ok = h.enabled_ok;
                before_ok = a;
                ready_ok = λ r. inr (ap (found c false) same, ap (found c true) same);
                shown_ok = h.shown_ok;
              })
        | inr e ↦
            rw (e, finish)
              (record {
                gen_ok = h.gen_ok;
                worker_ok = tt;
                pending_ok = h.pending_ok;
                enabled_ok = h.enabled_ok;
                before_ok = h.before_ok;
                ready_ok = h.ready_ok;
                shown_ok = h.shown_ok;
              })
      ]

  announced-IsSound : (n : ℕ) (s : System S) → IsSound n s → IsSound n (announce s)
  unfolding announce WorkerIsSound
  announced-IsSound n s h = record {
    gen_ok = h.gen_ok;
    worker_ok = tt;
    pending_ok = h.pending_ok;
    enabled_ok = h.enabled_ok;
    before_ok = h.before_ok;
    ready_ok = h.ready_ok;
    shown_ok = h.shown_ok;
  }

  delivered-IsSound : (n : ℕ) (s : System S) → IsSound n s → IsSound n (deliver c s)
  unfolding deliver apply_file_results rebuild_items
  delivered-IsSound n s h = elim (Bool-cases (s.ui.shared.file_ready_gen == s.ui.shared.file_gen)) [
    | inl e ↦
        let current : s.ui.shared.file_ready_gen ≡ n =
          (==_iff s.ui.shared.file_ready_gen s.ui.shared.file_gen).0 e ∙ h.gen_ok in
        rw (e, deliver)
          (record {
            gen_ok = h.gen_ok;
            worker_ok = h.worker_ok;
            pending_ok = h.pending_ok;
            enabled_ok = h.enabled_ok;
            before_ok = h.before_ok;
            ready_ok = λ r. inl (refl, refl);
            shown_ok = h.ready_ok current;
          })
    | inr e ↦
        rw (e, deliver)
          (record {
            gen_ok = h.gen_ok;
            worker_ok = h.worker_ok;
            pending_ok = h.pending_ok;
            enabled_ok = h.enabled_ok;
            before_ok = h.before_ok;
            ready_ok = h.ready_ok;
            shown_ok = h.shown_ok;
          })
  ]

  background-IsSound : (n : ℕ) (s t : System S) → Background c s t → IsSound n s → IsSound n t
  background-IsSound n a b (Background.taken s w p) h = taken-IsSound n s p h
  background-IsSound n a b (Background.finished s gen query w) h =
      finished-IsSound n gen query s w h
  background-IsSound n a b (Background.announced s w) h = announced-IsSound n s h
  background-IsSound n a b (Background.delivered s w) h = delivered-IsSound n s h

  reached-IsSound : {n : ℕ} {s : System S} → n < 2 ^ 64 → Reach c n s → IsSound n s
  reached-IsSound b (Reach.start s f) = start-IsSound s f
  reached-IsSound b (Reach.typing {n} {s} f r) =
      typing-IsSound n s f b (reached-IsSound (omega arith) r)
  reached-IsSound b (Reach.background {n} {s} {t} r d) =
      background-IsSound n s t d (reached-IsSound b r)

  -- As long as the query has changed fewer than 2^64 times, however the worker, its event and the
  -- main thread take turns, the file and content results that are shown are none or those of the
  -- query in the field.
  pub shown_current :
      (n : ℕ) (s : System S)
      → n < 2 ^ 64
      → Reach c n s
      → AreResults s.ui.field.query s.ui.file_items s.ui.content_items
  shown_current n s b r = let h = reached-IsSound b r in h.shown_ok
