-- ===== src/Launcher/Worker.antt =====
-- The file-search worker of src/ui/launcher_ui.cpp beside the main thread: file_worker_loop, the
-- part of run that reads its event, and kick_file_search and apply_file_results, step by step. A
-- step is what one thread does while it holds the mutex, or between two times that it does.
use waylaunch.Prelude.{ℕ, suc, ◌+◌, ◌<◌, ◌≡◌, Bool, true, false, List, []}
use waylaunch.Prelude.Tests.{◌==◌, if◌then◌else◌}
use waylaunch.Prelude.Int.{pos, max_ℤ}
use waylaunch.Prelude.Text.{Text}
use waylaunch.Launcher.Editor.{Field}
use waylaunch.Launcher.Items.{ListItem}
use waylaunch.Launcher.Providers.{provider_query, async_results}
use waylaunch.Launcher.Search.{Setup, Launcher, apply_file_results}
use waylaunch.Launcher.Input.{retype}

-- Where the worker is: before its wait, in the providers with a generation and a query, or before
-- the write of the event.
pub data Worker : Type 0 where
  waiting announcing : Worker
  searching : ℕ → Text → Worker

-- `signals` is the counter of the eventfd.
pub record System {ℓ} (S : Type ℓ) : Type ℓ where
  pub ui : Launcher S
  pub worker : Worker
  pub signals : ℕ

module _ {ℓ} {S : Type ℓ} where
  unfoldable pub take : System S → System S
  take s = record {
    ui = record s.ui { shared = record s.ui.shared { file_has_pending = false } };
    worker = Worker.searching s.ui.shared.file_gen s.ui.shared.file_pending_query;
    signals = s.signals;
  }

  unfoldable pub announce : System S → System S
  announce s = record s { worker = Worker.waiting; signals = s.signals + 1 }

module _ {ℓ} {S : Type ℓ} (c : Setup S) where
  -- What the providers find for a query, content items apart.
  unfoldable pub found : Bool → Text → List (ListItem S)
  found content query =
      async_results content (provider_query query (max_ℤ (pos 1) c.max_file_results)) c.providers

  unfoldable pub finish : ℕ → Text → System S → System S
  unfolding found
  finish gen query s =
      if gen == s.ui.shared.file_gen
      then record {
        ui = record s.ui {
          shared = record s.ui.shared {
            file_ready = found false query;
            content_ready = found true query;
            file_ready_gen = gen;
          };
        };
        worker = Worker.announcing;
        signals = s.signals;
      }
      else record s { worker = Worker.waiting }

  unfoldable pub deliver : System S → System S
  deliver s = record s { ui = apply_file_results c s.ui; signals = 0 }

  -- What happens while the query stays as it is.
  pub data Background : System S → System S → Type ℓ where
    taken :
        (s : System S)
        → s.worker ≡ Worker.waiting
        → s.ui.shared.file_has_pending ≡ true
        → Background s (take s)
    finished :
        (s : System S) (gen : ℕ) (query : Text)
        → s.worker ≡ Worker.searching gen query
        → Background s (finish gen query s)
    announced : (s : System S) → s.worker ≡ Worker.announcing → Background s (announce s)
    delivered : (s : System S) → 0 < s.signals → Background s (deliver s)

  pub data Later : System S → System S → Type ℓ where
    done : (s : System S) → Later s s
    and_then : {s t u : System S} → Background s t → Later t u → Later s u

  abbrev pub retyped : Field → System S → System S
  retyped f s = record s { ui = retype c f s.ui }

  -- Before the first query is typed.
  abbrev pub IsFresh : System S → Type ℓ
  IsFresh s =
      (s.ui.shared.file_has_pending ≡ false)
      × (s.ui.shared.file_gen ≡ 0)
      × (s.ui.shared.file_ready_gen ≡ 0)
      × (s.ui.shared.file_ready ≡ [])
      × (s.ui.shared.content_ready ≡ [])
      × (s.ui.file_items ≡ [])
      × (s.ui.content_items ≡ [])
      × (s.worker ≡ Worker.waiting)

  -- The systems that are reached when the query has changed a number of times.
  pub data Reach : ℕ → System S → Type ℓ where
    start : (s : System S) → IsFresh s → Reach 0 s
    typing : {n : ℕ} {s : System S} (f : Field) → Reach n s → Reach (suc n) (retyped f s)
    background : {n : ℕ} {s t : System S} → Reach n s → Background s t → Reach n t
