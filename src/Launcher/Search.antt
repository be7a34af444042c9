-- ===== src/Launcher/Search.antt =====
-- The search of src/ui/launcher_ui.cpp: its state, how the results are put together, and what
-- selecting and activating one does. What only drawing reads is left out.
use waylaunch.Prelude.{
  ℕ, zero, suc, ◌+◌, ◌%◌, ◌^◌, Bool, true, false, not, ◌&&◌, Option, none, some, List, [], ◌∷◌,
  ◌++◌,
}
use waylaunch.Prelude.Tests.{◌==◌, if◌then◌else◌}
use waylaunch.Prelude.Lists.{length, is_empty, get_elem?}
use waylaunch.Prelude.Int.{ℤ, pos, negsuc, ◌-ℤ◌, max_ℤ, min_ℤ, leb_ℤ}
use waylaunch.Prelude.Text.{Text}
use waylaunch.History.Store.{HistoryStore, recent, record_use}
use waylaunch.Launcher.Items.{ItemKind, ListItem, SpotlightLayout, Slots, relayout}
use waylaunch.Launcher.Editor.{Field}
use waylaunch.Launcher.Providers.{
  ResultProvider, provider_query, sync_results, dispatch, history_key, recent_items,
}

-- What init leaves as it is: `above` is `>` on scores, `recent_score i` is 1000 - i, and
-- `async_enabled` is the `enabled` of kick_file_search.
pub record Setup {ℓ} (S : Type ℓ) : Type ℓ where
  pub layout : SpotlightLayout
  pub max_recent : ℕ
  pub providers : List (ResultProvider S)
  pub history_enabled : Bool
  pub async_enabled : Bool
  pub max_file_results : ℤ
  pub above : S → S → Bool
  pub recent_score : ℕ → S

-- What the mutex guards. Its generation is a `uint64_t`.
pub record Shared {ℓ} (S : Type ℓ) : Type ℓ where
  pub file_pending_query : Text
  pub file_has_pending : Bool
  pub file_gen : ℕ
  pub file_ready : List (ListItem S)
  pub content_ready : List (ListItem S)
  pub file_ready_gen : ℕ

pub record Launcher {ℓ} (S : Type ℓ) : Type ℓ where
  pub field : Field
  pub selected_index : ℤ
  pub items : List (ListItem S)
  pub app_items : List (ListItem S)
  pub file_items : List (ListItem S)
  pub content_items : List (ListItem S)
  pub slots : Slots
  pub shared : Shared S
  pub history : HistoryStore
  pub activated : List (ListItem S × Option ℕ)
  pub running : Bool

unfoldable pub kept_selection : ℤ → ℕ → ℤ
kept_selection selected n =
    if leb_ℤ (pos n) selected then max_ℤ (pos 0) (pos n -ℤ pos 1) else selected

module _ {ℓ} {S : Type ℓ} where
  -- The loop for the best score: the score and the index of the best so far, and the next index.
  unfoldable pub best_from : (S → S → Bool) → S → ℕ → ℕ → List (ListItem S) → ℕ
  best_from above score best i [] = best
  best_from above score best i (it ∷ items) =
      let better = above it.score score in
      best_from above (if better then it.score else score) (if better then i else best) (suc i)
        items

  abbrev pub item_at : ListItem S → List (ListItem S) → ℕ → ListItem S
  item_at it [] i = it
  item_at it (a ∷ items) zero = a
  item_at it (a ∷ items) (suc i) = item_at it items i

  abbrev pub without : List (ListItem S) → ℕ → List (ListItem S)
  without [] i = []
  without (a ∷ items) zero = items
  without (a ∷ items) (suc i) = a ∷ without items i

  -- The items of rebuild_items: the candidates with the best one first, then the content matches.
  unfoldable pub combine :
      (S → S → Bool) → List (ListItem S) → List (ListItem S) → List (ListItem S)
  unfolding best_from
  combine above [] content = content
  combine above (it ∷ items) content =
      let best = best_from above it.score 0 1 items in
      item_at it (it ∷ items) best ∷ (without (it ∷ items) best ++ content)

  unfoldable pub kick : Bool → Text → Shared S → Shared S
  kick enabled query s = record s {
    file_gen = (s.file_gen + 1) % 2 ^ 64;
    file_pending_query = if enabled then query else s.file_pending_query;
    file_has_pending = if enabled then true else s.file_has_pending;
  }

module _ {ℓ} {S : Type ℓ} (c : Setup S) where
  unfoldable pub rebuild_items : Launcher S → Launcher S
  unfolding combine kept_selection
  rebuild_items u =
      let items = combine c.above (u.app_items ++ u.file_items) u.content_items in
      record u {
        items = items;
        selected_index = kept_selection u.selected_index (length items);
        slots = relayout c.layout u.field.query items;
      }

  unfoldable pub app_items_of : Launcher S → List (ListItem S)
  app_items_of u =
      if is_empty u.field.query
      then (if c.history_enabled
          then recent_items c.recent_score 0 (recent u.history c.max_recent)
          else [])
      else sync_results (provider_query u.field.query c.layout.max_per_group) c.providers

  unfoldable pub rebuild_app_items : Launcher S → Launcher S
  unfolding app_items_of
  rebuild_app_items u = record u { app_items = app_items_of u }

  unfoldable pub kick_file_search : Launcher S → Launcher S
  unfolding kick
  kick_file_search u = record u {
    file_items = [];
    content_items = [];
    shared = kick c.async_enabled u.field.query u.shared;
  }

  unfoldable pub update_search : Launcher S → Launcher S
  unfolding rebuild_items rebuild_app_items kick_file_search
  update_search u =
      rebuild_items (kick_file_search (rebuild_app_items (record u { selected_index = pos 0 })))

  -- The vectors of the results that were taken are empty.
  unfoldable pub apply_file_results : Launcher S → Launcher S
  unfolding rebuild_items
  apply_file_results u =
      if not (u.shared.file_ready_gen == u.shared.file_gen)
      then u
      else rebuild_items (record u {
        file_items = u.shared.file_ready;
        content_items = u.shared.content_ready;
        shared = record u.shared { file_ready = []; content_ready = [] };
      })

  unfoldable pub select_item : ℤ → Launcher S → Launcher S
  select_item index u =
      if is_empty u.items
      then u
      else record u { selected_index = max_ℤ (pos 0) (min_ℤ index (pos (length u.items) -ℤ pos 1)) }

  -- `items_[i]`, where there is such an item.
  abbrev pub item? : ℤ → Launcher S → Option (ListItem S)
  item? (pos i) u = get_elem? u.items i
  item? (negsuc i) u = none

  abbrev pub search_for : Text → Launcher S → Launcher S
  search_for text u =
      update_search (record u { field = record { query = text; cursor_pos = length text } })

  unfoldable pub autocomplete : Launcher S → Launcher S
  unfolding update_search
  autocomplete u = elim (item? u.selected_index u) [
    | none ↦ u
    | some it ↦ elim it.kind [ ItemKind.application ↦ search_for it.name u | _ ↦ u ]
  ]

  unfoldable pub quit : Launcher S → Launcher S
  quit u = record u { running = false }

  unfoldable pub remember : ℤ → ListItem S → Launcher S → Launcher S
  remember now it u =
      if c.history_enabled && not (is_empty u.field.query) && not (is_empty (history_key it))
      then record u {
        history = (record_use u.history u.field.query (history_key it) it.name now).0;
      }
      else u

  -- The rest of launch_selected, for an item that is no recent search.
  unfoldable pub activate : ℤ → ListItem S → Launcher S → Launcher S
  unfolding quit remember
  activate now it u =
      let v = remember now it u in
      quit (record v { activated = (it, dispatch 0 c.providers it) ∷ v.activated })

  unfoldable pub launch_selected : ℤ → Launcher S → Launcher S
  unfolding update_search activate
  launch_selected now u = elim (item? u.selected_index u) [
    | none ↦ u
    | some it ↦ elim it.kind [ ItemKind.history ↦ search_for it.path u | _ ↦ activate now it u ]
  ]
