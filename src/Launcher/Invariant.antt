-- ===== src/Launcher/Invariant.antt =====
-- What holds of the launcher's search between two events.
use waylaunch.Prelude.{
  ℕ, ◌-◌, ◌<◌, not, ◌&&◌, ◌≡◌, refl, inl, inr, Bool, true, false, [], ◌++◌, arith,
}
use waylaunch.Prelude.Tests.{if◌then◌else◌, Bool-cases, Option-cases, ◌==◌}
use waylaunch.Prelude.Lists.{length, is_empty}
use waylaunch.Prelude.Int.{ℤ, pos, ◌-ℤ◌, ◌≤ℤ◌, -ℤ_parts, max_ℤ, min_ℤ}
use waylaunch.History.Store.{record_use}
use waylaunch.Prelude.Text.{Text}
use waylaunch.Calculator.Fuel.{List-cases}
use waylaunch.Launcher.Items.{ItemKind, ListItem, relayout}
use waylaunch.Launcher.Providers.{history_key}
use waylaunch.Launcher.Search.{
  Setup, Launcher, combine, kept_selection, rebuild_items, update_search, apply_file_results,
  select_item, item?, autocomplete, quit, remember, activate, launch_selected, rebuild_app_items,
  kick_file_search, search_for,
}

module _ {ℓ} {S : Type ℓ} (c : Setup S) where
  -- The selection is on an item, or at 0 where there is none; the items and the rows are what the
  -- results and the query say.
  unfoldable pub IsCurrent : Launcher S → Type ℓ
  IsCurrent u =
      (pos 0 ≤ℤ u.selected_index)
      × (u.selected_index ≤ℤ pos (length u.items - 1))
      × (u.items ≡ combine c.above (u.app_items ++ u.file_items) u.content_items)
      × (u.slots ≡ relayout c.layout u.field.query u.items)

  kept_selection_range :
      (s : ℤ) (n : ℕ)
      → pos 0 ≤ℤ s
      → (pos 0 ≤ℤ kept_selection s n) × (kept_selection s n ≤ℤ pos (n - 1))
  unfolding kept_selection max_ℤ
  kept_selection_range s n h = ground (arith, -ℤ_parts (pos n) (pos 1))

  rebuild_items-IsCurrent :
      (u : Launcher S) → pos 0 ≤ℤ u.selected_index → IsCurrent (rebuild_items c u)
  unfolding IsCurrent rebuild_items
  rebuild_items-IsCurrent u h =
      let n = length (combine c.above (u.app_items ++ u.file_items) u.content_items) in
      let (a, b) = kept_selection_range u.selected_index n h in (a, b, refl, refl)

  pub update_search-IsCurrent : (u : Launcher S) → IsCurrent (update_search c u)
  unfolding update_search
  update_search-IsCurrent u =
      rebuild_items-IsCurrent
        (kick_file_search c (rebuild_app_items c (record u { selected_index = pos 0 })))
        (omega arith)

  selected_nonneg : (u : Launcher S) → IsCurrent u → pos 0 ≤ℤ u.selected_index
  unfolding IsCurrent
  selected_nonneg u (a, b, d, e) = a

  pub apply_file_results-IsCurrent :
      (u : Launcher S) → IsCurrent u → IsCurrent (apply_file_results c u)
  unfolding apply_file_results
  apply_file_results-IsCurrent u h =
      elim (Bool-cases (u.shared.file_ready_gen == u.shared.file_gen)) [
        | inl e ↦
            rw (e, apply_file_results)
              (rebuild_items-IsCurrent
                (record u {
                  file_items = u.shared.file_ready;
                  content_items = u.shared.content_ready;
                  shared = record u.shared { file_ready = []; content_ready = [] };
                })
                (selected_nonneg u h))
        | inr e ↦ rw (e, apply_file_results) h
      ]

  selected_range :
      (i : ℤ) (n : ℕ)
      → 0 < n
      → let s = max_ℤ (pos 0) (min_ℤ i (pos n -ℤ pos 1)) in (pos 0 ≤ℤ s) × (s ≤ℤ pos (n - 1))
  unfolding max_ℤ min_ℤ
  selected_range i n h = ground (arith, -ℤ_parts (pos n) (pos 1))

  pub select_item-IsCurrent : (i : ℤ) (u : Launcher S) → IsCurrent u → IsCurrent (select_item c i u)
  unfolding select_item IsCurrent
  select_item-IsCurrent i u (a, b, d, e) = elim (List-cases u.items) [
    | inl n ↦ rw (n, select_item) (a, rw n at b, rw n at d, rw n at e)
    | inr (it, items, n) ↦
        let (low, high) = selected_range i (length u.items) (rw n (omega arith)) in
        rw (n, select_item) (rw n at low, rw n at high, rw n at d, rw n at e)
  ]

  pub either :
      (b : Bool) (u v : Launcher S) → IsCurrent u → IsCurrent v → IsCurrent (if b then u else v)
  either true u v h k = h
  either false u v h k = k

  search_for-IsCurrent : (text : Text) (u : Launcher S) → IsCurrent (search_for c text u)
  search_for-IsCurrent text u =
      update_search-IsCurrent
        (record u { field = record { query = text; cursor_pos = length text } })

  complete :
      (k : ItemKind) (name : Text) (u : Launcher S)
      → IsCurrent u
      → IsCurrent (elim k [ ItemKind.application ↦ search_for c name u | _ ↦ u ])
  complete ItemKind.application name u h = search_for-IsCurrent name u
  complete _ name u h = h

  pub autocomplete-IsCurrent : (u : Launcher S) → IsCurrent u → IsCurrent (autocomplete c u)
  unfolding autocomplete
  autocomplete-IsCurrent u h = elim (Option-cases (item? c u.selected_index u)) [
    | inl n ↦ rw (n, autocomplete) h
    | inr (it, n) ↦ rw (n, autocomplete) (complete it.kind it.name u h)
  ]

  remember-IsCurrent :
      (now : ℤ) (it : ListItem S) (u : Launcher S) → IsCurrent u → IsCurrent (remember c now it u)
  unfolding remember IsCurrent
  remember-IsCurrent now it u h =
      either (c.history_enabled && not (is_empty u.field.query) && not (is_empty (history_key it)))
        (record u { history = (record_use u.history u.field.query (history_key it) it.name now).0 })
        u h h

  activate-IsCurrent :
      (now : ℤ) (it : ListItem S) (u : Launcher S) → IsCurrent u → IsCurrent (activate c now it u)
  unfolding activate quit IsCurrent
  activate-IsCurrent now it u h = remember-IsCurrent now it u h

  launch :
      (k : ItemKind) (now : ℤ) (it : ListItem S) (u : Launcher S)
      → IsCurrent u
      → IsCurrent (elim k [ ItemKind.history ↦ search_for c it.path u | _ ↦ activate c now it u ])
  launch ItemKind.history now it u h = search_for-IsCurrent it.path u
  launch _ now it u h = activate-IsCurrent now it u h

  pub launch_selected-IsCurrent :
      (now : ℤ) (u : Launcher S) → IsCurrent u → IsCurrent (launch_selected c now u)
  unfolding launch_selected
  launch_selected-IsCurrent now u h = elim (Option-cases (item? c u.selected_index u)) [
    | inl n ↦ rw (n, launch_selected) h
    | inr (it, n) ↦ rw (n, launch_selected) (launch it.kind now it u h)
  ]
