-- ===== src/Launcher/Providers.antt =====
-- What src/ui/launcher_ui.cpp makes of its result providers, which are given by the interface of
-- include/waylaunch/providers/result_provider.h: the items of a query, and who activates an item.
use waylaunch.Prelude.{
  ℕ, suc, Bool, true, false, not, ◌||◌, Option, none, some, List, [], ◌∷◌, ◌++◌,
}
use waylaunch.Prelude.Tests.{◌==◌, if◌then◌else◌}
use waylaunch.Prelude.Lists.{is_empty}
use waylaunch.Prelude.Int.{ℤ}
use waylaunch.Prelude.Text.{Text, codes, to_lower_text}
use waylaunch.Prelude.Decimal.{show_ℕ}
use waylaunch.History.Rows.{HistoryEntry}
use waylaunch.Launcher.Items.{ItemKind, ListItem}

pub record ProviderQuery : Type 0 where
  pub text : Text
  pub lower : Text
  pub max_results : ℤ

-- A provider in a fixed state of its own: its answers depend on the query alone. A change of that
-- state, as when a provider reloads its data, is no step of the model.
pub record ResultProvider {ℓ} (S : Type ℓ) : Type ℓ where
  pub is_available : Bool
  pub is_async : Bool
  pub query : ProviderQuery → List (ListItem S)
  pub activate : ListItem S → Bool

unfoldable pub is_content : ItemKind → Bool
is_content ItemKind.content = true
is_content _ = false

unfoldable pub provider_query : Text → ℤ → ProviderQuery
provider_query text max_results = record {
  text = text;
  lower = to_lower_text text;
  max_results = max_results;
}

module _ {ℓ} {S : Type ℓ} where
  -- The results of the providers that run on the main thread, in the order of registration.
  unfoldable pub sync_results : ProviderQuery → List (ResultProvider S) → List (ListItem S)
  sync_results q [] = []
  sync_results q (p ∷ ps) =
      let rest = sync_results q ps in
      if p.is_async || not p.is_available then rest else p.query q ++ rest

  -- The results of the others, less the content items, or those alone.
  unfoldable pub keep_content : Bool → List (ListItem S) → List (ListItem S)
  unfolding is_content
  keep_content content [] = []
  keep_content content (it ∷ items) =
      let rest = keep_content content items in
      let chosen = if content then is_content it.kind else not (is_content it.kind) in
      if chosen then it ∷ rest else rest

  unfoldable pub async_results : Bool → ProviderQuery → List (ResultProvider S) → List (ListItem S)
  unfolding keep_content
  async_results content q [] = []
  async_results content q (p ∷ ps) =
      let rest = async_results content q ps in
      if not p.is_async || not p.is_available
      then rest
      else keep_content content (p.query q) ++ rest

  -- The position of the provider that takes an item.
  unfoldable pub dispatch : ℕ → List (ResultProvider S) → ListItem S → Option ℕ
  dispatch i [] it = none
  dispatch i (p ∷ ps) it =
      let later = dispatch (suc i) ps it in if p.activate it then some i else later

  unfoldable pub history_key : ListItem S → Text
  history_key it = elim it.kind [
    | ItemKind.application ↦
        if is_empty it.reveal_path then codes "app:" ++ it.name else it.reveal_path
    | ItemKind.command ↦ codes "command:" ++ it.action_command
    | ItemKind.calculator ↦ codes "calculator"
    | ItemKind.file ↦ it.path
    | ItemKind.folder ↦ it.path
    | ItemKind.content ↦ it.path
    | ItemKind.history ↦ []
  ]

  -- What is shown in the file manager for an item.
  unfoldable pub reveal_target : ListItem S → Text
  reveal_target it = elim it.kind [
    | ItemKind.file ↦ it.path
    | ItemKind.folder ↦ it.path
    | ItemKind.content ↦ it.path
    | ItemKind.application ↦ it.reveal_path
    | _ ↦ []
  ]

  -- The items of the recent searches, from the one at `i`.
  unfoldable pub recent_items : (ℕ → S) → ℕ → List HistoryEntry → List (ListItem S)
  recent_items score i [] = []
  recent_items score i (e ∷ es) =
      let uses = show_ℕ e.uses ++ (if e.uses == 1 then codes " use" else codes " uses") in
      record {
        name = e.query;
        path = e.query;
        description = codes "Recent search " ++ (194 ∷ 183 ∷ codes " ") ++ uses;
        icon_name = codes "document-open-recent";
        action_command = [];
        reveal_path = [];
        snippet = [];
        kind = ItemKind.history;
        score = score i;
      }
      ∷ recent_items score (suc i) es
