-- ===== src/Dropdown/JsonPayload.antt =====
-- parse_hypr_clients and parse_hypr_monitors of src/dropdown/hyprland_json.cpp. `to_int` is the
-- conversion of a floating-point number to an int.
use waylaunch.Prelude.{Bool, false, Option, none, some, List, []}
use waylaunch.Prelude.Tests.{if◌then◌else◌, ◌>>=◌}
use waylaunch.Prelude.Lists.{length}
use waylaunch.Prelude.Int.{ℤ, pos, negsuc}
use waylaunch.Prelude.Text.{Text, codes, text_eq}
use waylaunch.Dropdown.Ownership.{HyprClient}
use waylaunch.Dropdown.JsonString.{parse_string}
use waylaunch.Dropdown.Json.{expect, parse_bool, parse_number, skip_value, Member, members, array}

pub record HyprMonitor {ℓ} (D : Type ℓ) : Type ℓ where
  pub name : Text
  pub x : ℤ
  pub y : ℤ
  pub width : ℤ
  pub height : ℤ
  pub scale : D
  pub focused : Bool
  pub active_workspace : ℤ
  pub reserved_top : ℤ
  pub reserved_bottom : ℤ

abbrev pub no_client : HyprClient
no_client = record {
  address = [];
  klass = [];
  title = [];
  pid = negsuc 0;
  focus_history_id = negsuc 0;
  at_x = pos 0;
  at_y = pos 0;
  width = pos 0;
  height = pos 0;
  workspace_id = pos 0;
  workspace_name = [];
  monitor = pos 0;
  floating = false;
  mapped = false;
}

module _ {ℓ} {D : Type ℓ} (strtod : Text → Option (D × Text)) (to_int : D → ℤ) where
  unfoldable pub parse_int : Text → Option (ℤ × Text)
  parse_int s = do v ← parse_number strtod s; some (to_int v.0, v.1)

  unfoldable pub parse_int_pair : Text → Option ((ℤ × ℤ) × Text)
  unfolding parse_int
  parse_int_pair s = do
    s1 ← expect b'[' s
    a ← parse_int s1
    s2 ← expect b',' a.1
    b ← parse_int s2
    s3 ← expect b']' b.1
    some ((a.0, b.0), s3)

  unfoldable pub parse_reserved : Text → Option ((ℤ × ℤ) × Text)
  unfolding parse_int
  parse_reserved s = do
    s1 ← expect b'[' s
    left ← parse_int s1
    s2 ← expect b',' left.1
    top ← parse_int s2
    s3 ← expect b',' top.1
    right ← parse_int s3
    s4 ← expect b',' right.1
    bottom ← parse_int s4
    s5 ← expect b']' bottom.1
    some ((top.0, bottom.0), s5)

  abbrev pub kept {κ} : {A : Type κ} → A → Option Text → Option (A × Text)
  kept a none = none
  kept a (some s) = some (a, s)

  unfoldable pub workspace_member : Member (ℤ × Text)
  unfolding parse_int
  workspace_member key (id, name) s =
      if text_eq key (codes "id")
      then (do v ← parse_int s; some ((v.0, name), v.1))
      else if text_eq key (codes "name")
      then (do v ← parse_string s; some ((id, v.0), v.1))
      else kept (id, name) (skip_value strtod s)

  unfoldable pub parse_workspace : ℤ × Text → Text → Option ((ℤ × Text) × Text)
  unfolding workspace_member
  parse_workspace old s = do s' ← expect b'{' s; members workspace_member (length s') old s'

  unfoldable pub client_member : Member HyprClient
  unfolding parse_int parse_int_pair parse_workspace
  client_member key c s =
      if text_eq key (codes "address")
      then (do v ← parse_string s; some (record c { address = v.0 }, v.1))
      else if text_eq key (codes "class")
      then (do v ← parse_string s; some (record c { klass = v.0 }, v.1))
      else if text_eq key (codes "title")
      then (do v ← parse_string s; some (record c { title = v.0 }, v.1))
      else if text_eq key (codes "focusHistoryID")
      then (do v ← parse_int s; some (record c { focus_history_id = v.0 }, v.1))
      else if text_eq key (codes "pid")
      then (do v ← parse_int s; some (record c { pid = v.0 }, v.1))
      else if text_eq key (codes "at")
      then (do v ← parse_int_pair s; some (record c { at_x = v.0.0; at_y = v.0.1 }, v.1))
      else if text_eq key (codes "size")
      then (do v ← parse_int_pair s; some (record c { width = v.0.0; height = v.0.1 }, v.1))
      else if text_eq key (codes "workspace")
      then (do
        v ← parse_workspace (c.workspace_id, c.workspace_name) s
        some (record c { workspace_id = v.0.0; workspace_name = v.0.1 }, v.1))
      else if text_eq key (codes "monitor")
      then (do v ← parse_int s; some (record c { monitor = v.0 }, v.1))
      else if text_eq key (codes "floating")
      then (do v ← parse_bool s; some (record c { floating = v.0 }, v.1))
      else if text_eq key (codes "mapped")
      then (do v ← parse_bool s; some (record c { mapped = v.0 }, v.1))
      else kept c (skip_value strtod s)

  unfoldable pub parse_hypr_clients : Text → List HyprClient
  unfolding client_member
  parse_hypr_clients json = array client_member no_client json

  unfoldable pub monitor_member : Member (HyprMonitor D)
  unfolding parse_int parse_reserved parse_workspace
  monitor_member key m s =
      if text_eq key (codes "name")
      then (do v ← parse_string s; some (record m { name = v.0 }, v.1))
      else if text_eq key (codes "x")
      then (do v ← parse_int s; some (record m { x = v.0 }, v.1))
      else if text_eq key (codes "y")
      then (do v ← parse_int s; some (record m { y = v.0 }, v.1))
      else if text_eq key (codes "width")
      then (do v ← parse_int s; some (record m { width = v.0 }, v.1))
      else if text_eq key (codes "height")
      then (do v ← parse_int s; some (record m { height = v.0 }, v.1))
      else if text_eq key (codes "scale")
      then (do v ← parse_number strtod s; some (record m { scale = v.0 }, v.1))
      else if text_eq key (codes "focused")
      then (do v ← parse_bool s; some (record m { focused = v.0 }, v.1))
      else if text_eq key (codes "activeWorkspace")
      then (do
        v ← parse_workspace (m.active_workspace, []) s
        some (record m { active_workspace = v.0.0 }, v.1))
      else if text_eq key (codes "reserved")
      then (do
        v ← parse_reserved s
        some (record m { reserved_top = v.0.0; reserved_bottom = v.0.1 }, v.1))
      else kept m (skip_value strtod s)

  unfoldable pub parse_hypr_monitors : D → Text → List (HyprMonitor D)
  unfolding monitor_member
  parse_hypr_monitors one json =
      array monitor_member
        (record {
          name = [];
          x = pos 0;
          y = pos 0;
          width = pos 0;
          height = pos 0;
          scale = one;
          focused = false;
          active_workspace = pos 0;
          reserved_top = pos 0;
          reserved_bottom = pos 0;
        })
        json
