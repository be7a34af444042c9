-- ===== src/Power/Backend.antt =====
-- PowerActionBackend: src/power/power_action_backend.cpp and its header, with PowerConfig of
-- include/waylaunch/config.h. A `std::map` of the configuration is its `find`. What the host
-- answers (PATH, the environment, the user id in decimal) is a record; running the command is
-- Subprocess::run.
use waylaunch.Prelude.{
  ℕ, Bool, true, false, not, ◌&&◌, ◌||◌, Option, none, some, List, [], ◌∷◌, ◌++◌,
}
use waylaunch.Prelude.Tests.{◌==◌, if◌then◌else◌}
use waylaunch.Prelude.Lists.{is_empty}
use waylaunch.Prelude.Int.{ℤ, negsuc}
use waylaunch.Prelude.Text.{Text, codes, text_eq}
use waylaunch.Power.Dialog.{PowerAction}

pub record PowerConfig : Type 0 where
  pub enabled_actions : List Text
  pub commands : Text → Option Text
  pub confirm_text : Text → Option Text

pub record ActionDefault : Type 0 where
  pub id : Text
  pub name : Text
  pub command : Text
  pub icon : Text
  pub phrase : Text
  pub session_ending : Bool

unfoldable pub subtext_of_ending : Text
subtext_of_ending = codes "Open apps will be closed. Unsaved work will be lost."

unfoldable pub defaults : List ActionDefault
defaults =
    record {
      id = codes "lock";
      name = codes "Lock";
      command = codes "loginctl lock-session";
      icon = codes "system-lock-screen";
      phrase = [];
      session_ending = false;
    }
    ∷ record {
      id = codes "restart";
      name = codes "Restart";
      command = codes "systemctl reboot";
      icon = codes "system-reboot";
      phrase = codes "restart your computer";
      session_ending = true;
    }
    ∷ record {
      id = codes "exit";
      name = codes "Exit";
      command = codes "wayland-logout";
      icon = codes "system-log-out";
      phrase = codes "log out now";
      session_ending = true;
    }
    ∷ record {
      id = codes "hibernate";
      name = codes "Hibernate";
      command = codes "systemctl hibernate";
      icon = codes "system-suspend-hibernate";
      phrase = codes "hibernate your computer";
      session_ending = false;
    }
    ∷ record {
      id = codes "suspend";
      name = codes "Suspend";
      command = codes "systemctl suspend";
      icon = codes "system-suspend";
      phrase = codes "put your computer to sleep";
      session_ending = false;
    }
    ∷ record {
      id = codes "shutdown";
      name = codes "Shut Down";
      command = codes "systemctl poweroff";
      icon = codes "system-shutdown";
      phrase = codes "shut down your computer now";
      session_ending = true;
    }
    ∷ []

abbrev systemctl : Text
systemctl = codes "systemctl"

abbrev loginctl : Text
loginctl = codes "loginctl"

unfoldable pub is_power_verb : Text → Bool
is_power_verb v =
    text_eq v (codes "poweroff")
    || (text_eq v (codes "reboot")
        || (text_eq v (codes "suspend") || text_eq v (codes "hibernate")))

unfoldable pub compose_headline : Text → Text
compose_headline phrase = codes "Are you sure you want to " ++ (phrase ++ codes "?")

-- The loop of split_argv; a `quote` of 0 is none.
unfoldable pub split_from : List Text → Text → Bool → ℕ → Text → List Text
split_from argv cur in_word quote [] = if in_word then argv ++ cur ∷ [] else argv
split_from argv cur in_word quote (c ∷ s) =
    let closed = split_from argv cur in_word 0 s in
    let kept = split_from argv (cur ++ c ∷ []) in_word quote s in
    let opened = split_from argv cur true c s in
    let pushed = split_from (argv ++ cur ∷ []) [] false quote s in
    let skipped = split_from argv cur in_word quote s in
    let grown = split_from argv (cur ++ c ∷ []) true quote s in
    if not (quote == 0)
    then (if c == quote then closed else kept)
    else if c == 39 || c == 34
    then opened
    else if c == 32 || c == 9
    then (if in_word then pushed else skipped)
    else grown

unfoldable pub split_argv : Text → List Text
split_argv command = split_from [] [] false 0 command

-- `std::ranges::find_if` over the defaults.
unfoldable pub find_default : Text → List ActionDefault → Option ActionDefault
find_default id [] = none
find_default id (d ∷ ds) = if text_eq id d.id then some d else find_default id ds

abbrev pub found_or : Option Text → Text → Text
found_or none d = d
found_or (some t) d = t

unfoldable pub build_action : PowerConfig → ActionDefault → PowerAction
build_action cfg d =
    let destructive = not (is_empty d.phrase) in
    record {
      id = d.id;
      name = d.name;
      argv = split_argv (found_or (cfg.commands d.id) d.command);
      icon_name = d.icon;
      confirm_text =
          if destructive then compose_headline (found_or (cfg.confirm_text d.id) d.phrase) else [];
      subtext = if d.session_ending then subtext_of_ending else [];
      destructive = destructive;
    }

-- The constructor's loop over the enabled ids.
unfoldable pub build_actions : PowerConfig → List Text → List PowerAction
build_actions cfg [] = []
build_actions cfg (id ∷ ids) = elim (find_default id defaults) [
  | none ↦ build_actions cfg ids
  | some d ↦ build_action cfg d ∷ build_actions cfg ids
]

unfoldable pub actions : PowerConfig → List PowerAction
actions cfg = build_actions cfg cfg.enabled_actions

-- What the code asks of the host at action time.
pub record Host : Type 0 where
  pub command_exists : Text → Bool
  pub session_id : Option Text
  pub uid : Text

session_target : Host → Option Text → List Text
session_target host none = loginctl ∷ codes "terminate-user" ∷ host.uid ∷ []
session_target host (some []) = loginctl ∷ codes "terminate-user" ∷ host.uid ∷ []
session_target host (some (c ∷ sid)) = loginctl ∷ codes "terminate-session" ∷ (c ∷ sid) ∷ []

unfoldable pub exit_fallback : Host → Text → List Text → List Text
unfolding session_target
exit_fallback host id [] = []
exit_fallback host id (a ∷ args) =
    if text_eq id (codes "exit") && not (host.command_exists a)
    then session_target host host.session_id
    else a ∷ args

unfoldable pub normalize_verb : Host → List Text → List Text
normalize_verb host (a ∷ v ∷ args) =
    if is_power_verb v
    then if text_eq a loginctl && host.command_exists systemctl
      then systemctl ∷ v ∷ args
      else if text_eq a systemctl
          && (not (host.command_exists systemctl) && host.command_exists loginctl)
      then loginctl ∷ v ∷ args
      else a ∷ v ∷ args
    else a ∷ v ∷ args
normalize_verb host argv = argv

unfoldable pub resolve_argv : Host → PowerAction → List Text
resolve_argv host a = normalize_verb host (exit_fallback host a.id a.argv)

-- `run` is the exit code of Subprocess::run.
unfoldable pub execute : Host → (List Text → ℤ) → PowerAction → ℤ
execute host run a = let argv = resolve_argv host a in if is_empty argv then negsuc 0 else run argv
