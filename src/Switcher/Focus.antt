-- ===== src/Switcher/Focus.antt =====
-- The window resolution and the requests of src/switcher/hyprland_focus.cpp; the socket is not.
use waylaunch.Prelude.{Bool, true, false, not, ◌&&◌, ◌||◌, Option, none, some, List, [], ◌∷◌, ◌++◌}
use waylaunch.Prelude.Tests.{ltb, ◌==◌, if◌then◌else◌}
use waylaunch.Prelude.Lists.{length, is_empty}
use waylaunch.Prelude.Text.{Text, codes, text_eq, is_xdigit}
use waylaunch.Dropdown.Ownership.{HyprClient}

unfoldable pub hypr_lua_escape : Text → Text
hypr_lua_escape [] = []
hypr_lua_escape (c ∷ s) =
    if c == 92 || c == 34 then 92 ∷ c ∷ hypr_lua_escape s else c ∷ hypr_lua_escape s

unfoldable pub all_xdigits : Text → Bool
all_xdigits [] = true
all_xdigits (c ∷ s) = is_xdigit c && all_xdigits s

-- The text from `start` on: behind the two bytes of a "0x" that more follows.
unfoldable pub without_0x : Text → Text
without_0x (c ∷ d ∷ e ∷ s) = if c == 48 && (d == 120 || d == 88) then e ∷ s else c ∷ d ∷ e ∷ s
without_0x s = s

unfoldable pub hypr_address_is_safe : Text → Bool
hypr_address_is_safe address =
    if is_empty address
    then false
    else if ltb 18 (length address)
    then false
    else all_xdigits (without_0x address)

unfoldable pub hypr_focus_payload_lua : Text → Text
hypr_focus_payload_lua address =
    codes "hl.dsp.focus({window=\"address:" ++ (hypr_lua_escape address ++ codes "\"})")

unfoldable pub hypr_focus_payload_stock : Text → Text
hypr_focus_payload_stock address = codes "focuswindow address:" ++ address

-- The three passes of pick_hypr_address.
unfoldable pub by_class_and_title : Text → Text → List HyprClient → Option Text
by_class_and_title app_id title [] = none
by_class_and_title app_id title (c ∷ cs) =
    if not (is_empty app_id)
      && (text_eq c.klass app_id
          && (not (is_empty title) && (text_eq c.title title && not (is_empty c.address))))
    then some c.address
    else by_class_and_title app_id title cs

unfoldable pub by_title : Text → List HyprClient → Option Text
by_title title [] = none
by_title title (c ∷ cs) =
    if text_eq c.title title && not (is_empty c.address) then some c.address else by_title title cs

unfoldable pub of_class : Text → List HyprClient → List HyprClient
of_class app_id [] = []
of_class app_id (c ∷ cs) =
    if text_eq c.klass app_id then c ∷ of_class app_id cs else of_class app_id cs

-- The address of the one client that there is.
unfoldable pub single : List HyprClient → Option Text
single (c ∷ []) = if is_empty c.address then none else some c.address
single _ = none

abbrev pub or_else : Option Text → Option Text → Option Text
or_else none o = o
or_else (some a) o = some a

unfoldable pub pick_hypr_address : List HyprClient → Text → Text → Option Text
pick_hypr_address clients app_id title = or_else (by_class_and_title app_id title clients) (
    or_else (if is_empty title then none else by_title title clients)
      (if is_empty app_id then none else single (of_class app_id clients)))
