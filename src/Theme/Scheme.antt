-- ===== src/Theme/Scheme.antt =====
-- How the tokens of a Material scheme become colours: pick_token, use_token, apply_scheme and
-- lighten_hex of src/config/matugen_theme.cpp. A map of tokens is the function that finds a key.
-- `raised` is what lround gives for (255 - v) * amount, which is not negative for a clamped amount.
use waylaunch.Prelude.{ℕ, ◌+◌, ◌-◌, ◌*◌, ◌/◌, ◌%◌, ◌&&◌, Option, none, some, List, [], ◌∷◌}
use waylaunch.Prelude.Tests.{ltb, leb, ◌==◌, if◌then◌else◌, ◌>>=◌}
use waylaunch.Prelude.Lists.{is_empty}
use waylaunch.Prelude.Text.{Text, codes}

pub record ColorConfig : Type 0 where
  pub background : Text
  pub background_alt : Text
  pub foreground : Text
  pub text_muted : Text
  pub accent : Text
  pub accent_hover : Text
  pub error : Text
  pub warning : Text
  pub success : Text
  pub border : Text
  pub selection : Text

abbrev pub Tokens : Type 0
Tokens = Text → Option Text

abbrev not_empty_or : Option Text → Text → Text
not_empty_or none other = other
not_empty_or (some []) other = other
not_empty_or (some (c ∷ s)) other = c ∷ s

unfoldable pub pick_token : Tokens → List Text → Text
pick_token scheme [] = []
pick_token scheme (key ∷ keys) = not_empty_or (scheme key) (pick_token scheme keys)

unfoldable pub use_token : Text → Text → Text
use_token slot [] = slot
use_token slot (c ∷ s) = c ∷ s

unfoldable pub nibble : ℕ → Option ℕ
nibble c =
    if leb b'0' c && leb c b'9'
    then some (c - b'0')
    else if leb b'a' c && leb c b'f'
    then some (c - b'a' + 10)
    else if leb b'A' c && leb c b'F'
    then some (c - b'A' + 10)
    else none

-- A digit of `%02x`.
unfoldable pub hex_char : ℕ → ℕ
hex_char n = if ltb n 10 then b'0' + n else b'a' + (n - 10)

abbrev without_hash : Text → Text
without_hash [] = []
without_hash (c ∷ s) = if c == b'#' then s else c ∷ s

abbrev doubled : Text → Text
doubled (a ∷ b ∷ c ∷ []) = a ∷ a ∷ b ∷ b ∷ c ∷ c ∷ []
doubled s = s

module _ (raised : ℕ → ℕ) where
  unfoldable pub lifted : ℕ → ℕ
  lifted v = if ltb 255 (v + raised v) then 255 else v + raised v

  unfoldable pub channel : ℕ → ℕ → Option ℕ
  unfolding lifted
  channel h l = do hi ← nibble h; lo ← nibble l; some (lifted (hi * 16 + lo))

  unfoldable pub six_digits : Text → Option Text
  unfolding channel
  six_digits (a ∷ b ∷ c ∷ d ∷ e ∷ f ∷ []) = do
    red ← channel a b
    green ← channel c d
    blue ← channel e f
    some (
        b'#'
        ∷ hex_char (red / 16)
        ∷ hex_char (red % 16)
        ∷ hex_char (green / 16)
        ∷ hex_char (green % 16)
        ∷ hex_char (blue / 16)
        ∷ hex_char (blue % 16)
        ∷ [])
  six_digits s = none

  unfoldable pub lighten_hex : Text → Text
  unfolding six_digits
  lighten_hex hex = elim (six_digits (doubled (without_hash hex))) [
    | none ↦ hex
    | some color ↦ color
  ]

  unfoldable pub hover_of : Text → Text → Text
  unfolding lighten_hex
  hover_of hover primary = if is_empty primary then hover else lighten_hex primary

  unfoldable pub with_scheme : ColorConfig → Tokens → ColorConfig
  unfolding hover_of
  with_scheme base scheme = record {
    background = use_token base.background (pick_token scheme (codes "background" ∷ []));
    background_alt = use_token base.background_alt (
        pick_token scheme (
          codes "surface_container"
          ∷ codes "surface_container_high"
          ∷ codes "surface_variant"
          ∷ []));
    foreground = use_token base.foreground (pick_token scheme (codes "on_surface" ∷ []));
    text_muted = use_token base.text_muted (pick_token scheme (codes "on_surface_variant" ∷ []));
    accent = use_token base.accent (pick_token scheme (codes "primary" ∷ []));
    accent_hover = hover_of base.accent_hover (pick_token scheme (codes "primary" ∷ []));
    error = use_token base.error (pick_token scheme (codes "error" ∷ []));
    warning = use_token base.warning (pick_token scheme (codes "warning" ∷ codes "tertiary" ∷ []));
    success = use_token base.success (pick_token scheme (codes "success" ∷ codes "secondary" ∷ []));
    border =
        use_token base.border (pick_token scheme (codes "outline_variant" ∷ codes "outline" ∷ []));
    selection =
        use_token base.selection
          (pick_token scheme (codes "secondary_container" ∷ codes "primary_container" ∷ []));
  }

unfoldable pub with_direct : ColorConfig → Tokens → ColorConfig
with_direct out direct = record {
  background = use_token out.background (pick_token direct (codes "background" ∷ []));
  background_alt = use_token out.background_alt (pick_token direct (codes "background_alt" ∷ []));
  foreground = use_token out.foreground (pick_token direct (codes "foreground" ∷ []));
  text_muted = use_token out.text_muted (pick_token direct (codes "text_muted" ∷ []));
  accent = use_token out.accent (pick_token direct (codes "accent" ∷ []));
  accent_hover = use_token out.accent_hover (pick_token direct (codes "accent_hover" ∷ []));
  error = use_token out.error (pick_token direct (codes "error" ∷ []));
  warning = use_token out.warning (pick_token direct (codes "warning" ∷ []));
  success = use_token out.success (pick_token direct (codes "success" ∷ []));
  border = use_token out.border (pick_token direct (codes "border" ∷ []));
  selection = use_token out.selection (pick_token direct (codes "selection" ∷ []));
}

unfoldable pub apply_scheme : (ℕ → ℕ) → ColorConfig → Tokens → Tokens → ColorConfig
apply_scheme raised base scheme direct = with_direct (with_scheme raised base scheme) direct
