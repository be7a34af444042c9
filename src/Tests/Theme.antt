-- ===== src/Tests/Theme.antt =====
-- The colours of the launcher at concrete inputs.
use waylaunch.Prelude.{◌≡◌, refl, none, some, ◌∷◌}
use waylaunch.Prelude.Tests.{if◌then◌else◌}
use waylaunch.Prelude.Text.{codes, text_eq}
use waylaunch.Theme.Scheme.{
  ColorConfig, Tokens, apply_scheme, lighten_hex, six_digits, channel, lifted, nibble, hex_char,
}
use waylaunch.Theme.Slots.{
  Slot, color_of, slot_name, material, first_of, find_all, base_color, apply_scheme-first_of,
}

abbrev plain : ColorConfig
plain = record {
  background = codes "#1e1e2e";
  background_alt = codes "#313244";
  foreground = codes "#cdd6f4";
  text_muted = codes "#6c7086";
  accent = codes "#89b4fa";
  accent_hover = codes "#b4d0fb";
  error = codes "#f38ba8";
  warning = codes "#fab387";
  success = codes "#a6e3a1";
  border = codes "#45475a";
  selection = codes "#45475a";
}

abbrev tertiary_only : Tokens
tertiary_only key = if text_eq key (codes "tertiary") then some (codes "#0f0") else none

abbrev no_tokens : Tokens
no_tokens key = none

apply_scheme-first_of_example :
    color_of Slot.warning (apply_scheme (λ v. 0) plain tertiary_only no_tokens)
    ≡ first_of
        (no_tokens (slot_name Slot.warning) ∷ find_all tertiary_only (material Slot.warning))
        (base_color (λ v. 0) Slot.warning plain tertiary_only)
apply_scheme-first_of_example =
    apply_scheme-first_of (λ v. 0) plain tertiary_only no_tokens Slot.warning

short_color : lighten_hex (λ v. 16) (codes "#0fa") ≡ codes "#10ffba"
unfolding lighten_hex six_digits channel lifted nibble hex_char
short_color = refl
