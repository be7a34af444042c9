-- ===== src/Theme/Slots.antt =====
-- Which token decides a colour.
use waylaunch.Prelude.{ℕ, ◌≡◌, refl, ap, ◌∙◌, Option, none, some, List, [], ◌∷◌, inl, inr}
use waylaunch.Prelude.Tests.{Option-cases, if◌then◌else◌}
use waylaunch.Prelude.Lists.{is_empty}
use waylaunch.Prelude.Text.{Text, codes}
use waylaunch.Theme.Scheme.{
  ColorConfig, Tokens, pick_token, use_token, lighten_hex, hover_of, with_scheme, with_direct,
  apply_scheme,
}

pub data Slot : Type 0 where
  background background_alt foreground text_muted accent accent_hover error warning success border
        selection :
      Slot

abbrev pub color_of : Slot → ColorConfig → Text
color_of Slot.background c = c.background
color_of Slot.background_alt c = c.background_alt
color_of Slot.foreground c = c.foreground
color_of Slot.text_muted c = c.text_muted
color_of Slot.accent c = c.accent
color_of Slot.accent_hover c = c.accent_hover
color_of Slot.error c = c.error
color_of Slot.warning c = c.warning
color_of Slot.success c = c.success
color_of Slot.border c = c.border
color_of Slot.selection c = c.selection

-- The name of a slot, and the Material tokens that stand for it, the first the best. The hover
-- colour has none: it is made of the primary one.
abbrev pub slot_name : Slot → Text
slot_name Slot.background = codes "background"
slot_name Slot.background_alt = codes "background_alt"
slot_name Slot.foreground = codes "foreground"
slot_name Slot.text_muted = codes "text_muted"
slot_name Slot.accent = codes "accent"
slot_name Slot.accent_hover = codes "accent_hover"
slot_name Slot.error = codes "error"
slot_name Slot.warning = codes "warning"
slot_name Slot.success = codes "success"
slot_name Slot.border = codes "border"
slot_name Slot.selection = codes "selection"

abbrev pub material : Slot → List Text
material Slot.background = codes "background" ∷ []
material Slot.background_alt =
    codes "surface_container" ∷ codes "surface_container_high" ∷ codes "surface_variant" ∷ []
material Slot.foreground = codes "on_surface" ∷ []
material Slot.text_muted = codes "on_surface_variant" ∷ []
material Slot.accent = codes "primary" ∷ []
material Slot.accent_hover = []
material Slot.error = codes "error" ∷ []
material Slot.warning = codes "warning" ∷ codes "tertiary" ∷ []
material Slot.success = codes "success" ∷ codes "secondary" ∷ []
material Slot.border = codes "outline_variant" ∷ codes "outline" ∷ []
material Slot.selection = codes "secondary_container" ∷ codes "primary_container" ∷ []

-- The first value that is there and not empty, or the last resort.
abbrev pub first_of : List (Option Text) → Text → Text
first_of [] default = default
first_of (none ∷ os) default = first_of os default
first_of (some [] ∷ os) default = first_of os default
first_of (some (c ∷ s) ∷ os) default = c ∷ s

abbrev pub find_all : Tokens → List Text → List (Option Text)
find_all m [] = []
find_all m (k ∷ ks) = m k ∷ find_all m ks

abbrev pub base_color : (ℕ → ℕ) → Slot → ColorConfig → Tokens → Text
base_color raised Slot.accent_hover base scheme =
    if is_empty (first_of (scheme (codes "primary") ∷ []) [])
    then base.accent_hover
    else lighten_hex raised (first_of (scheme (codes "primary") ∷ []) [])
base_color raised s base scheme = color_of s base

used :
    (slot : Text) (m : Tokens) (keys : List Text)
    → use_token slot (pick_token m keys) ≡ first_of (find_all m keys) slot
unfolding use_token pick_token
used slot m [] = refl
used slot m (k ∷ ks) = elim (Option-cases (m k)) [
  | inl e ↦ rw (e, pick_token) (used slot m ks)
  | inr ([], e) ↦ rw (e, pick_token) (used slot m ks)
  | inr (c ∷ s, e) ↦ rw (e, pick_token) refl
]

hover-first_of :
    (raised : ℕ → ℕ) (base : ColorConfig) (scheme : Tokens)
    → hover_of raised base.accent_hover (pick_token scheme (codes "primary" ∷ []))
      ≡ base_color raised Slot.accent_hover base scheme
unfolding hover_of pick_token
hover-first_of raised base scheme = elim (Option-cases (scheme (codes "primary"))) [
  | inl e ↦ rw e refl
  | inr ([], e) ↦ rw e refl
  | inr (c ∷ s, e) ↦ rw e refl
]

first_of-first_of :
    (o : Option Text) (os : List (Option Text)) (d : Text)
    → first_of (o ∷ []) (first_of os d) ≡ first_of (o ∷ os) d
first_of-first_of none os d = refl
first_of-first_of (some []) os d = refl
first_of-first_of (some (c ∷ s)) os d = refl

module _ (raised : ℕ → ℕ) (base : ColorConfig) (scheme : Tokens) where
  from_scheme :
      (s : Slot)
      → color_of s (with_scheme raised base scheme)
        ≡ first_of (find_all scheme (material s)) (base_color raised s base scheme)
  unfolding with_scheme
  from_scheme Slot.background = used _ scheme _
  from_scheme Slot.background_alt = used _ scheme _
  from_scheme Slot.foreground = used _ scheme _
  from_scheme Slot.text_muted = used _ scheme _
  from_scheme Slot.accent = used _ scheme _
  from_scheme Slot.accent_hover = hover-first_of raised base scheme
  from_scheme Slot.error = used _ scheme _
  from_scheme Slot.warning = used _ scheme _
  from_scheme Slot.success = used _ scheme _
  from_scheme Slot.border = used _ scheme _
  from_scheme Slot.selection = used _ scheme _

from_direct :
    (out : ColorConfig) (direct : Tokens) (s : Slot)
    → color_of s (with_direct out direct) ≡ first_of (direct (slot_name s) ∷ []) (color_of s out)
unfolding with_direct
from_direct out direct Slot.background = used _ direct (slot_name Slot.background ∷ [])
from_direct out direct Slot.background_alt = used _ direct (slot_name Slot.background_alt ∷ [])
from_direct out direct Slot.foreground = used _ direct (slot_name Slot.foreground ∷ [])
from_direct out direct Slot.text_muted = used _ direct (slot_name Slot.text_muted ∷ [])
from_direct out direct Slot.accent = used _ direct (slot_name Slot.accent ∷ [])
from_direct out direct Slot.accent_hover = used _ direct (slot_name Slot.accent_hover ∷ [])
from_direct out direct Slot.error = used _ direct (slot_name Slot.error ∷ [])
from_direct out direct Slot.warning = used _ direct (slot_name Slot.warning ∷ [])
from_direct out direct Slot.success = used _ direct (slot_name Slot.success ∷ [])
from_direct out direct Slot.border = used _ direct (slot_name Slot.border ∷ [])
from_direct out direct Slot.selection = used _ direct (slot_name Slot.selection ∷ [])

-- Every colour is the first value, of those that are there and not empty, of the slot's own name in
-- the file and of its Material tokens in their order of preference, and otherwise the configured
-- colour, but for the hover colour, for which the primary token made lighter comes before that.
pub apply_scheme-first_of :
    (raised : ℕ → ℕ) (base : ColorConfig) (scheme direct : Tokens) (s : Slot)
    → color_of s (apply_scheme raised base scheme direct)
      ≡ first_of
          (direct (slot_name s) ∷ find_all scheme (material s))
          (base_color raised s base scheme)
unfolding apply_scheme
apply_scheme-first_of raised base scheme direct s =
    from_direct (with_scheme raised base scheme) direct s
    ∙ ap (first_of (direct (slot_name s) ∷ [])) (from_scheme raised base scheme s)
    ∙ first_of-first_of (direct (slot_name s)) (find_all scheme (material s))
        (base_color raised s base scheme)
