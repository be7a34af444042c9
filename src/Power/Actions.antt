-- ===== src/Power/Actions.antt =====
-- The actions that the overlay offers, as the backend builds them from its configuration.
use waylaunch.Prelude.{
  ◌≡◌, refl, inl, inr, true, false, not, ◌||◌, none, some, List, [], ◌∷◌, map, arith,
}
use waylaunch.Prelude.Tests.{Option-cases}
use waylaunch.Prelude.Lists.{All, is_empty}
use waylaunch.Prelude.Text.{Text, text_eq_iff}
use waylaunch.Power.Dialog.{PowerAction}
use waylaunch.Power.Backend.{
  PowerConfig, ActionDefault, defaults, find_default, build_action, build_actions, found_or,
  actions, compose_headline,
}

abbrev pub known_ids : List Text → List Text
known_ids [] = []
known_ids (id ∷ ids) = elim (find_default id defaults) [
  | none ↦ known_ids ids
  | some d ↦ id ∷ known_ids ids
]

find_default-id :
    (id : Text) (ds : List ActionDefault) (d : ActionDefault)
    → find_default id ds ≡ some d
    → d.id ≡ id
unfolding find_default
find_default-id id [] d h = cc
find_default-id id (x ∷ ds) d h = ground (arith, text_eq_iff id x.id, find_default-id id ds d)

build_actions-ids :
    (cfg : PowerConfig) (ids : List Text)
    → map (λ (a : PowerAction). a.id) (build_actions cfg ids) ≡ known_ids ids
unfolding build_actions build_action
build_actions-ids cfg [] = refl
build_actions-ids cfg (id ∷ ids) = elim (Option-cases (find_default id defaults)) [
  | inl e ↦ rw (e, build_actions, known_ids) (build_actions-ids cfg ids)
  | inr (d, e) ↦
      rw (e, build_actions, known_ids)
        (cc (find_default-id id defaults d e, build_actions-ids cfg ids))
]

-- The overlay offers the enabled actions that are known, in the configured order; ids that are
-- not known are left out.
pub actions-ids :
    (cfg : PowerConfig)
    → map (λ (a : PowerAction). a.id) (actions cfg) ≡ known_ids cfg.enabled_actions
unfolding actions
actions-ids cfg = build_actions-ids cfg cfg.enabled_actions

-- The dialog has a question just for the destructive actions, and an action that ends the
-- session is destructive.
pub record IsGated (a : PowerAction) : Type 0 where
  pub asks : is_empty a.confirm_text ≡ not a.destructive
  pub ends : (is_empty a.subtext || a.destructive) ≡ true

abbrev EndsGated : ActionDefault → Type 0
EndsGated d = (not d.session_ending || not (is_empty d.phrase)) ≡ true

find_default-All :
    (id : Text) (ds : List ActionDefault) (d : ActionDefault)
    → All EndsGated ds
    → find_default id ds ≡ some d
    → EndsGated d
unfolding find_default
find_default-All id [] d a h = cc
find_default-All id (x ∷ ds) d a h = ground (arith, find_default-All id ds d a.1)

defaults-All : All EndsGated defaults
unfolding defaults
defaults-All = (refl, (refl, (refl, (refl, (refl, (refl, tt))))))

headline_asks : (phrase : Text) → is_empty (compose_headline phrase) ≡ false
unfolding compose_headline
headline_asks phrase = refl

build_action-IsGated :
    (cfg : PowerConfig) (d : ActionDefault) → EndsGated d → IsGated (build_action cfg d)
unfolding build_action
build_action-IsGated cfg d h =
    ground (arith, headline_asks (found_or (cfg.confirm_text d.id) d.phrase))

build_actions-IsGated : (cfg : PowerConfig) (ids : List Text) → All IsGated (build_actions cfg ids)
unfolding build_actions
build_actions-IsGated cfg [] = tt
build_actions-IsGated cfg (id ∷ ids) = elim (Option-cases (find_default id defaults)) [
  | inl e ↦ rw (e, build_actions) (build_actions-IsGated cfg ids)
  | inr (d, e) ↦
      rw (e, build_actions)
        (
          build_action-IsGated cfg d (find_default-All id defaults d defaults-All e),
          build_actions-IsGated cfg ids,
        )
]

-- Whatever the configuration, exactly the destructive actions come with a question for the
-- dialog, and no action that ends the session is let through without it.
pub actions-IsGated : (cfg : PowerConfig) → All IsGated (actions cfg)
unfolding actions
actions-IsGated cfg = build_actions-IsGated cfg cfg.enabled_actions
