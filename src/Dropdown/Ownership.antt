-- ===== src/Dropdown/Ownership.antt =====
-- The window-ownership rule: src/dropdown/window_ownership.cpp and its header. Of HyprClient
-- (hyprland_json.h) only the two fields that the rule reads. The ancestry function is set.
use waylaunch.Prelude.{
  ℕ, suc, Bool, true, false, not, ◌&&◌, ◌||◌, Option, none, some, List, [], ◌∷◌,
}
use waylaunch.Prelude.Tests.{leb, if◌then◌else◌}
use waylaunch.Prelude.Int.{ℤ, pos, ltb_ℤ, leb_ℤ, eq_ℤ}
use waylaunch.Prelude.Text.{Text, text_eq}

pub record HyprClient : Type 0 where
  pub address : Text
  pub klass : Text
  pub title : Text
  pub pid : ℤ
  pub focus_history_id : ℤ
  pub at_x : ℤ
  pub at_y : ℤ
  pub width : ℤ
  pub height : ℤ
  pub workspace_id : ℤ
  pub workspace_name : Text
  pub monitor : ℤ
  pub floating : Bool
  pub mapped : Bool

pub data Ownership : Type 0 where
  exact descendant class_only : Ownership

-- The values of the enumerators, by which tiers are compared.
abbrev pub tier : Ownership → ℕ
tier Ownership.exact = 0
tier Ownership.descendant = 1
tier Ownership.class_only = 2

unfoldable pub classify_ownership : ℤ → ℤ → (ℤ → ℤ → Bool) → Ownership
classify_ownership client_pid owner_pid ancestry =
    if leb_ℤ owner_pid (pos 0) || leb_ℤ client_pid (pos 0)
    then Ownership.class_only
    else if eq_ℤ client_pid owner_pid
    then Ownership.exact
    else if ancestry client_pid owner_pid
    then Ownership.descendant
    else Ownership.class_only

-- `best` is the pair of the best index and its tier; none is npos.
abbrev pub beats : Ownership → Option (ℕ × Ownership) → Bool
beats t none = true
beats t (some (i, b)) = not (leb (tier b) (tier t))

abbrev pub is_exact : Ownership → Bool
is_exact Ownership.exact = true
is_exact _ = false

-- The loop from index `i` on.
unfoldable pub select_from :
    ℕ
    → Option (ℕ × Ownership)
    → List HyprClient
    → Text
    → ℤ
    → (ℤ → ℤ → Bool)
    → Option (ℕ × Ownership)
select_from i best [] app owner ancestry = best
select_from i best (c ∷ cs) app owner ancestry =
    let t = classify_ownership c.pid owner ancestry in
    let skip = select_from (suc i) best cs app owner ancestry in
    let take = select_from (suc i) (some (i, t)) cs app owner ancestry in
    if not (text_eq c.klass app)
    then skip
    else if not (beats t best)
    then skip
    else if is_exact t
    then some (i, t)
    else take

abbrev pub index_of : Option (ℕ × Ownership) → Option ℕ
index_of none = none
index_of (some (i, t)) = some i

unfoldable pub select_owned : List HyprClient → Text → ℤ → (ℤ → ℤ → Bool) → Option ℕ
select_owned clients app owner ancestry = index_of (select_from 0 none clients app owner ancestry)

abbrev pub is_class_only : Ownership → Bool
is_class_only Ownership.class_only = true
is_class_only _ = false

-- Whether the loop of filter_owned keeps a client.
unfoldable pub is_owned : HyprClient → Text → ℤ → (ℤ → ℤ → Bool) → Bool
is_owned c app owner ancestry =
    text_eq c.klass app
    && not (ltb_ℤ (pos 0) owner && is_class_only (classify_ownership c.pid owner ancestry))

unfoldable pub filter_from : ℕ → List HyprClient → Text → ℤ → (ℤ → ℤ → Bool) → List ℕ
filter_from i [] app owner ancestry = []
filter_from i (c ∷ cs) app owner ancestry =
    let rest = filter_from (suc i) cs app owner ancestry in
    if is_owned c app owner ancestry then i ∷ rest else rest

unfoldable pub filter_owned : List HyprClient → Text → ℤ → (ℤ → ℤ → Bool) → List ℕ
filter_owned clients app owner ancestry = filter_from 0 clients app owner ancestry
