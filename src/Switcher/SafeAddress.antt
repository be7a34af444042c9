-- ===== src/Switcher/SafeAddress.antt =====
-- What reaches the compositor's Lua: a safe address stands in the request as it is.
use waylaunch.Prelude.{ℕ, ◌≡◌, refl, true, ◌&&◌, ◌||◌, inl, inr, [], ◌∷◌, arith}
use waylaunch.Prelude.Tests.{◌==◌, Bool-cases}
use waylaunch.Prelude.Text.{is_xdigit, Text}
use waylaunch.Switcher.Focus.{hypr_lua_escape, all_xdigits, without_0x, hypr_address_is_safe}

escape_xdigits : (s : Text) → all_xdigits s ≡ true → hypr_lua_escape s ≡ s
unfolding hypr_lua_escape all_xdigits is_xdigit
escape_xdigits [] h = refl
escape_xdigits (c ∷ s) h = grind (arith, escape_xdigits s)

escape_prefix :
    (c d : ℕ) (s : Text)
    → (c == 48 && (d == 120 || d == 88)) ≡ true
    → hypr_lua_escape s ≡ s
    → hypr_lua_escape (c ∷ d ∷ s) ≡ c ∷ d ∷ s
unfolding hypr_lua_escape
escape_prefix c d s t h = grind arith

escape_behind_0x : (s : Text) → all_xdigits (without_0x s) ≡ true → hypr_lua_escape s ≡ s
unfolding without_0x
escape_behind_0x [] h = escape_xdigits [] h
escape_behind_0x (c ∷ []) h = escape_xdigits (c ∷ []) h
escape_behind_0x (c ∷ d ∷ []) h = escape_xdigits (c ∷ d ∷ []) h
escape_behind_0x (c ∷ d ∷ e ∷ s) h = elim (Bool-cases (c == 48 && (d == 120 || d == 88))) [
  | inl t ↦ escape_prefix c d (e ∷ s) t (escape_xdigits (e ∷ s) (rw t at h))
  | inr t ↦ escape_xdigits (c ∷ d ∷ e ∷ s) (rw t at h)
]

-- An address that passes the check has nothing that the Lua escape changes.
pub safe_address_is_plain :
    (address : Text) → hypr_address_is_safe address ≡ true → hypr_lua_escape address ≡ address
unfolding hypr_address_is_safe
safe_address_is_plain address h = escape_behind_0x address (ground arith)
