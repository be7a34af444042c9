-- ===== src/Power/Argv.antt =====
-- Splitting a configured command into its arguments, and the binary that runs it.
use waylaunch.Prelude.{
  ℕ, ◌≡◌, refl, ◌≢◌, ◌⊎◌, inl, inr, ap, ◌∙◌, sym, true, false, not, ◌&&◌, List, [], ◌∷◌, ◌++◌,
  arith,
}
use mathlib.Core.List.{append_assoc, append-nil}
use waylaunch.Prelude.Tests.{Bool-cases}
use waylaunch.Prelude.Lists.{All}
use waylaunch.Prelude.Text.{Text, codes, text_eq, text_eq_iff}
use waylaunch.Power.Dialog.{PowerAction}
use waylaunch.Power.Backend.{
  split_from, split_argv, Host, exit_fallback, normalize_verb, resolve_argv, is_power_verb,
}

-- An argument between two quotes `q`, and a command line of such arguments.
abbrev pub quoted : ℕ → Text → Text
quoted q w = q ∷ (w ++ q ∷ [])

abbrev pub command_line : ℕ → List Text → Text
command_line q [] = []
command_line q (w ∷ []) = quoted q w
command_line q (w ∷ v ∷ ws) = quoted q w ++ 32 ∷ command_line q (v ∷ ws)

abbrev pub IsQuote : ℕ → Type 0
IsQuote q = (q ≡ 39) ⊎ (q ≡ 34)

-- Up to the closing quote every byte goes to the current argument.
split_from-quoted :
    (q : ℕ) (argv : List Text) (cur w s : Text)
    → IsQuote q
    → All (λ c. c ≢ q) w
    → split_from argv cur true q (w ++ q ∷ s) ≡ split_from argv (cur ++ w) true 0 s
unfolding split_from
split_from-quoted q argv cur [] s i a = ground (arith, append-nil cur)
split_from-quoted q argv cur (c ∷ w) s i a =
    ground (arith, split_from-quoted q argv (cur ++ c ∷ []) w s i a.1, append_assoc cur (c ∷ []) w)

-- A quoted argument at the start of a word becomes the current argument.
split_from-open :
    (q : ℕ) (argv : List Text) (w s : Text)
    → IsQuote q
    → All (λ c. c ≢ q) w
    → split_from argv [] false 0 (q ∷ (w ++ q ∷ s)) ≡ split_from argv w true 0 s
unfolding split_from
split_from-open q argv w s i a = ground (arith, split_from-quoted q argv [] w s i a)

split_from-line :
    (q : ℕ) (argv ws : List Text)
    → IsQuote q
    → All (All (λ c. c ≢ q)) ws
    → split_from argv [] false 0 (command_line q ws) ≡ argv ++ ws
unfolding split_from
split_from-line q argv [] i a = sym (append-nil argv)
split_from-line q argv (w ∷ []) i a = split_from-open q argv w [] i a.0
split_from-line q argv (w ∷ v ∷ ws) i a =
    rw (append_assoc w (q ∷ []) (32 ∷ command_line q (v ∷ ws))) (
      split_from-open q argv w (32 ∷ command_line q (v ∷ ws)) i a.0
      ∙ (split_from-line q (argv ++ w ∷ []) (v ∷ ws) i a.1 ∙ append_assoc argv (w ∷ []) (v ∷ ws)))

-- A command line of arguments in single or in double quotes, with spaces between them, splits
-- into those arguments, provided that none of them has the quote in it. They may be empty and
-- may hold spaces, tabs and the other quote.
pub split_argv-command_line :
    (q : ℕ) (ws : List Text)
    → IsQuote q
    → All (All (λ c. c ≢ q)) ws
    → split_argv (command_line q ws) ≡ ws
unfolding split_argv
split_argv-command_line q ws i a = split_from-line q [] ws i a

-- `b` is a binary that can perform a power verb on this host.
abbrev pub IsRightBinary : Host → Text → Type 0
IsRightBinary host b =
    ((host.command_exists (codes "systemctl") && text_eq b (codes "loginctl")) ≡ false)
    × ((not (host.command_exists (codes "systemctl"))
          && (host.command_exists (codes "loginctl") && text_eq b (codes "systemctl")))
        ≡ false)

systemctl-ne-loginctl : text_eq (codes "systemctl") (codes "loginctl") ≡ false
unfolding text_eq
systemctl-ne-loginctl = refl

loginctl-ne-systemctl : text_eq (codes "loginctl") (codes "systemctl") ≡ false
unfolding text_eq
loginctl-ne-systemctl = refl

normalize_verb-binary :
    (host : Host) (argv : List Text) (b v : Text) (args : List Text)
    → normalize_verb host argv ≡ b ∷ v ∷ args
    → is_power_verb v ≡ true
    → IsRightBinary host b
unfolding normalize_verb
normalize_verb-binary host [] b v args h p = cc
normalize_verb-binary host (x ∷ []) b v args h p = cc
normalize_verb-binary host (x ∷ u ∷ r) b v args h p =
    ground (arith, systemctl-ne-loginctl, loginctl-ne-systemctl)

-- When the command that is run has a power verb, its binary is not loginctl where systemctl is
-- installed, and not systemctl where only loginctl is.
pub resolve_argv-binary :
    (host : Host) (a : PowerAction) (b v : Text) (args : List Text)
    → resolve_argv host a ≡ b ∷ v ∷ args
    → is_power_verb v ≡ true
    → IsRightBinary host b
unfolding resolve_argv exit_fallback normalize_verb
resolve_argv-binary host a b v args h p =
    normalize_verb-binary host (exit_fallback host a.id a.argv) b v args h p

terminate_no_verb :
    (is_power_verb (codes "terminate-user") ≡ false)
    × (is_power_verb (codes "terminate-session") ≡ false)
unfolding is_power_verb text_eq
terminate_no_verb = (refl, refl)

session_fallback :
    (host : Host) (id a : Text) (args : List Text)
    → (text_eq id (codes "exit") && not (host.command_exists a)) ≡ true
    → (normalize_verb host (exit_fallback host id (a ∷ args)) ≡ exit_fallback host id (a ∷ args))
      × (exit_fallback host id (exit_fallback host id (a ∷ args))
          ≡ exit_fallback host id (a ∷ args))
unfolding normalize_verb exit_fallback
session_fallback host id a args h = ground (arith, terminate_no_verb.0, terminate_no_verb.1)

normalize_verb_idem :
    (host : Host) (argv : List Text)
    → normalize_verb host (normalize_verb host argv) ≡ normalize_verb host argv
unfolding normalize_verb
normalize_verb_idem host [] = refl
normalize_verb_idem host (x ∷ []) = refl
normalize_verb_idem host (x ∷ u ∷ r) = ground (
  arith,
  systemctl-ne-loginctl,
  loginctl-ne-systemctl,
  text_eq_iff x (codes "loginctl"),
  text_eq_iff x (codes "systemctl"),
)

found_binary :
    (host : Host) (id a : Text) (args : List Text)
    → (text_eq id (codes "exit") && not (host.command_exists a)) ≡ false
    → exit_fallback host id (normalize_verb host (a ∷ args)) ≡ normalize_verb host (a ∷ args)
unfolding normalize_verb exit_fallback
found_binary host id a [] h = ground arith
found_binary host id a (u ∷ r) h = ground arith

-- Resolving is stable: an action whose command was resolved on a host resolves there to the same
-- command again.
pub resolve_argv_idem :
    (host : Host) (a : PowerAction)
    → resolve_argv host (record a { argv = resolve_argv host a }) ≡ resolve_argv host a
unfolding resolve_argv exit_fallback normalize_verb
resolve_argv_idem host a = again a.argv
  where
    again :
        (argv : List Text)
        → normalize_verb host
            (exit_fallback host a.id (normalize_verb host (exit_fallback host a.id argv)))
          ≡ normalize_verb host (exit_fallback host a.id argv)
    again [] = refl
    again (x ∷ args) =
        elim (Bool-cases (text_eq a.id (codes "exit") && not (host.command_exists x))) [
          | inl e ↦
              let (n, f) = session_fallback host a.id x args e in
              ap (λ l. normalize_verb host (exit_fallback host a.id l)) n
              ∙ ap (normalize_verb host) f
          | inr e ↦
              let same : exit_fallback host a.id (x ∷ args) ≡ x ∷ args =
                rw (e, exit_fallback) refl in
              rw same (
                ap (normalize_verb host) (found_binary host a.id x args e)
                ∙ normalize_verb_idem host (x ∷ args))
        ]
