-- ===== src/Tools/Policy.antt =====
-- L1 and L3 of src/tool_registry.py: which commands are denied, and which wait for approval.
use ops_sentry.Prelude.{
  string_eq, String, Bool, true, false, ◌&&◌, ◌||◌, Option, none, some, List, [], ◌∷◌, contains,
  any, map, Result, ok, err,
}
use ops_sentry.Prelude.Texts.{chars, contains_text, is_prefix, lower}
use ops_sentry.Tools.Patterns.{search, global_deny_patterns}
use ops_sentry.Tools.Lexer.{SplitError, split}

abbrev danger_bins : List String
danger_bins = "rm" ∷ "mkfs" ∷ "dd" ∷ "chmod" ∷ "chown" ∷ "sh" ∷ "bash" ∷ []

-- The second look, on the tokens in small letters. No letter beyond ASCII has a small one that is in the tokens which decide.
unfoldable pub is_dangerous : List String → Bool
is_dangerous tokens =
    (any (λ t. contains t danger_bins) tokens
      && ((contains "rm" tokens && contains "/" tokens)
          || (contains "chmod" tokens && contains "777" tokens)))
    || ((contains "|" tokens || (contains ";" tokens || contains "&" tokens))
        && (contains "sh" tokens || contains "bash" tokens))

-- A command that cannot be split is denied.
abbrev denied_by_tokens : Result SplitError (List String) → Bool
unfolding is_dangerous lower
denied_by_tokens (err e) = true
denied_by_tokens (ok tokens) = is_dangerous (map lower tokens)

-- _is_globally_denied
unfoldable pub is_globally_denied : String → Bool
unfolding is_dangerous lower search chars split
is_globally_denied command =
    any (λ p. search p (chars command)) global_deny_patterns || denied_by_tokens (split command)

abbrev pub require_approval_paths : List String
require_approval_paths = "/etc/nginx/nginx.conf" ∷ "/var/log/auth.log" ∷ "/root/" ∷ ".ssh/" ∷ []

-- `resolve` is `str(Path(p).resolve())`, which follows the links of the file system; `none` where it raises.
module _ (resolve : String → Option String) where
  abbrev is_under : Option String → Option String → Bool
  unfolding is_prefix
  is_under (some resolved) (some path) = is_prefix path resolved
  is_under (some resolved) none = false
  is_under none path = false

  unfoldable pub touches : String → String → Bool
  unfolding contains_text is_prefix
  touches token p = contains_text p token || is_under (resolve token) (resolve p)

  abbrev approval_by_tokens : Result SplitError (List String) → Bool
  unfolding touches
  approval_by_tokens (err e) = true
  approval_by_tokens (ok tokens) = any (λ t. any (touches t) require_approval_paths) tokens

  -- _requires_approval
  unfoldable pub requires_approval : String → Bool
  unfolding touches split
  requires_approval command = approval_by_tokens (split command)
