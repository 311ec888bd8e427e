-- ===== src/Tools/Patterns.antt =====
-- The regular expressions of src/tool_registry.py: sequences of characters, ranges and `\s+`, searched
-- for without regard to case.
use Prim.Native.Char.{Char, code}
use ops_sentry.Prelude.{
  nat_eq, ℕ, String, Bool, true, false, ◌&&◌, ◌||◌, List, [], ◌∷◌, ◌++◌, ◌==◌, contains,
  if◌then◌else◌, map,
}
use ops_sentry.Prelude.Texts.{chars, in_range, lower_code}

pub data Item : Type 0 where
  between : ℕ → ℕ → Item
  spaces : Item

-- The characters that `\s` stands for in a str pattern.
abbrev pub space_codes : List ℕ
space_codes = 32 ∷ 133 ∷ 160 ∷ 5760 ∷ 8232 ∷ 8233 ∷ 8239 ∷ 8287 ∷ 12288 ∷ []

unfoldable pub is_space : Char → Bool
is_space c =
    in_range 9 13 (code c)
    || in_range 28 31 (code c)
    || in_range 8192 8202 (code c)
    || contains (code c) space_codes

-- Under IGNORECASE the long s, the Kelvin sign, and the dotted capital and the dotless small i count as letters too.
unfoldable pub fold_case : Char → ℕ
fold_case c =
    if code c == 383
    then 115
    else if code c == 8490
    then 107
    else if code c == 304 || code c == 305
    then 105
    else lower_code (code c)

unfoldable pub matches : List Item → List Char → Bool
unfolding is_space fold_case
matches [] s = true
matches (i ∷ is) [] = false
matches (between lo hi ∷ is) (c ∷ s) = in_range lo hi (fold_case c) && matches is s
matches (spaces ∷ is) (c ∷ s) = is_space c && (matches is s || matches (spaces ∷ is) s)

-- re.search
unfoldable pub search : List Item → List Char → Bool
unfolding matches
search is [] = matches is []
search is (c ∷ s) = matches is (c ∷ s) || search is s

-- The items that match a text of small letters, digits and signs.
abbrev pub exactly : Char → Item
exactly c = between (code c) (code c)

unfoldable pub literal : String → List Item
unfolding chars
literal s = map exactly (chars s)

-- GLOBAL_DENY_PATTERNS
abbrev pub global_deny_patterns : List (List Item)
unfolding literal
global_deny_patterns =
    (literal "rm" ++ spaces ∷ literal "-rf" ++ spaces ∷ literal "/")
    ∷ literal "mkfs."
    ∷ (literal "dd" ++ spaces ∷ literal "if=")
    ∷ (literal "chmod" ++ spaces ∷ literal "777")
    ∷ (literal "chown" ++ spaces ∷ literal "root")
    ∷ (literal ">/dev/sd" ++ between 97 122 ∷ [])
    ∷ []
