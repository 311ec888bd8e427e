-- ===== src/Tools/Lexer.antt =====
-- `shlex.split(command)`: Python's lexer in POSIX mode, with whitespace_split and without comments, as
-- src/tool_registry.py calls it.
use Prim.Native.Char.{Char, code}
use ops_sentry.Prelude.{
  string_eq, nat_eq, String, Bool, true, false, not, ◌&&◌, ◌||◌, Option, none, some, List, [], ◌∷◌,
  ◌++◌, ◌==◌, contains, if◌then◌else◌, Result, ok, err,
}
use ops_sentry.Prelude.Texts.{chars, put}

pub data SplitError : Type 0 where
  no_closing_quotation no_escaped_character : SplitError

-- The `state` of the lexer: outside of quotes, inside of a quote, or behind a backslash, with the quote
-- to go back to.
pub data Mode : Type 0 where
  outside : Mode
  inside : Char → Mode
  escaped : Option Char → Mode

pub record Lexer : Type 0 where
  pub mode : Mode
  pub quoted : Bool
  pub token : String
  pub tokens : List String

abbrev pub start : Lexer
start = record { mode = outside; quoted = false; token = ""; tokens = [] }

abbrev pub is_blank : Char → Bool
is_blank c = contains (code c) (32 ∷ 9 ∷ 13 ∷ 10 ∷ [])

abbrev pub is_backslash : Char → Bool
is_backslash c = code c == 92

abbrev pub is_double_quote : Char → Bool
is_double_quote c = code c == 34

abbrev pub is_quote : Char → Bool
is_quote c = code c == 39 || is_double_quote c

-- `if self.token or (self.posix and quoted): break`
unfoldable pub flush : Lexer → Lexer
flush l =
    if not (l.token == "") || l.quoted
    then record { mode = outside; quoted = false; token = ""; tokens = l.tokens ++ l.token ∷ [] }
    else record l { mode = outside }

abbrev step_outside : Char → Lexer → Lexer
unfolding flush
step_outside c l =
    if is_blank c
    then flush l
    else if is_backslash c
    then record l { mode = escaped none }
    else if is_quote c
    then record l { mode = inside c }
    else record l { token = put l.token c }

abbrev step_inside : Char → Char → Lexer → Lexer
step_inside q c l =
    if code c == code q
    then record l { mode = outside; quoted = true }
    else if is_backslash c && is_double_quote q
    then record l { mode = escaped (some q); quoted = true }
    else record l { token = put l.token c; quoted = true }

-- Inside quotes the backslash stays unless it stands before itself or the quote.
abbrev step_escaped : Option Char → Char → Lexer → Lexer
step_escaped none c l = record l { mode = outside; token = put l.token c }
step_escaped (some q) c l = record l {
  mode = inside q;
  token = (if is_backslash c || code c == code q then put l.token c else put (put l.token "\\") c);
}

abbrev step_in : Mode → Char → Lexer → Lexer
unfolding flush
step_in outside c l = step_outside c l
step_in (inside q) c l = step_inside q c l
step_in (escaped back) c l = step_escaped back c l

unfoldable pub step : Char → Lexer → Lexer
unfolding flush
step c l = step_in l.mode c l

unfoldable pub lex : List Char → Lexer → Lexer
unfolding step
lex [] l = l
lex (c ∷ s) l = lex s (step c l)

abbrev finish_in : Mode → Lexer → Result SplitError (List String)
unfolding flush
finish_in outside l = ok (flush l).tokens
finish_in (inside q) l = err no_closing_quotation
finish_in (escaped back) l = err no_escaped_character

unfoldable pub split : String → Result SplitError (List String)
unfolding lex flush chars
split s = let l = lex (chars s) start in finish_in l.mode l
