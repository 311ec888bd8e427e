-- ===== src/Prelude/Texts.antt =====
-- Texts as sequences of characters: `p in s`, `s.startswith(p)` and `s.lower()` on ASCII letters.
use Prim.Native.Nat.{ℕ, zero, suc, ◌+◌, ◌-◌, ◌/◌, ◌%◌}
use Prim.Native.Char.{Char, code}
use Prim.Native.String.{String, ◌++◌ as append_text, char_at}
use Prim.Native.String.append
use mathlib.Core.Bool.{Bool, true, false, ◌&&◌, ◌||◌}
use mathlib.Core.List.{List, [], ◌∷◌, ◌++◌}
use mathlib.Core.Path.{◌≡◌, refl, ap, ◌∙◌}
use mathlib.Core.Logic.{inl, inr}
use ops_sentry.Prelude.Tests.{
  Bool-cases, leb, if◌then◌else◌, nat_eq, string_eq, ◌==◌, beq_self, code_beq_sym,
}

unfoldable pub chars : String → List Char
chars String.[] = []
chars (String.◌∷◌ c s) = c ∷ chars s

abbrev pub in_range : ℕ → ℕ → ℕ → Bool
in_range lo hi n = leb lo n && leb n hi

-- s + c
abbrev pub put : String → Char → String
put s c = append_text s (String.◌∷◌ c String.[])

abbrev pub ◌+++◌ : String → String → String

infixr 65 ◌+++◌
s +++ t = append_text s t

unfoldable pub is_prefix : String → String → Bool
is_prefix String.[] s = true
is_prefix (String.◌∷◌ d p) String.[] = false
is_prefix (String.◌∷◌ d p) (String.◌∷◌ c s) = code d == code c && is_prefix p s

-- `p in s`
unfoldable pub contains_text : String → String → Bool
unfolding is_prefix
contains_text p String.[] = is_prefix p String.[]
contains_text p (String.◌∷◌ c s) = is_prefix p (String.◌∷◌ c s) || contains_text p s

-- The small letter of a capital, by its number.
abbrev pub lower_code : ℕ → ℕ
lower_code n = if in_range 65 90 n then n + 32 else n

abbrev alphabet : String
alphabet = "abcdefghijklmnopqrstuvwxyz"

abbrev letter_at : ℕ → Char
letter_at n = char_at alphabet n

-- s.lower(), where a capital beyond ASCII stays.
abbrev small : Char → Char
small c = if in_range 65 90 (code c) then letter_at (code c - 65) else c

unfoldable pub lower : String → String
lower String.[] = String.[]
lower (String.◌∷◌ c s) = String.◌∷◌ (small c) (lower s)

-- s.split(), at ASCII blanks: `token` is the word so far.
abbrev is_white : Char → Bool
is_white c = in_range 9 13 (code c) || in_range 28 32 (code c)

abbrev with_word : String → List String → List String
with_word token rest = if token == "" then rest else token ∷ rest

unfoldable pub words_over : List Char → String → List String → List String
words_over [] token found = found ++ with_word token []
words_over (c ∷ s) token found =
    words_over s (if is_white c then "" else put token c)
      (if is_white c then found ++ with_word token [] else found)

unfoldable pub words : String → List String
unfolding words_over chars
words s = words_over (chars s) "" []

-- sep.join(parts)
unfoldable pub join : String → List String → String
join sep [] = ""
join sep (s ∷ []) = s
join sep (s ∷ t ∷ parts) = s +++ sep +++ join sep (t ∷ parts)

abbrev digit : ℕ → String
digit n = String.◌∷◌ (char_at "0123456789" n) String.[]

-- The decimal digits of a number; a number has fewer digits than itself and one.
unfoldable pub digits : ℕ → ℕ → String
digits zero n = ""
digits (suc fuel) n =
    let front = digits fuel (n / 10) in if leb n 9 then digit n else front +++ digit (n % 10)

-- str(n)
unfoldable pub show_number : ℕ → String
show_number n = digits (suc n) n

-- s.strip(), at ASCII blanks.
unfoldable pub strip_left : String → String
strip_left String.[] = String.[]
strip_left (String.◌∷◌ c s) = let rest = strip_left s in if is_white c then rest else String.◌∷◌ c s

abbrev pub keep : Char → String → String
keep c String.[] = if is_white c then String.[] else String.◌∷◌ c String.[]
keep c (String.◌∷◌ d s) = String.◌∷◌ c (String.◌∷◌ d s)

unfoldable pub strip_right : String → String
strip_right String.[] = String.[]
strip_right (String.◌∷◌ c s) = keep c (strip_right s)

unfoldable pub strip : String → String
strip s = strip_right (strip_left s)

abbrev capitals : String
capitals = "ABCDEFGHIJKLMNOPQRSTUVWXYZ"

abbrev capital : Char → Char
capital c = if in_range 97 122 (code c) then char_at capitals (code c - 97) else c

-- s.upper(), where a small letter beyond ASCII stays.
unfoldable pub upper : String → String
upper String.[] = String.[]
upper (String.◌∷◌ c s) = String.◌∷◌ (capital c) (upper s)

-- What is left of a stripped text stays when it is stripped again.
strip_right-keep : (c : Char) (s : String) → strip_right s ≡ s → strip_right (keep c s) ≡ keep c s
unfolding strip_right
strip_right-keep c String.[] h = elim (Bool-cases (is_white c)) [
  | inl p ↦ rw p refl
  | inr q ↦ rw q (rw q refl)
]
strip_right-keep c (String.◌∷◌ d s) h = ap (keep c) h

strip_right-strip_right : (s : String) → strip_right (strip_right s) ≡ strip_right s
unfolding strip_right
strip_right-strip_right String.[] = refl
strip_right-strip_right (String.◌∷◌ c s) =
    strip_right-keep c (strip_right s) (strip_right-strip_right s)

strip_left-keep : (c : Char) (s : String) → is_white c ≡ false → strip_left (keep c s) ≡ keep c s
unfolding strip_left
strip_left-keep c String.[] q = rw q (rw q refl)
strip_left-keep c (String.◌∷◌ d s) q = rw q refl

-- A text without a leading blank has none when its end is stripped.
strip_left-strip :
    (s : String) → strip_left (strip_right (strip_left s)) ≡ strip_right (strip_left s)
unfolding strip_left strip_right
strip_left-strip String.[] = refl
strip_left-strip (String.◌∷◌ c s) = elim (Bool-cases (is_white c)) [
  | inl p ↦ rw p (strip_left-strip s)
  | inr q ↦ rw q (strip_left-keep c (strip_right s) q)
]

pub strip-strip : (s : String) → strip (strip s) ≡ strip s
unfolding strip
strip-strip s = ap strip_right (strip_left-strip s) ∙ strip_right-strip_right (strip_left s)

-- s.replace(c, t) for one character.
unfoldable pub replace_char : ℕ → String → String → String
replace_char n t String.[] = String.[]
replace_char n t (String.◌∷◌ c s) =
    let rest = replace_char n t s in if code c == n then append_text t rest else String.◌∷◌ c rest

unfoldable pub has_char : ℕ → String → Bool
has_char n String.[] = false
has_char n (String.◌∷◌ c s) = code c == n || has_char n s

abbrev pub add_first : Char → List String → List String
add_first c [] = put "" c ∷ []
add_first c (w ∷ ws) = String.◌∷◌ c w ∷ ws

-- s.split(c), for a character by its code
unfoldable pub split_at : ℕ → String → List String
split_at n String.[] = "" ∷ []
split_at n (String.◌∷◌ c s) = if code c == n then "" ∷ split_at n s else add_first c (split_at n s)

pub is_prefix-append : (p s : String) → is_prefix p (p +++ s) ≡ true
unfolding is_prefix
is_prefix-append String.[] s = refl
is_prefix-append (String.◌∷◌ c p) s =
    rw (append.cons c p s, beq_self (code c)) (is_prefix-append p s)

-- s[:n] and s[n:]
unfoldable pub take_text : ℕ → String → String
take_text zero s = ""
take_text (suc n) String.[] = ""
take_text (suc n) (String.◌∷◌ c s) = String.◌∷◌ c (take_text n s)

unfoldable pub drop_text : ℕ → String → String
drop_text zero s = s
drop_text (suc n) String.[] = ""
drop_text (suc n) (String.◌∷◌ c s) = drop_text n s

pub has_char-append :
    (n : ℕ) (s t : String) → has_char n (append_text s t) ≡ (has_char n s || has_char n t)
unfolding has_char
has_char-append n String.[] t = ap (has_char n) (append.nil t)
has_char-append n (String.◌∷◌ c s) t = elim (Bool-cases (code c == n)) [
  | inl p ↦ rw (append.cons c s t) (rw p refl)
  | inr q ↦ rw (append.cons c s t) (rw q (has_char-append n s t))
]

-- A text without the first character of another one does not have that one.
pub contains_text-has_char :
    (c : Char) (p s : String)
    → has_char (code c) s ≡ false
    → contains_text (String.◌∷◌ c p) s ≡ false
unfolding contains_text has_char is_prefix
contains_text-has_char c p String.[] h = refl
contains_text-has_char c p (String.◌∷◌ d s) h = elim (Bool-cases (code d == code c)) [
  | inl q ↦ cc (rw q at h)
  | inr q ↦ rw (code_beq_sym (code c) (code d), q) (contains_text-has_char c p s (rw q at h))
]

pub has_char-take_text :
    (n k : ℕ) (s : String) → has_char n s ≡ false → has_char n (take_text k s) ≡ false
unfolding has_char take_text
has_char-take_text n zero s h = refl
has_char-take_text n (suc k) String.[] h = refl
has_char-take_text n (suc k) (String.◌∷◌ c s) h = elim (Bool-cases (code c == n)) [
  | inl q ↦ cc (rw q at h)
  | inr q ↦ rw (q, has_char-take_text n k s (rw q at h)) refl
]

pub has_char-drop_text :
    (n k : ℕ) (s : String) → has_char n s ≡ false → has_char n (drop_text k s) ≡ false
unfolding has_char drop_text
has_char-drop_text n zero s h = h
has_char-drop_text n (suc k) String.[] h = refl
has_char-drop_text n (suc k) (String.◌∷◌ c s) h = elim (Bool-cases (code c == n)) [
  | inl q ↦ cc (rw q at h)
  | inr q ↦ has_char-drop_text n k s (rw q at h)
]
