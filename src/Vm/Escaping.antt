-- ===== src/Vm/Escaping.antt =====
-- A core file cannot close the block that src/agent_vm.py puts it into.
use Prim.Native.Char.{code}
use ops_sentry.Prelude.{
  string_eq, nat_eq, ℕ, String, ok, ◌≡◌, refl, false, ◌==◌, ◌∙◌, arith, Bool-cases, inl, inr,
}
use ops_sentry.Prelude.Texts.{◌+++◌, strip, replace_char, has_char, has_char-append}
use ops_sentry.Vm.{escape, xml_block}

-- A character that is replaced by a text without it is gone.
gone : (n : ℕ) (t s : String) → has_char n t ≡ false → has_char n (replace_char n t s) ≡ false
unfolding has_char replace_char
gone n t String.[] h = refl
gone n t (String.◌∷◌ c s) h = elim (Bool-cases (code c == n)) [
  | inl p ↦ rw p (has_char-append n t (replace_char n t s) ∙ rw (h, gone n t s h) refl)
  | inr q ↦ rw q (rw (q, gone n t s h) refl)
]

-- A character that is in neither text is not brought in.
kept :
    (n m : ℕ) (t s : String)
    → has_char n t ≡ false
    → has_char n s ≡ false
    → has_char n (replace_char m t s) ≡ false
unfolding has_char replace_char
kept n m t String.[] h k = refl
kept n m t (String.◌∷◌ c s) h k = elim (Bool-cases (code c == m)) [
  | inl p ↦
      rw p
        (has_char-append n t (replace_char m t s) ∙ rw (h, kept n m t s h (ground (arith, k))) refl)
  | inr q ↦ rw q (ground (arith, k, kept n m t s h))
]

-- An escaped text has neither "<" nor ">", whatever the text was.
has_char-escape : (s : String) → (has_char 60 (escape s) ≡ false) × (has_char 62 (escape s) ≡ false)
unfolding escape has_char
has_char-escape s =
    let inner = replace_char 62 "&gt;" (replace_char 38 "&amp;" s) in
    (
      gone 60 "&lt;" inner refl,
      kept 62 60 "&lt;" inner refl (gone 62 "&gt;" (replace_char 38 "&amp;" s) refl),
    )

-- A text between the two lines of a tag, which it can neither close nor follow with another.
pub record Enclosed (tag block : String) : Type 0 where
  pub body : String
  pub block_eq : block ≡ "<" +++ tag +++ ">\n" +++ body +++ "\n</" +++ tag +++ ">"
  pub opens_none : has_char 60 body ≡ false
  pub closes_none : has_char 62 body ≡ false

-- The block of a core file that is not blank, whatever is written in it, is one element: its opening tag, a text that has
-- neither "<" nor ">", and its closing tag.
pub xml_block_lem : (tag s : String) → (strip s == "") ≡ false → Enclosed tag (xml_block tag (ok s))
unfolding xml_block
xml_block_lem tag s n = record {
  body = escape s;
  block_eq = rw n refl;
  opens_none = (has_char-escape s).0;
  closes_none = (has_char-escape s).1;
}
