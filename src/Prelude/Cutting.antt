-- ===== src/Prelude/Cutting.antt =====
-- Texts cut at a marker: `s.split(p, n)`, and when a marker is found where it was put.
use Prim.Native.Char.{Char, code}
use Prim.Native.String.{String}
use Prim.Native.String.append
use mathlib.Core.Bool.{Bool, true, false}
use mathlib.Core.Option.{Option, none, some}
use mathlib.Core.Path.{◌≡◌, refl, ap, ◌∙◌, sym}
use ops_sentry.Prelude.Tests.{if◌then◌else◌, nat_eq, ◌==◌, beq_self}
use ops_sentry.Prelude.Texts.{◌+++◌}

-- What follows a prefix.
unfoldable pub strip_prefix : String → String → Option String
strip_prefix String.[] s = some s
strip_prefix (String.◌∷◌ d p) String.[] = none
strip_prefix (String.◌∷◌ d p) (String.◌∷◌ c s) =
    let rest = strip_prefix p s in if code d == code c then rest else none

abbrev pub behind : Char → Option (String × String) → Option (String × String)
behind c none = none
behind c (some (front, back)) = some (String.◌∷◌ c front, back)

abbrev pub cut_here : Char → Option String → Option (String × String) → Option (String × String)
cut_here c (some rest) later = some ("", rest)
cut_here c none later = behind c later

-- s.split(p, 1), where p is not empty: the parts before and after the first p, or none.
unfoldable pub cut_at : String → String → Option (String × String)
unfolding strip_prefix
cut_at p String.[] = none
cut_at p (String.◌∷◌ c s) = cut_here c (strip_prefix p (String.◌∷◌ c s)) (cut_at p s)

-- p begins at no place of `front` in front +++ back.
abbrev pub is_free_of : String → String → String → Bool
is_free_of p String.[] back = true
is_free_of p (String.◌∷◌ c front) back = elim (strip_prefix p (String.◌∷◌ c (front +++ back))) [
  | none ↦ is_free_of p front back
  | some rest ↦ false
]

pub strip_prefix-append : (p s : String) → strip_prefix p (p +++ s) ≡ some s
unfolding strip_prefix
strip_prefix-append String.[] s = ap some (append.nil s)
strip_prefix-append (String.◌∷◌ c p) s =
    rw (append.cons c p s, beq_self (code c)) (strip_prefix-append p s)

-- A marker is found where it was put, if none begins before it.
pub cut_at-append :
    (c : Char) (p front back : String)
    → is_free_of (String.◌∷◌ c p) front (String.◌∷◌ c p +++ back) ≡ true
    → cut_at (String.◌∷◌ c p) (front +++ (String.◌∷◌ c p +++ back)) ≡ some (front, back)
unfolding cut_at strip_prefix
cut_at-append c p String.[] back h =
    ap (cut_at (String.◌∷◌ c p)) (append.nil (String.◌∷◌ c p +++ back) ∙ append.cons c p back)
    ∙ rw (beq_self (code c), strip_prefix-append p back) refl
cut_at-append c p (String.◌∷◌ d front) back h =
    ap (cut_at (String.◌∷◌ c p)) (append.cons d front (String.◌∷◌ c p +++ back))
    ∙ by_place (strip_prefix (String.◌∷◌ c p) (String.◌∷◌ d (front +++ (String.◌∷◌ c p +++ back))))
        h (cut_at-append c p front back)
  where
    by_place :
        (o : Option String)
        → (elim o as (λ _. Bool) [
          | none ↦ is_free_of (String.◌∷◌ c p) front (String.◌∷◌ c p +++ back)
          | some rest ↦ false
        ])
          ≡ true
        → (is_free_of (String.◌∷◌ c p) front (String.◌∷◌ c p +++ back) ≡ true
            → cut_at (String.◌∷◌ c p) (front +++ (String.◌∷◌ c p +++ back)) ≡ some (front, back))
        → cut_here d o (cut_at (String.◌∷◌ c p) (front +++ (String.◌∷◌ c p +++ back)))
          ≡ some (String.◌∷◌ d front, back)
    by_place none k ih = ap (behind d) (ih k)
    by_place (some rest) k ih = cc k

pub cut_at-append_self :
    (c : Char) (p back : String)
    → cut_at (String.◌∷◌ c p) (String.◌∷◌ c p +++ back) ≡ some ("", back)
cut_at-append_self c p back =
    ap (cut_at (String.◌∷◌ c p)) (sym (append.nil (String.◌∷◌ c p +++ back)))
    ∙ cut_at-append c p "" back refl
