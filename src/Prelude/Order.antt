-- ===== src/Prelude/Order.antt =====
-- The order of texts by their characters' numbers, which is the order of their UTF-8 bytes.
use Prim.Native.Nat.{Ordering, compare as compare_ℕ}
use Prim.Native.Char.{Char, code}
use Prim.Native.String.{String, compare, then}
use Prim.Native.String.compare
use mathlib.Core.Path.{◌≡◌, ap}
use mathlib.Core.Bool.{Bool, true, false}
use native.Mathlib.Omega.{arith}
use text.Mathlib.TextEquality.{path_by_compare}
use text.Mathlib.TextPositions.{compare_refl}

abbrev is_lt : Ordering → Bool
is_lt Ordering.lt = true
is_lt Ordering.eq = false
is_lt Ordering.gt = false

abbrev pub str_lt : String → String → Bool
str_lt s t = is_lt (compare s t)

nil-nil : compare String.[] String.[] ≡ Ordering.eq
nil-nil = compare.nil-nil

nil-cons : (d : Char) (t : String) → compare String.[] (String.◌∷◌ d t) ≡ Ordering.lt
nil-cons d t = compare.nil-cons d t

cons-nil : (c : Char) (s : String) → compare (String.◌∷◌ c s) String.[] ≡ Ordering.gt
cons-nil c s = compare.cons-nil c s

cons-cons :
    (c d : Char) (s t : String)
    → compare (String.◌∷◌ c s) (String.◌∷◌ d t) ≡ then (compare_ℕ (code c) (code d)) (compare s t)
cons-cons c d s t = compare.cons-cons c d s t

pub str_lt_trans : (s t u : String) → str_lt s t ≡ true → str_lt t u ≡ true → str_lt s u ≡ true
str_lt_trans String.[] String.[] u h k = ground (arith, nil-nil)
str_lt_trans String.[] (String.◌∷◌ d t) String.[] h k = ground (arith, cons-nil d t)
str_lt_trans String.[] (String.◌∷◌ d t) (String.◌∷◌ e u) h k = ap is_lt (nil-cons e u)
str_lt_trans (String.◌∷◌ c s) String.[] u h k = ground (arith, cons-nil c s)
str_lt_trans (String.◌∷◌ c s) (String.◌∷◌ d t) String.[] h k = ground (arith, cons-nil d t)
str_lt_trans (String.◌∷◌ c s) (String.◌∷◌ d t) (String.◌∷◌ e u) h k =
    ground (arith, cons-cons c d s t, cons-cons d e t u, cons-cons c e s u, str_lt_trans s t u)

pub str_lt_irrefl : (s : String) → str_lt s s ≡ false
str_lt_irrefl s = ap is_lt (compare_refl s)

neither_before :
    (s t : String) → str_lt s t ≡ false → str_lt t s ≡ false → compare s t ≡ Ordering.eq
neither_before String.[] String.[] h k = nil-nil
neither_before String.[] (String.◌∷◌ d t) h k = ground (arith, nil-cons d t)
neither_before (String.◌∷◌ c s) String.[] h k = ground (arith, nil-cons c s)
neither_before (String.◌∷◌ c s) (String.◌∷◌ d t) h k =
    ground (arith, cons-cons c d s t, cons-cons d c t s, neither_before s t)

pub str_lt_total : (s t : String) → str_lt s t ≡ false → str_lt t s ≡ false → s ≡ t
str_lt_total s t h k = path_by_compare s t (neither_before s t h k)

pub str_lt_asymm : (s t : String) → str_lt s t ≡ true → str_lt t s ≡ false
str_lt_asymm s t h = ground (arith, str_lt_trans s t s, str_lt_irrefl s)
