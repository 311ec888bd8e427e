-- ===== src/Evolution/Replacing.antt =====
-- `s.replace(m, r)`, and that a text is where it was put.
use Prim.Native.String.{String}
use Prim.Native.String.append
use ops_sentry.Prelude.{
  nat_eq, ℕ, zero, suc, ◌-◌, ◌≡◌, refl, sym, subst, true, false, length, if◌then◌else◌, arith,
  Bool-cases, inl, inr,
}
use ops_sentry.Prelude.Texts.{◌+++◌, chars, is_prefix, is_prefix-append, contains_text}

-- `skip` characters belong to the last occurrence.
unfoldable pub replace_over : String → String → ℕ → ℕ → String → String
unfolding is_prefix
replace_over m r width skip String.[] = ""
replace_over m r width (suc skip) (String.◌∷◌ c s) = replace_over m r width skip s
replace_over m r width zero (String.◌∷◌ c s) =
    (if is_prefix m (String.◌∷◌ c s) then r else String.◌∷◌ c String.[])
    +++ replace_over m r width (if is_prefix m (String.◌∷◌ c s) then width else 0) s

-- s.replace(m, r), where m is not empty
unfoldable pub replace_text : String → String → String → String
unfolding replace_over chars
replace_text m r s = replace_over m r (length (chars m) - 1) 0 s

-- A text stands in what has it.
contains_text-prefix : (p s : String) → is_prefix p s ≡ true → contains_text p s ≡ true
unfolding contains_text
contains_text-prefix p String.[] h = h
contains_text-prefix p (String.◌∷◌ c s) h = rw h refl

pub contains_text-behind :
    (p a s : String) → contains_text p s ≡ true → contains_text p (a +++ s) ≡ true
unfolding contains_text
contains_text-behind p String.[] s h = subst (λ x. contains_text p x ≡ true) (sym (append.nil s)) h
contains_text-behind p (String.◌∷◌ c a) s h =
    subst (λ x. contains_text p x ≡ true) (sym (append.cons c a s))
      (ground (arith, contains_text-behind p a s h))

pub contains_text-append : (p a b : String) → contains_text p (a +++ (p +++ b)) ≡ true
contains_text-append p a b =
    contains_text-behind p a (p +++ b) (contains_text-prefix p (p +++ b) (is_prefix-append p b))

is_prefix-front : (p s t : String) → is_prefix p s ≡ true → is_prefix p (s +++ t) ≡ true
unfolding is_prefix
is_prefix-front String.[] s t h = refl
is_prefix-front (String.◌∷◌ d p) String.[] t h = cc h
is_prefix-front (String.◌∷◌ d p) (String.◌∷◌ c s) t h =
    subst (λ x. is_prefix (String.◌∷◌ d p) x ≡ true) (sym (append.cons c s t))
      (ground (arith, is_prefix-front p s t, h))

contains_text-front : (p s t : String) → contains_text p s ≡ true → contains_text p (s +++ t) ≡ true
unfolding contains_text
contains_text-front p String.[] t h =
    contains_text-prefix p (String.[] +++ t) (is_prefix-front p String.[] t h)
contains_text-front p (String.◌∷◌ c s) t h = elim (Bool-cases (is_prefix p (String.◌∷◌ c s))) [
  | inl q ↦ contains_text-prefix p (String.◌∷◌ c s +++ t) (is_prefix-front p (String.◌∷◌ c s) t q)
  | inr q ↦
      subst (λ x. contains_text p x ≡ true) (sym (append.cons c s t))
        (ground (arith, contains_text-front p s t (rw q at h)))
]

contains_text-replace_over :
    (q m r : String) (width : ℕ) (s : String)
    → contains_text q r ≡ true
    → is_prefix m String.[] ≡ false
    → contains_text m s ≡ true
    → contains_text q (replace_over m r width 0 s) ≡ true
unfolding replace_over contains_text
contains_text-replace_over q m r width String.[] h n k = cc (n, k)
contains_text-replace_over q m r width (String.◌∷◌ c s) h n k =
    elim (Bool-cases (is_prefix m (String.◌∷◌ c s))) [
      | inl p ↦ rw p (contains_text-front q r (replace_over m r width width s) h)
      | inr p ↦ rw p (
          contains_text-behind q (String.◌∷◌ c String.[]) (replace_over m r width 0 s)
            (contains_text-replace_over q m r width s h n (rw p at k)))
    ]

-- Where there was something to replace, the result has what the replacement has.
pub contains_text-replace_text :
    (q m r s : String)
    → contains_text q r ≡ true
    → is_prefix m String.[] ≡ false
    → contains_text m s ≡ true
    → contains_text q (replace_text m r s) ≡ true
unfolding replace_text
contains_text-replace_text q m r s h n k =
    contains_text-replace_over q m r (length (chars m) - 1) s h n k
