-- ===== src/Prelude/Tests.antt =====
-- Boolean tests, the conditional, and equality of keys as an instance argument.
use Prim.Native.Nat.{ℕ, compare, Ordering}
use Prim.Native.String.{String}
use mathlib.Core.Path.{ap, ◌≡◌, refl, sym, ◌∙◌}
use mathlib.Core.Logic.{◌↔◌, ◌⊎◌, inl, inr, ◌≢◌}
use mathlib.Core.Bool.{Bool, true, false, false≢true}
use mathlib.Core.Option.{Option, none, some}
use native.Mathlib.Omega.{arith}
use text.Mathlib.Text.{◌==◌ as same_text}
use text.Mathlib.TextEquality.{eq_iff}

abbrev pub ltb : ℕ → ℕ → Bool
ltb a b = elim (compare a b) [ Ordering.lt ↦ true | _ ↦ false ]

abbrev pub leb : ℕ → ℕ → Bool
leb a b = elim (compare a b) [ Ordering.gt ↦ false | _ ↦ true ]

abbrev same_number : ℕ → ℕ → Bool
same_number a b = elim (compare a b) [ Ordering.eq ↦ true | _ ↦ false ]

infix 1 if◌then◌else◌
abbrev pub if◌then◌else◌ {ℓ} : {A : Type ℓ} → Bool → A → A → A
if true then x else y = x
if false then x else y = y

pub same_number_iff : (a b : ℕ) → (same_number a b ≡ true) ↔ (a ≡ b)
same_number_iff a b = ground arith

-- Python's `==` on the keys of a dict.
pub record Eq {ℓ} (A : Type ℓ) : Type ℓ where
  pub is_same : A → A → Bool
  pub same_iff : (left right : A) → (is_same left right ≡ true) ↔ (left ≡ right)

infix 50 ◌==◌
abbrev pub ◌==◌ {ℓ} : {A : Type ℓ} ⦃e : Eq A⦄ → A → A → Bool
◌==◌ ⦃e⦄ = e.is_same

instance abbrev pub nat_eq : Eq ℕ
nat_eq = record { is_same = same_number; same_iff = same_number_iff }

instance abbrev pub string_eq : Eq String
string_eq = record { is_same = same_text; same_iff = eq_iff }

-- Python's truth value of an optional value whose payload is always true.
abbrev pub is_some {ℓ} : {A : Type ℓ} → Option A → Bool
is_some none = false
is_some (some a) = true

pub Bool-cases : (b : Bool) → (b ≡ true) ⊎ (b ≡ false)
Bool-cases true = inl refl
Bool-cases false = inr refl

pub Option-cases {ℓ} : {A : Type ℓ} (o : Option A) → (o ≡ none) ⊎ ((a : A) × (o ≡ some a))
Option-cases none = inl refl
Option-cases (some a) = inr (a, refl)

module _ {ℓ} {A : Type ℓ} ⦃e : Eq A⦄ where
  pub beq_self : (a : A) → (a == a) ≡ true
  beq_self a = (e.same_iff a a).1 refl

  pub beq→eq : (a b : A) → (a == b) ≡ true → a ≡ b
  beq→eq a b h = (e.same_iff a b).0 h

  pub beq_of_ne : (a b : A) → a ≢ b → (a == b) ≡ false
  beq_of_ne a b h = elim (Bool-cases (a == b)) [ inl p ↦ absurd (h (beq→eq a b p)) | inr q ↦ q ]

pub code_beq_sym : (a b : ℕ) → (a == b) ≡ (b == a)
code_beq_sym a b = elim (Bool-cases (a == b)) [
  | inl p ↦ p ∙ sym (ap (λ x. b == x) (beq→eq a b p) ∙ beq_self b)
  | inr q ↦ elim (Bool-cases (b == a)) [
    | inl p ↦ absurd (false≢true (sym q ∙ (ap (λ x. x == b) (sym (beq→eq b a p)) ∙ beq_self b)))
    | inr r ↦ q ∙ sym r
  ]
]

pub ne_of_beq : (a b : String) → (a == b) ≡ false → a ≢ b
ne_of_beq a b h e = false≢true (sym h ∙ (eq_iff a b).1 e)
