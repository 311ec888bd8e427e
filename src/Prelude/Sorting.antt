-- ===== src/Prelude/Sorting.antt =====
-- `sorted` and ORDER BY: a stable insertion sort by a Boolean order, and what it gives.
use Prim.Native.Nat.{suc}
use mathlib.Core.Path.{◌≡◌, refl, ap, ◌∙◌}
use mathlib.Core.Bool.{Bool, true, false}
use mathlib.Core.List.{List, [], ◌∷◌, Perm}
use mathlib.Core.List.Perm
use mathlib.Core.Logic.{inl, inr}
use native.Mathlib.Omega.{arith}
use ops_sentry.Prelude.Tests.{if◌then◌else◌, Bool-cases}
use ops_sentry.Prelude.Lists.{All, All-filter, filter, length}

module _ {ℓ} {A : Type ℓ} (before : A → A → Bool) where
  -- `x` goes in front of the first item that is not before it
  unfoldable pub place : A → List A → List A
  place x [] = x ∷ []
  place x (y ∷ ys) = if before y x then y ∷ place x ys else x ∷ y ∷ ys

  unfoldable pub sort : List A → List A
  unfolding place
  sort [] = []
  sort (x ∷ xs) = place x (sort xs)

  -- No item is before an earlier one.
  abbrev pub IsSorted : List A → Type 0
  IsSorted [] = Unit
  IsSorted (x ∷ xs) = All (λ y. before y x ≡ false) xs × IsSorted xs

module _ {ℓ} {A : Type ℓ} (before : A → A → Bool) where
  length-place : (x : A) (ys : List A) → length (place before x ys) ≡ suc (length ys)
  unfolding place
  length-place x [] = refl
  length-place x (y ∷ ys) = ground (arith, length-place x ys)

  pub length-sort : (xs : List A) → length (sort before xs) ≡ length xs
  unfolding sort
  length-sort [] = refl
  length-sort (x ∷ xs) = length-place x (sort before xs) ∙ ap suc (length-sort xs)

  pub place-perm : (x : A) (ys : List A) → Perm (place before x ys) (x ∷ ys)
  unfolding place
  place-perm x [] = Perm.refl (x ∷ [])
  place-perm x (y ∷ ys) = elim (Bool-cases (before y x)) [
    | inl p ↦ rw p (Perm.trans (Perm.cons y (place-perm x ys)) (Perm.swap x y ys))
    | inr q ↦ rw q (Perm.refl (x ∷ y ∷ ys))
  ]

  pub sort-perm : (xs : List A) → Perm (sort before xs) xs
  unfolding sort
  sort-perm [] = Perm.refl []
  sort-perm (x ∷ xs) = Perm.trans (place-perm x (sort before xs)) (Perm.cons x (sort-perm xs))

  pub All-place :
      (P : A → Type 0) (x : A) (ys : List A) → P x → All P ys → All P (place before x ys)
  unfolding place
  All-place P x [] px h = (px, tt)
  All-place P x (y ∷ ys) px h = elim (Bool-cases (before y x)) [
    | inl p ↦ rw p (h.0, All-place P x ys px h.1)
    | inr q ↦ rw q (px, h)
  ]

  pub All-sort : (P : A → Type 0) (xs : List A) → All P xs → All P (sort before xs)
  unfolding sort
  All-sort P [] h = tt
  All-sort P (x ∷ xs) h = All-place P x (sort before xs) h.0 (All-sort P xs h.1)

  module _ (asymm : (x y : A) → before x y ≡ true → before y x ≡ false)
      (through : (x y z : A) → before y x ≡ false → before z y ≡ false → before z x ≡ false) where
    pub above :
        (x y : A) (ys : List A)
        → before y x ≡ false
        → All (λ z. before z y ≡ false) ys
        → All (λ z. before z x ≡ false) ys
    above x y [] h k = tt
    above x y (z ∷ ys) h k = (through x y z h k.0, above x y ys h k.1)

    place-IsSorted :
        (x : A) (ys : List A) → IsSorted before ys → IsSorted before (place before x ys)
    unfolding place
    place-IsSorted x [] h = (tt, tt)
    place-IsSorted x (y ∷ ys) h = elim (Bool-cases (before y x)) [
      | inl p ↦
          rw p (All-place (λ z. before z y ≡ false) x ys (asymm y x p) h.0, place-IsSorted x ys h.1)
      | inr q ↦ rw q ((q, above x y ys q h.0), h)
    ]

    pub sort-IsSorted : (xs : List A) → IsSorted before (sort before xs)
    unfolding sort
    sort-IsSorted [] = tt
    sort-IsSorted (x ∷ xs) = place-IsSorted x (sort before xs) (sort-IsSorted xs)

module _ {ℓ} {A : Type ℓ} (before : A → A → Bool) where
  module _ (p : A → Bool) (asymm : (x y : A) → before x y ≡ true → before y x ≡ false)
      (through : (x y z : A) → before y x ≡ false → before z y ≡ false → before z x ≡ false) where
    place_front :
        (x : A) (ys : List A) → All (λ y. before y x ≡ false) ys → place before x ys ≡ x ∷ ys
    unfolding place
    place_front x [] h = refl
    place_front x (y ∷ ys) h = rw h.0

    filter-place :
        (x : A) (ys : List A)
        → IsSorted before ys
        → filter p (place before x ys) ≡ (if p x then place before x (filter p ys) else filter p ys)
    unfolding place
    filter-place x [] h = refl
    filter-place x (y ∷ ys) h = elim (Bool-cases (before y x)) [
      | inl b ↦ rw b (ground (arith, b, filter-place x ys h.1))
      | inr b ↦ rw b (
          ground (
            arith,
            b,
            place_front x (filter p ys)
                (All-filter _ p ys (above before asymm through x y ys b h.0)),
          ))
    ]

    -- A filter may go before or after the sort.
    pub filter-sort : (xs : List A) → filter p (sort before xs) ≡ sort before (filter p xs)
    unfolding sort
    filter-sort [] = refl
    filter-sort (x ∷ xs) =
        filter-place x (sort before xs) (sort-IsSorted before asymm through xs)
        ∙ ground (arith, filter-sort xs)

  All-of-place : (P : A → Type 0) (x : A) (ys : List A) → All P (place before x ys) → P x × All P ys
  unfolding place
  All-of-place P x [] h = h
  All-of-place P x (y ∷ ys) h = elim (Bool-cases (before y x)) [
    | inl p ↦ let k = rw p at h in let r = All-of-place P x ys k.1 in (r.0, (k.0, r.1))
    | inr q ↦ let k = rw q at h in (k.0, k.1)
  ]

  pub All-of-sort : (P : A → Type 0) (xs : List A) → All P (sort before xs) → All P xs
  unfolding sort
  All-of-sort P [] h = tt
  All-of-sort P (x ∷ xs) h =
      let r = All-of-place P x (sort before xs) h in (r.0, All-of-sort P xs r.1)
