-- ===== src/Prelude/Sorting.antt =====
-- Python's `sorted` on texts, and by a text as key: stable, by code points.
use Prim.Native.String.{String, compare}
use mathlib.Core.Path.{◌≡◌, refl}
use mathlib.Core.Bool.{Bool, true, false}
use text.Mathlib.TextEquality.{eq_iff}
use mathlib.Core.List.{List, [], ◌∷◌, map}
use mathlib.Core.Logic.{inl, inr}
use native.Mathlib.Omega.{arith}
use text.Mathlib.Text.{is_lt}
use Prim.Native.Nat.{suc}
use policyfuzz.Prelude.Tests.{if◌then◌else◌, Bool-cases}
use policyfuzz.Prelude.Lists.{All, length, keep, any}
use policyfuzz.Prelude.Equality.{string_eq}
use policyfuzz.Prelude.Membership.{elem, has_duplicates}

abbrev pub text_lt : String → String → Bool
text_lt a b = is_lt (compare a b)

module _ {ℓ} {A : Type ℓ} where
  -- An element goes in front of the first one whose key is not smaller.
  abbrev pub place : (A → String) → A → List A → List A
  place key a [] = a ∷ []
  place key a (x ∷ xs) = if text_lt (key x) (key a) then x ∷ place key a xs else a ∷ x ∷ xs

  abbrev pub sorted_by : (A → String) → List A → List A
  sorted_by key [] = []
  sorted_by key (x ∷ xs) = place key x (sorted_by key xs)

  pub All-place {κ} :
      (P : A → Type κ) (key : A → String) (a : A) (xs : List A)
      → P a
      → All P xs
      → All P (place key a xs)
  All-place P key a [] h hs = (h, tt)
  All-place P key a (x ∷ xs) h hs = elim (Bool-cases (text_lt (key x) (key a))) [
    | inl e ↦ rw e (hs.0, All-place P key a xs h hs.1)
    | inr e ↦ rw e (h, hs)
  ]

  pub All-sorted_by {κ} :
      (P : A → Type κ) (key : A → String) (xs : List A) → All P xs → All P (sorted_by key xs)
  All-sorted_by P key [] h = tt
  All-sorted_by P key (x ∷ xs) h =
      All-place P key x (sorted_by key xs) h.0 (All-sorted_by P key xs h.1)

  pub length-place :
      (key : A → String) (a : A) (xs : List A) → length (place key a xs) ≡ suc (length xs)
  length-place key a [] = refl
  length-place key a (x ∷ xs) = ground (arith, length-place key a xs)

  pub length-sorted_by : (key : A → String) (xs : List A) → length (sorted_by key xs) ≡ length xs
  length-sorted_by key [] = refl
  length-sorted_by key (x ∷ xs) =
      omega (arith, length-place key x (sorted_by key xs), length-sorted_by key xs)

abbrev pub sorted : List String → List String
sorted xs = sorted_by (λ s. s) xs

elem-place : (b a : String) (xs : List String) → elem (place (λ s. s) b xs) a ≡ elem (b ∷ xs) a
elem-place b a [] = refl
elem-place b a (x ∷ xs) = ground (arith, elem-place b a xs)

pub elem-sorted : (xs : List String) (a : String) → elem (sorted xs) a ≡ elem xs a
elem-sorted [] a = refl
elem-sorted (x ∷ xs) a = ground (arith, elem-place x a (sorted xs), elem-sorted xs a)

module _ {ℓ} {A : Type ℓ} (p : A → Bool) (key : A → String) where
  length-keep-place :
      (a : A) (xs : List A) → length (keep p (place key a xs)) ≡ length (keep p (a ∷ xs))
  length-keep-place a [] = refl
  length-keep-place a (x ∷ xs) = ground (arith, length-keep-place a xs)

  -- Sorting loses nothing and adds nothing.
  pub length-keep-sorted_by :
      (xs : List A) → length (keep p (sorted_by key xs)) ≡ length (keep p xs)
  length-keep-sorted_by [] = refl
  length-keep-sorted_by (x ∷ xs) =
      ground (arith, length-keep-place x (sorted_by key xs), length-keep-sorted_by xs)

  any-place : (a : A) (xs : List A) → any p (place key a xs) ≡ any p (a ∷ xs)
  any-place a [] = refl
  any-place a (x ∷ xs) = ground (arith, any-place a xs)

  pub any-sorted_by : (xs : List A) → any p (sorted_by key xs) ≡ any p xs
  any-sorted_by [] = refl
  any-sorted_by (x ∷ xs) = ground (arith, any-place x (sorted_by key xs), any-sorted_by xs)

module _ {ℓ} {A : Type ℓ} (field : A → String) (key : A → String) where
  elem-map-place :
      (a : A) (xs : List A) (b : String)
      → elem (map field (place key a xs)) b ≡ elem (field a ∷ map field xs) b
  elem-map-place a [] b = refl
  elem-map-place a (x ∷ xs) b = ground (arith, elem-map-place a xs b)

  pub elem-map-sorted_by :
      (xs : List A) (b : String) → elem (map field (sorted_by key xs)) b ≡ elem (map field xs) b
  elem-map-sorted_by [] b = refl
  elem-map-sorted_by (x ∷ xs) b =
      ground (arith, elem-map-place x (sorted_by key xs) b, elem-map-sorted_by xs b)

  has_duplicates-place :
      (a : A) (xs : List A)
      → has_duplicates (map field (place key a xs)) ≡ has_duplicates (field a ∷ map field xs)
  has_duplicates-place a [] = refl
  has_duplicates-place a (x ∷ xs) = ground (
    arith,
    eq_iff (field a) (field x),
    eq_iff (field x) (field a),
    elem-map-place a xs (field x),
    has_duplicates-place a xs,
  )

  pub has_duplicates-sorted_by :
      (xs : List A) → has_duplicates (map field (sorted_by key xs)) ≡ has_duplicates (map field xs)
  has_duplicates-sorted_by [] = refl
  has_duplicates-sorted_by (x ∷ xs) = ground (
    arith,
    has_duplicates-place x (sorted_by key xs),
    elem-map-sorted_by xs (field x),
    has_duplicates-sorted_by xs,
  )

module _ {ℓ} {A : Type ℓ} (field : A → String) (p : A → Bool) where
  elem-map-keep_le :
      (xs : List A) (b : String)
      → elem (map field (keep p xs)) b ≡ true
      → elem (map field xs) b ≡ true
  elem-map-keep_le [] b h = h
  elem-map-keep_le (x ∷ xs) b h = ground (arith, elem-map-keep_le xs b)

  pub has_duplicates-keep :
      (xs : List A)
      → has_duplicates (map field xs) ≡ false
      → has_duplicates (map field (keep p xs)) ≡ false
  has_duplicates-keep [] h = refl
  has_duplicates-keep (x ∷ xs) h =
      ground (arith, elem-map-keep_le xs (field x), has_duplicates-keep xs)
