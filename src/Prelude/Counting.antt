-- ===== src/Prelude/Counting.antt =====
-- Counting: a list without repetition is no longer than a list that has all its elements.
use Prim.Native.Nat.{suc, ◌≤◌}
use mathlib.Core.Path.{◌≡◌, refl, sym}
use mathlib.Core.Logic.{inl, inr}
use mathlib.Core.Bool.{Bool, true, false, not}
use mathlib.Core.List.{List, [], ◌∷◌}
use native.Mathlib.Omega.{arith}
use policyfuzz.Prelude.Tests.{if◌then◌else◌, Bool-cases}
use policyfuzz.Prelude.Lists.{all, keep, length}
use policyfuzz.Prelude.Equality.{Eq, ◌==◌, ==→eq, ==_refl}
use policyfuzz.Prelude.Membership.{elem, distinct, has_duplicates}

module _ {ℓ} {A : Type ℓ} ⦃e : Eq A⦄ where
  remove_one : A → List A → List A
  remove_one x [] = []
  remove_one x (y ∷ ys) = if y == x then ys else y ∷ remove_one x ys

  length-remove_one :
      (x : A) (ys : List A) → elem ys x ≡ true → suc (length (remove_one x ys)) ≡ length ys
  unfolding remove_one
  length-remove_one x [] h = cc
  length-remove_one x (y ∷ ys) h = elim (Bool-cases (y == x)) [
    | inl same ↦ rw same (omega arith)
    | inr other ↦ rw other (omega (arith, length-remove_one x ys (rw other at h)))
  ]

  elem-remove_one :
      (x a : A) (ys : List A)
      → elem ys a ≡ true
      → (a == x) ≡ false
      → elem (remove_one x ys) a ≡ true
  unfolding remove_one
  elem-remove_one x a [] h d = h
  elem-remove_one x a (y ∷ ys) h d = elim (Bool-cases (y == x)) [
    | inl same ↦ elim (Bool-cases (y == a)) [
      | inl both ↦
          let e1 : y ≡ x = ==→eq y x same in
          let e2 : y ≡ a = ==→eq y a both in
          let d' : (y == y) ≡ false = rw (sym e1, sym e2) at d in cc (==_refl y)
      | inr away ↦ rw same (rw away at h)
    ]
    | inr other ↦ elim (Bool-cases (y == a)) [
      | inl here ↦ rw (other, here) refl
      | inr away ↦ rw (other, away) (elem-remove_one x a ys (rw away at h) d)
    ]
  ]

  all-remove_one :
      (x : A) (xs ys : List A)
      → all (elem ys) xs ≡ true
      → elem xs x ≡ false
      → all (elem (remove_one x ys)) xs ≡ true
  all-remove_one x [] ys h n = refl
  all-remove_one x (a ∷ xs) ys h n = ground (arith, elem-remove_one x a ys, all-remove_one x xs ys)

  pub length-subset :
      (xs ys : List A) → has_duplicates xs ≡ false → all (elem ys) xs ≡ true → length xs ≤ length ys
  length-subset [] ys u h = omega arith
  length-subset (x ∷ xs) ys u h =
      let shorter = length-remove_one x ys (ground arith) in
      let rest =
        length-subset xs (remove_one x ys) (ground arith)
          (all-remove_one x xs ys (ground arith) (ground arith)) in
      omega arith

  pub all-distinct : (p : A → Bool) (xs : List A) → all p xs ≡ true → all p (distinct xs) ≡ true
  all-distinct p [] h = refl
  all-distinct p (x ∷ xs) h = elim (Bool-cases (elem (distinct xs) x)) [
    | inl old ↦ rw old (ground (arith, all-distinct p xs))
    | inr new ↦ rw new (ground (arith, all-distinct p xs))
  ]

  elem-keep_le : (p : A → Bool) (xs : List A) (a : A) → elem (keep p xs) a ≡ true → elem xs a ≡ true
  elem-keep_le p [] a h = h
  elem-keep_le p (x ∷ xs) a h = ground (arith, elem-keep_le p xs a)

  pub unique-keep :
      (p : A → Bool) (xs : List A) → has_duplicates xs ≡ false → has_duplicates (keep p xs) ≡ false
  unique-keep p [] h = refl
  unique-keep p (x ∷ xs) h = ground (arith, elem-keep_le p xs x, unique-keep p xs)

  pub all-elem-keep :
      (covered : List A) (xs : List A)
      → length (keep (λ x. not (elem covered x)) xs) ≡ 0
      → all (elem covered) xs ≡ true
  all-elem-keep covered [] h = refl
  all-elem-keep covered (x ∷ xs) h = ground (arith, all-elem-keep covered xs)
