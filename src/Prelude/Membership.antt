-- ===== src/Prelude/Membership.antt =====
-- Membership in Python tuples and sets of comparable elements. A set is a list without repetition
-- that `insert` builds; its order carries no meaning.
use mathlib.Core.Path.{◌≡◌, refl}
use mathlib.Core.Logic.{◌⊎◌, inl, inr}
use mathlib.Core.Bool.{Bool, true, false, ◌||◌, ◌&&◌, false≢true}
use mathlib.Core.List.{List, [], ◌∷◌, ◌++◌, map}
use native.Mathlib.Omega.{arith}
use policyfuzz.Prelude.Tests.{
  if◌then◌else◌, Bool-ext, Bool-cases, or_cases, or_left, or_right, and_intro,
}
use policyfuzz.Prelude.Lists.{All, all, any, keep}
use policyfuzz.Prelude.Equality.{Eq, ◌==◌, ==_refl, ==→eq}

module _ {ℓ} {A : Type ℓ} ⦃e : Eq A⦄ where
  -- `x in xs`
  abbrev pub elem : List A → A → Bool
  elem [] a = false
  elem (x ∷ xs) a = (x == a) || elem xs a

  -- `xs.add(x)`
  abbrev pub insert : A → List A → List A
  insert a xs = if elem xs a then xs else a ∷ xs

  -- `set(xs)`
  abbrev pub distinct : List A → List A
  distinct [] = []
  distinct (x ∷ xs) = insert x (distinct xs)

  -- `xs <= ys` on sets
  abbrev pub subset : List A → List A → Bool
  subset xs ys = all (elem ys) xs

  abbrev pub has_duplicates : List A → Bool
  has_duplicates [] = false
  has_duplicates (x ∷ xs) = elem xs x || has_duplicates xs

  pub elem-cons : (x a : A) (xs : List A) → elem (x ∷ xs) a ≡ true → (x ≡ a) ⊎ (elem xs a ≡ true)
  elem-cons x a xs h = elim (or_cases (x == a) (elem xs a) h) [
    | inl here ↦ inl (==→eq x a here)
    | inr there ↦ inr there
  ]

  pub elem-here : (x : A) (xs : List A) → elem (x ∷ xs) x ≡ true
  elem-here x xs = or_left (x == x) (elem xs x) (==_refl x)

  pub elem-there : (x a : A) (xs : List A) → elem xs a ≡ true → elem (x ∷ xs) a ≡ true
  elem-there x a xs h = or_right (x == a) (elem xs a) h

  pub All-elem {κ} : (P : A → Type κ) (xs : List A) → All P xs → (a : A) → elem xs a ≡ true → P a
  All-elem P [] h a m = cc
  All-elem P (x ∷ xs) h a m = elim (elem-cons x a xs m) [
    | inl same ↦ rw same at (h.0)
    | inr there ↦ All-elem P xs h.1 a there
  ]

  pub All-of_elem {κ} :
      (P : A → Type κ) (xs : List A) → ((a : A) → elem xs a ≡ true → P a) → All P xs
  All-of_elem P [] f = tt
  All-of_elem P (x ∷ xs) f =
      (f x (elem-here x xs), All-of_elem P xs (λ a m. f a (elem-there x a xs m)))

  pub elem-insert_self : (a : A) (xs : List A) → elem (insert a xs) a ≡ true
  elem-insert_self a xs = elim (Bool-cases (elem xs a)) [
    | inl old ↦ rw old old
    | inr new ↦ rw new (elem-here a xs)
  ]

  pub elem-insert_of_elem : (b a : A) (xs : List A) → elem xs a ≡ true → elem (insert b xs) a ≡ true
  elem-insert_of_elem b a xs h = elim (Bool-cases (elem xs b)) [
    | inl old ↦ rw old h
    | inr new ↦ rw new (elem-there b a xs h)
  ]

  pub elem-distinct : (a : A) (xs : List A) → elem xs a ≡ true → elem (distinct xs) a ≡ true
  elem-distinct a [] h = cc
  elem-distinct a (x ∷ xs) h = elim (elem-cons x a xs h) [
    | inl same ↦ rw same (elem-insert_self a (distinct xs))
    | inr there ↦ elem-insert_of_elem x a (distinct xs) (elem-distinct a xs there)
  ]

  pub any-of_elem :
      (p : A → Bool) (xs : List A) (a : A) → elem xs a ≡ true → p a ≡ true → any p xs ≡ true
  any-of_elem p [] a m h = cc
  any-of_elem p (x ∷ xs) a m h = elim (elem-cons x a xs m) [
    | inl same ↦ or_left (p x) (any p xs) (rw same h)
    | inr there ↦ or_right (p x) (any p xs) (any-of_elem p xs a there h)
  ]

  pub elem-append : (xs ys : List A) (a : A) → elem (xs ++ ys) a ≡ (elem xs a || elem ys a)
  elem-append [] ys a = refl
  elem-append (x ∷ xs) ys a = ground (arith, elem-append xs ys a)

  pub elem-keep : (p : A → Bool) (xs : List A) (a : A) → elem (keep p xs) a ≡ (p a && elem xs a)
  elem-keep p [] a = ground arith
  elem-keep p (x ∷ xs) a = elim (Bool-cases (x == a)) [
    | inl same ↦
        let e : x ≡ a = ==→eq x a same in rw (same, e) (ground (arith, elem-keep p xs a, ==_refl a))
    | inr other ↦ rw other (ground (arith, elem-keep p xs a, other))
  ]

  pub elem-of_insert :
      (b a : A) (xs : List A) → elem (insert b xs) a ≡ true → elem (b ∷ xs) a ≡ true
  elem-of_insert b a xs h = elim (Bool-cases (elem xs b)) [
    | inl old ↦ elem-there b a xs (rw old at h)
    | inr new ↦ rw new at h
  ]

  pub elem-of_distinct : (a : A) (xs : List A) → elem (distinct xs) a ≡ true → elem xs a ≡ true
  elem-of_distinct a [] h = h
  elem-of_distinct a (x ∷ xs) h =
      elim (elem-cons x a (distinct xs) (elem-of_insert x a (distinct xs) h)) [
        | inl same ↦ or_left (x == a) (elem xs a) (rw same (==_refl a))
        | inr later ↦ elem-there x a xs (elem-of_distinct a xs later)
      ]

  -- An element of a mapped list comes from an element of the list, with what holds of all of them.
  pub elem-map_of_All {κ μ} :
      {B : Type κ} (Q : B → Type μ) (f : B → A) (xs : List B) (a : A)
      → All Q xs
      → elem (map f xs) a ≡ true
      → (x : B) × Q x × (f x ≡ a)
  elem-map_of_All Q f [] a q h = absurd (false≢true h)
  elem-map_of_All Q f (x ∷ xs) a q h = elim (elem-cons (f x) a (map f xs) h) [
    | inl same ↦ (x, q.0, same)
    | inr later ↦ elem-map_of_All Q f xs a q.1 later
  ]

  pub elem-distinct_eq : (xs : List A) (a : A) → elem (distinct xs) a ≡ elem xs a
  elem-distinct_eq xs a = Bool-ext _ _ (elem-of_distinct a xs) (elem-distinct a xs)

  pub elem-map-keep {κ} :
      {B : Type κ} (p : B → Bool) (f : B → A) (xs : List B) (a : A)
      → elem (map f (keep p xs)) a ≡ any (λ x. p x && (f x == a)) xs
  elem-map-keep p f [] a = refl
  elem-map-keep p f (x ∷ xs) a = ground (arith, elem-map-keep p f xs a)

  pub elem-map-any {κ} :
      {B : Type κ} (f : B → A) (xs : List B) (a : A) → elem (map f xs) a ≡ any (λ x. f x == a) xs
  elem-map-any f [] a = refl
  elem-map-any f (x ∷ xs) a = ground (arith, elem-map-any f xs a)

  pub has_duplicates-distinct : (xs : List A) → has_duplicates (distinct xs) ≡ false
  has_duplicates-distinct [] = refl
  has_duplicates-distinct (x ∷ xs) = ground (arith, has_duplicates-distinct xs)

  pub all-of_elem :
      (p : A → Bool) (xs : List A) → ((a : A) → elem xs a ≡ true → p a ≡ true) → all p xs ≡ true
  all-of_elem p [] h = refl
  all-of_elem p (x ∷ xs) h =
      and_intro (p x) _ (h x (elem-here x xs)) (all-of_elem p xs (λ a m. h a (elem-there x a xs m)))
