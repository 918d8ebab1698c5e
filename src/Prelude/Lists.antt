-- ===== src/Prelude/Lists.antt =====
-- Lists: lengths in native numbers, Boolean quantifiers as Python's `any` and `all`, and
-- predicates on all elements by recursion.
use Prim.Native.Nat.{ℕ, suc, ◌+◌, ◌≤◌}
use mathlib.Core.Path.{◌≡◌, refl}
use mathlib.Core.Bool.{Bool, true, false, ◌&&◌, ◌||◌}
use mathlib.Core.List.{List, [], ◌∷◌, ◌++◌, map}
use native.Mathlib.Omega.{arith}
use policyfuzz.Prelude.Tests.{
  if◌then◌else◌, leb, leb→le, and_left, and_right, and_intro, or_cases, Bool-cases,
}
use mathlib.Core.Logic.{inl, inr}

module _ {ℓ} {A : Type ℓ} where
  abbrev pub length : List A → ℕ
  length [] = 0
  length (x ∷ xs) = suc (length xs)

  abbrev pub all : (A → Bool) → List A → Bool
  all p [] = true
  all p (x ∷ xs) = p x && all p xs

  abbrev pub any : (A → Bool) → List A → Bool
  any p [] = false
  any p (x ∷ xs) = p x || any p xs

  -- `[x for x in xs if p(x)]`
  abbrev pub keep : (A → Bool) → List A → List A
  keep p [] = []
  keep p (x ∷ xs) = if p x then x ∷ keep p xs else keep p xs

  abbrev pub is_empty : List A → Bool
  is_empty [] = true
  is_empty (x ∷ xs) = false

module _ {ℓ κ} {A : Type ℓ} where
  abbrev pub All : (A → Type κ) → List A → Type κ
  All P [] = Unit
  All P (x ∷ xs) = P x × All P xs

module _ {ℓ} {A : Type ℓ} where
  pub length-append : (xs ys : List A) → length (xs ++ ys) ≡ length xs + length ys
  length-append [] ys = omega arith
  length-append (x ∷ xs) ys = omega (arith, length-append xs ys)

  pub all→All : (p : A → Bool) (xs : List A) → all p xs ≡ true → All (λ x. p x ≡ true) xs
  all→All p [] h = tt
  all→All p (x ∷ xs) h = (and_left (p x) _ h, all→All p xs (and_right (p x) _ h))

  pub All→all : (p : A → Bool) (xs : List A) → All (λ x. p x ≡ true) xs → all p xs ≡ true
  All→all p [] h = refl
  All→all p (x ∷ xs) h = and_intro (p x) _ h.0 (All→all p xs h.1)

  -- `any` finds an element where the predicate `Q` that comes with the list holds too.
  pub any-elim {κ} :
      (p : A → Bool) (Q : A → Type κ) (xs : List A)
      → All Q xs
      → any p xs ≡ true
      → (x : A) × Q x × (p x ≡ true)
  any-elim p Q [] hq h = cc
  any-elim p Q (x ∷ xs) hq h = elim (or_cases (p x) _ h) [
    | inl here ↦ (x, hq.0, here)
    | inr there ↦ any-elim p Q xs hq.1 there
  ]

  pub All-map {κ μ} :
      {P : A → Type κ} {Q : A → Type μ} (f : (x : A) → P x → Q x) (xs : List A)
      → All P xs
      → All Q xs
  All-map f [] h = tt
  All-map f (x ∷ xs) h = (f x h.0, All-map f xs h.1)

  pub length-keep-le : (p : A → Bool) (xs : List A) → length (keep p xs) ≤ length xs
  length-keep-le p [] = omega arith
  length-keep-le p (x ∷ xs) = ground (arith, length-keep-le p xs)

  pub All-keep {κ} :
      (P : A → Type κ) (p : A → Bool) (xs : List A)
      → All P xs
      → All (λ x. P x × (p x ≡ true)) (keep p xs)
  All-keep P p [] h = tt
  All-keep P p (x ∷ xs) h = elim (Bool-cases (p x)) [
    | inl e ↦ rw e ((h.0, e), All-keep P p xs h.1)
    | inr e ↦ rw e (All-keep P p xs h.1)
  ]

  -- All kept elements satisfy `q` exactly when every element that passes `p` does.
  pub All-of_keep {κ} :
      (P : A → Type κ) (p : A → Bool) (xs : List A)
      → All P (keep p xs)
      → All (λ x. p x ≡ true → P x) xs
  All-of_keep P p [] h = tt
  All-of_keep P p (x ∷ xs) h = elim (Bool-cases (p x)) [
    | inl e ↦ let k : All P (x ∷ keep p xs) = (rw e at h) in (λ _. k.0, All-of_keep P p xs k.1)
    | inr e ↦ (λ t. cc, All-of_keep P p xs (rw e at h))
  ]

  pub All-append {κ} :
      (P : A → Type κ) (front back : List A) → All P front → All P back → All P (front ++ back)
  All-append P [] back h k = k
  All-append P (x ∷ front) back h k = (h.0, All-append P front back h.1 k)

module _ {ℓ κ} {A : Type ℓ} {B : Type κ} where
  pub any-map : (p : B → Bool) (f : A → B) (xs : List A) → any p (map f xs) ≡ any (λ x. p (f x)) xs
  any-map p f [] = refl
  any-map p f (x ∷ xs) = rw (any-map p f xs)

  pub all-map : (p : B → Bool) (f : A → B) (xs : List A) → all p (map f xs) ≡ all (λ x. p (f x)) xs
  all-map p f [] = refl
  all-map p f (x ∷ xs) = rw (all-map p f xs)

  pub All-map_iff {μ} :
      (P : B → Type μ) (f : A → B) (xs : List A) → All (λ x. P (f x)) xs → All P (map f xs)
  All-map_iff P f [] h = tt
  All-map_iff P f (x ∷ xs) h = (h.0, All-map_iff P f xs h.1)

  -- A family of facts about all elements, each used at the element's own key.
  pub All-at_key {μ} :
      (key : A → B) (P : B → A → Type μ) (xs : List A)
      → ((b : B) → All (P b) xs)
      → All (λ x. P (key x) x) xs
  All-at_key key P [] h = tt
  All-at_key key P (x ∷ xs) h = ((h (key x)).0, All-at_key key P xs (λ b. (h b).1))

module _ {ℓ} {A : Type ℓ} where
  -- An element of a nonempty list where a measure is greatest.
  pub greatest {κ} :
      (Q : A → Type κ) (f : A → ℕ) (x : A) (xs : List A)
      → All Q (x ∷ xs)
      → (m : A) × Q m × All (λ y. f y ≤ f m) (x ∷ xs)
  greatest Q f x [] h = (x, h.0, (omega arith, tt))
  greatest Q f x (y ∷ ys) h =
      let (m, q, le) = greatest Q f y ys h.1 in
      elim (Bool-cases (leb (f x) (f m))) [
        | inl small ↦ (m, q, (leb→le (f x) (f m) small, le))
        | inr large ↦
            let less : f m ≤ f x = ground arith in
            (x, h.0, (omega arith, All-map (λ z lz. omega arith) (y ∷ ys) le))
      ]

  pub any-of_any :
      (p q : A → Bool) (xs : List A)
      → ((x : A) → p x ≡ true → q x ≡ true)
      → any p xs ≡ true
      → any q xs ≡ true
  any-of_any p q [] f h = h
  any-of_any p q (x ∷ xs) f h = elim (or_cases (p x) _ h) [
    | inl here ↦ ground (arith, f x here)
    | inr there ↦ ground (arith, any-of_any p q xs f there)
  ]

  pub All-and {κ μ} :
      (P : A → Type κ) (Q : A → Type μ) (xs : List A)
      → All P xs
      → All Q xs
      → All (λ x. P x × Q x) xs
  All-and P Q [] h k = tt
  All-and P Q (x ∷ xs) h k = ((h.0, k.0), All-and P Q xs h.1 k.1)
