-- ===== src/Prelude/Exceptions.antt =====
-- Python exceptions as values: a call returns or raises.
use mathlib.Core.Path.{◌≡◌, refl, sym}
use mathlib.Core.Bool.{Bool, true, false}
use mathlib.Core.List.{List, [], ◌∷◌, map}
use Prim.Native.String.{String}
use mathlib.Core.Logic.{◌⊎◌, inl, inr}
use policyfuzz.Prelude.Lists.{All, all, any}
use native.Mathlib.Omega.{arith}

-- The exception classes that the modelled code raises, with the message where there is one.
pub data Exception : Type 0 where
  value_error : String → Exception
  rule_set_validation_error : String → Exception
  patch_validation_error : String → Exception
  type_error : Exception
  recursion_error : Exception
  key_error : Exception
  stop_iteration : Exception

pub data Outcome {ℓ} (A : Type ℓ) : Type ℓ where
  ok : A → Outcome A
  raised : Exception → Outcome A

infixl 5 ◌>>=◌ ◌>>◌
abbrev pub ◌>>=◌ {ℓ κ} : {A : Type ℓ} {B : Type κ} → Outcome A → (A → Outcome B) → Outcome B
ok a >>= f = f a
raised e >>= f = raised e

abbrev pub ◌>>◌ {ℓ} : {B : Type ℓ} → Outcome (Unit {0}) → Outcome B → Outcome B
m >> k = m >>= λ _. k

-- `if not b: raise ValueError(message)`
abbrev pub require : Bool → String → Outcome (Unit {0})
require true message = ok tt
require false message = raised (value_error message)

module _ {ℓ κ} {A : Type ℓ} {B : Type κ} where
  -- A tuple comprehension whose body may raise.
  abbrev pub map_ok : (A → Outcome B) → List A → Outcome (List B)
  map_ok f [] = ok []
  map_ok f (x ∷ xs) = f x >>= λ y. map_ok f xs >>= λ ys. ok (y ∷ ys)

  pub map_ok-of_ok :
      (f : A → Outcome B) (g : A → B) (xs : List A)
      → All (λ x. f x ≡ ok (g x)) xs
      → map_ok f xs ≡ ok (map g xs)
  map_ok-of_ok f g [] h = refl
  map_ok-of_ok f g (x ∷ xs) h = rw (h.0, map_ok-of_ok f g xs h.1)

Outcome-split : (m : Outcome (Unit {0})) → (m ≡ ok tt) ⊎ ((e : Exception) × (m ≡ raised e))
Outcome-split (ok tt) = inl refl
Outcome-split (raised e) = inr (e, refl)

module _ {ℓ} {A : Type ℓ} where
  -- `all(f(x) for x in xs)` and `any(f(x) for x in xs)`: they stop at the first answer.
  abbrev pub all_ok : (A → Outcome Bool) → List A → Outcome Bool
  all_ok f [] = ok true
  all_ok f (x ∷ xs) = f x >>= λ b. elim b [ true ↦ all_ok f xs | false ↦ ok false ]

  abbrev pub any_ok : (A → Outcome Bool) → List A → Outcome Bool
  any_ok f [] = ok false
  any_ok f (x ∷ xs) = f x >>= λ b. elim b [ true ↦ ok true | false ↦ any_ok f xs ]

  -- `for x in xs: f(x)` for a body that only raises.
  abbrev pub each_ok : (A → Outcome (Unit {0})) → List A → Outcome (Unit {0})
  each_ok f [] = ok tt
  each_ok f (x ∷ xs) = f x >>= λ _. each_ok f xs

  pub each_ok→All :
      (f : A → Outcome (Unit {0})) (xs : List A) → each_ok f xs ≡ ok tt → All (λ x. f x ≡ ok tt) xs
  each_ok→All f [] h = tt
  each_ok→All f (x ∷ xs) h = elim (Outcome-split (f x)) [
    | inl e ↦ (e, each_ok→All f xs (rw e at h))
    | inr (raise, e) ↦ cc (rw e at h)
  ]

  pub All→each_ok :
      (f : A → Outcome (Unit {0})) (xs : List A) → All (λ x. f x ≡ ok tt) xs → each_ok f xs ≡ ok tt
  All→each_ok f [] h = refl
  All→each_ok f (x ∷ xs) h = rw (h.0, All→each_ok f xs h.1)

  pub all_ok-of_ok :
      (f : A → Outcome Bool) (g : A → Bool) (xs : List A)
      → All (λ x. f x ≡ ok (g x)) xs
      → all_ok f xs ≡ ok (all g xs)
  all_ok-of_ok f g [] h = refl
  all_ok-of_ok f g (x ∷ xs) h = rw h.0 (ground (arith, all_ok-of_ok f g xs h.1))

  pub any_ok-of_ok :
      (f : A → Outcome Bool) (g : A → Bool) (xs : List A)
      → All (λ x. f x ≡ ok (g x)) xs
      → any_ok f xs ≡ ok (any g xs)
  any_ok-of_ok f g [] h = refl
  any_ok-of_ok f g (x ∷ xs) h = rw h.0 (ground (arith, any_ok-of_ok f g xs h.1))

-- A result is a value or an exception.
pub Outcome-cases {ℓ} :
    {A : Type ℓ} (m : Outcome A) → ((a : A) × (m ≡ ok a)) ⊎ ((e : Exception) × (m ≡ raised e))
Outcome-cases (ok a) = inl (a, refl)
Outcome-cases (raised e) = inr (e, refl)

-- Inversion of a chain that returned.
pub >>=-eq-ok {ℓ κ} :
    {A : Type ℓ} {B : Type κ} (m : Outcome A) (f : A → Outcome B) {b : B}
    → (m >>= f) ≡ ok b
    → (a : A) × (m ≡ ok a) × (f a ≡ ok b)
>>=-eq-ok m f h = elim (Outcome-cases m) [
  | inl (first, e) ↦ (first, e, rw e at h)
  | inr (raise, e) ↦ cc (rw e at h)
]

pub ok-injective {ℓ} : {A : Type ℓ} (a b : A) → ok a ≡ ok b → a ≡ b
ok-injective a b h = cc

-- What each call returns, the comprehension lists.
pub map_ok-map {ℓ κ μ} :
    {A : Type ℓ} {B : Type κ} {C : Type μ} (f : A → Outcome B) (g : B → C) (h : A → C)
    → ((x : A) (y : B) → f x ≡ ok y → g y ≡ h x)
    → (xs : List A) (ys : List B) → map_ok f xs ≡ ok ys
    → map g ys ≡ map h xs
map_ok-map f g h each [] ys e = rw (sym (ok-injective _ _ e)) refl
map_ok-map f g h each (x ∷ xs) ys e =
    let (y, first, e1) = >>=-eq-ok (f x) _ e in
    let (rest, later, e2) = >>=-eq-ok (map_ok f xs) _ e1 in
    rw (sym (ok-injective _ _ e2)) (rw (each x y first, map_ok-map f g h each xs rest later) refl)

-- A requirement in front of a computation that returned.
pub require->> {ℓ} :
    {A : Type ℓ} (b : Bool) (message : String) (k : Outcome A) {a : A}
    → (require b message >> k) ≡ ok a
    → (b ≡ true) × (k ≡ ok a)
require->> true message k h = (refl, h)
require->> false message k h = cc
