-- ===== src/Evaluation/Conditions/Descent.antt =====
-- Between two neighbouring candidates no comparison changes its answer, so the candidates stand for
-- the whole range of an integer field.
use policyfuzz.Prelude.{
  ℕ, zero, suc, ◌≤◌, ◌≡◌, ◌≢◌, refl, Bool, true, false, ◌&&◌, List, [], ◌∷◌, ◌++◌, All, all, elem,
  elem-append, elem-keep, Bool-cases, inl, inr, ℤ, pos, negsuc, int_eq, pred_ℤ, suc_ℤ, leb_ℤ, ok,
  arith, leb, leb→le, le→leb, All-append,
}
use policyfuzz.Domain.Vocabulary.{PredicateOperator}
use policyfuzz.Domain.Value.{Value, int}
use policyfuzz.Domain.Predicate.{Predicate}
use policyfuzz.Evaluation.Predicates.{integer, HasKind, IsTyped, holds}
use policyfuzz.Evaluation.Conditions.Candidates.{boundaries, within}

-- Every value of a test on 0 … k is its value at some candidate, if it changes at candidates only.
pub descend :
    (m : ℕ) (cands : List ℤ) (q : ℕ → Bool)
    → elem cands (pos 0) ≡ true
    → ((k : ℕ) → suc k ≤ m → elem cands (pos (suc k)) ≡ false → q (suc k) ≡ q k)
    → (k : ℕ) → k ≤ m
    → (j : ℕ) × (elem cands (pos j) ≡ true) × (q j ≡ q k)
descend m cands q start same zero h = (0, start, refl)
descend m cands q start same (suc k) h = elim (Bool-cases (elem cands (pos (suc k)))) [
  | inl found ↦ (suc k, found, refl)
  | inr absent ↦
      let (j, found, e) = descend m cands q start same k (omega arith) in
      (j, found, ground (arith, same k h absent, e))
]

pub compare-suc :
    (op : PredicateOperator) (k c : ℕ)
    → suc k ≢ c
    → k ≢ c
    → holds op (int (pos (suc k))) (int (pos c)) ≡ holds op (int (pos k)) (int (pos c))
compare-suc op k c h i = ground arith

within-absent :
    (m c k : ℕ)
    → suc k ≤ m
    → elem (within m (pred_ℤ (pos c) ∷ pos c ∷ suc_ℤ (pos c) ∷ [])) (pos (suc k)) ≡ false
    → (suc k ≢ c) × (k ≢ c)
within-absent m c k h absent =
    let e =
      elem-keep (λ v. leb_ℤ (pos 0) v && leb_ℤ v (pos m))
        (pred_ℤ (pos c) ∷ pos c ∷ suc_ℤ (pos c) ∷ []) (pos (suc k)) in
    ground (arith, e, absent)

-- What the loop over the predicates adds to the candidates.
pub record IsBoundary (m : ℕ) (ps : List Predicate) (bs : List ℤ) : Type 0 where
  pub computed : boundaries m ps ≡ ok bs
  pub inside : All (λ z. HasKind (integer m) (int z)) bs
  pub steady :
      (k : ℕ)
      → suc k ≤ m
      → elem bs (pos (suc k)) ≡ false
      → all (λ p. holds p.operator (int (pos (suc k))) p.value) ps
        ≡ all (λ p. holds p.operator (int (pos k)) p.value) ps

pub within-inside : (m : ℕ) (zs : List ℤ) → All (λ z. HasKind (integer m) (int z)) (within m zs)
within-inside m [] = tt
within-inside m (pos n ∷ zs) = elim (Bool-cases (leb n m)) [
  | inl e ↦ rw (le→leb 0 n (omega arith), e) (leb→le n m e, within-inside m zs)
  | inr e ↦ rw (le→leb 0 n (omega arith), e) (within-inside m zs)
]
within-inside m (negsuc n ∷ zs) = within-inside m zs

-- A validated comparison is between integers, and its value is in the range.
pub typed-value :
    (m : ℕ) (op : PredicateOperator) (v : Value)
    → IsTyped (integer m) op v
    → (c : ℕ) × (v ≡ int (pos c)) × (c ≤ m)
typed-value m op (int (pos c)) t = (c, refl, t.1)
typed-value m op _ t = absurd t

abbrev around : ℕ → ℕ → List ℤ
around m c = within m (pred_ℤ (pos c) ∷ pos c ∷ suc_ℤ (pos c) ∷ [])

IsBoundary-cons :
    (m c : ℕ) (p : Predicate) (ps : List Predicate) (bs : List ℤ)
    → p.value ≡ int (pos c)
    → IsBoundary m ps bs
    → IsBoundary m (p ∷ ps) (around m c ++ bs)
IsBoundary-cons m c p ps bs e b = record {
  computed = rw (e, b.computed);
  inside =
      All-append _ (around m c) bs (within-inside m (pred_ℤ (pos c) ∷ pos c ∷ suc_ℤ (pos c) ∷ []))
        b.inside;
  steady = λ k h absent.
      let s = elem-append (around m c) bs (pos (suc k)) in
      let apart = within-absent m c k h (ground (arith, s, absent)) in
      let first = compare-suc p.operator k c apart.0 apart.1 in
      rw (e, first, b.steady k h (ground (arith, s, absent)));
}

pub IsBoundary-of_typed :
    (m : ℕ) (ps : List Predicate)
    → All (λ p. IsTyped (integer m) p.operator p.value) ps
    → (bs : List ℤ) × IsBoundary m ps bs
IsBoundary-of_typed m [] t = ([], record { computed = refl; inside = tt; steady = λ k h a. refl })
IsBoundary-of_typed m (p ∷ ps) t =
    let (c, e, le) = typed-value m p.operator p.value t.0 in
    let (bs, b) = IsBoundary-of_typed m ps t.1 in
    (around m c ++ bs, IsBoundary-cons m c p ps bs e b)
