-- ===== src/Evaluation/Suites/Notes.antt =====
-- What noting evidence keeps: the keys stay distinct and known, and are those that were noted.
use policyfuzz.Prelude.{
  String, ◌≡◌, refl, ◌∙◌, subst, Bool, true, false, ◌||◌, List, [], ◌∷◌, all, elem, has_duplicates,
  ◌==◌, ==→eq, string_eq, if◌then◌else◌, and_left, and_right, Bool-cases, inl, inr, arith, ok,
  >>=-eq-ok, ok-injective,
}
use policyfuzz.Domain.Rule.{Rule}
use policyfuzz.Domain.Facts.{ScenarioFacts}
use policyfuzz.Domain.Intent.{Invariant}
use policyfuzz.Evaluation.Predicates.{evaluate_conditions, all_matched}
use policyfuzz.Evaluation.Engine.{matched_invariants}
use policyfuzz.Evaluation.Suites.Evidence.{
  CoverageKey, key_eq, Evidence, keys, note, note_all, invariant_ids,
}
use policyfuzz.Evaluation.Suites.Bounds.{is_known}

elem-note :
    (id : String) (k a : CoverageKey) (e : Evidence)
    → elem (keys (note id k e)) a ≡ (k == a || elem (keys e) a)
unfolding note
elem-note id k a [] = refl
elem-note id k a ((j, ids) ∷ e) = elim (Bool-cases (j == k)) [
  | inl same ↦ let eq : j ≡ k = ==→eq j k same in rw same (rw eq (ground arith))
  | inr other ↦ rw other (ground (arith, elem-note id k a e))
]

pub elem-note_all :
    (id : String) (ks : List CoverageKey) (a : CoverageKey) (e : Evidence)
    → elem (keys (note_all id ks e)) a ≡ (elem ks a || elem (keys e) a)
unfolding note_all
elem-note_all id [] a e = refl
elem-note_all id (k ∷ ks) a e =
    elem-note_all id ks a (note id k e) ∙ ground (arith, elem-note id k a e)

unique-note :
    (id : String) (k : CoverageKey) (e : Evidence)
    → has_duplicates (keys e) ≡ false
    → has_duplicates (keys (note id k e)) ≡ false
unfolding note
unique-note id k [] h = refl
unique-note id k ((j, ids) ∷ e) h = elim (Bool-cases (j == k)) [
  | inl same ↦ rw same h
  | inr other ↦ rw other (
      ground
        (arith, elem-note id k j e, unique-note id k e, (key_eq.beq_iff j k), (key_eq.beq_iff k j)))
]

module _ (p : CoverageKey → Bool) where
  all-note :
      (id : String) (k : CoverageKey) (e : Evidence)
      → p k ≡ true
      → all p (keys e) ≡ true
      → all p (keys (note id k e)) ≡ true
  unfolding note
  all-note id k [] h t = ground arith
  all-note id k ((j, ids) ∷ e) h t = elim (Bool-cases (j == k)) [
    | inl same ↦ rw same t
    | inr other ↦ rw other (ground (arith, all-note id k e))
  ]

-- The evidence has distinct keys, all of the request.
pub record IsEvidence (rules : List Rule) (invariants : List Invariant) (e : Evidence)
    : Type 0 where
  pub unique : has_duplicates (keys e) ≡ false
  pub known : all (is_known rules invariants) (keys e) ≡ true

module _ (rules : List Rule) (invariants : List Invariant) where
  pub IsEvidence-note_all :
      (id : String) (ks : List CoverageKey) (e : Evidence)
      → all (is_known rules invariants) ks ≡ true
      → IsEvidence rules invariants e
      → IsEvidence rules invariants (note_all id ks e)
  unfolding note_all
  IsEvidence-note_all id [] e h i = i
  IsEvidence-note_all id (k ∷ ks) e h i =
      IsEvidence-note_all id ks (note id k e) (and_right _ _ h) (record {
        unique = unique-note id k e i.unique;
        known = all-note (is_known rules invariants) id k e (and_left _ _ h) i.known;
      })

-- The matched invariants are some of those of the contract.
pub all-matched_invariants :
    (p : String → Bool) (is : List Invariant) (facts : ScenarioFacts) (found : List Invariant)
    → matched_invariants is facts ≡ ok found
    → all p (invariant_ids is) ≡ true
    → all p (invariant_ids found) ≡ true
unfolding matched_invariants
all-matched_invariants p [] facts found h a =
    subst (λ (x : List Invariant). all p (invariant_ids x) ≡ true) (ok-injective [] found h) refl
all-matched_invariants p (i ∷ is) facts found h a =
    let (traces, _, h1) = >>=-eq-ok (evaluate_conditions i.when facts) _ h in
    let (rest, later, h2) = >>=-eq-ok (matched_invariants is facts) _ h1 in
    let tail = all-matched_invariants p is facts rest later (and_right _ _ a) in
    subst (λ (x : List Invariant). all p (invariant_ids x) ≡ true)
      (ok-injective (if all_matched traces then i ∷ rest else rest) found h2)
      (either (all_matched traces) rest tail)
  where
    either :
        (b : Bool) (rest : List Invariant)
        → all p (invariant_ids rest) ≡ true
        → all p (invariant_ids (if b then i ∷ rest else rest)) ≡ true
    either true rest t = ground arith
    either false rest t = t
