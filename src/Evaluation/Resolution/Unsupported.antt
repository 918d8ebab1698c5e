-- ===== src/Evaluation/Resolution/Unsupported.antt =====
-- Which unsupported clauses leave a dimension open.
use policyfuzz.Prelude.{
  String, ◌≡◌, ◌⊎◌, ◌↔◌, inl, inr, refl, sym, All-map, ◌∙◌, Bool, true, false, List, [], ◌∷◌, All,
  elem, elem-cons, elem-here, elem-there, string_eq, none, some, Option-cases, Bool-cases, ok,
  ◌>>=◌, >>=-eq-ok, ok-injective, if◌then◌else◌,
}
use policyfuzz.Domain.Vocabulary.{EffectDimension, dimension_eq}
use policyfuzz.Domain.Predicate.{Predicate}
use policyfuzz.Domain.Drafts.Parts.{IsStored, IsClause}
use policyfuzz.Domain.Facts.{ScenarioFacts, IsInDomain}
use policyfuzz.Domain.Rule.{UnsupportedClause}
use policyfuzz.Evaluation.Predicates.{
  PredicateTrace, IsValidated, evaluate_conditions, evaluate_conditions-ok, all_matched,
}
use policyfuzz.Evaluation.Resolution.Defs.{clause_applies, open_clauses}

module _ (dimension : EffectDimension) (required : List EffectDimension)
    (facts : ScenarioFacts) where
  -- A clause that affects the dimension is open where its hint matches the facts or, when it has no
  -- hint, where the dimension is required.
  abbrev pub IsOpen : UnsupportedClause → Type 0
  IsOpen c =
      (elem c.affected_dimensions dimension ≡ true)
      × (((c.when_hint ≡ none) × (elem required dimension ≡ true))
          ⊎ ((hint : List Predicate) × (c.when_hint ≡ some hint)
              × ((evaluate_conditions hint facts >>= λ ts. ok (all_matched ts)) ≡ ok true)))

  -- A clause of the list with this identifier is open.
  abbrev pub IsOpened : List UnsupportedClause → String → Type 0
  IsOpened [] id = ⊥
  IsOpened (c ∷ cs) id = (IsOpen c × (c.clause_id ≡ id)) ⊎ IsOpened cs id

  some_injective : (a b : List Predicate) → some a ≡ some b → a ≡ b
  some_injective a b e = cc

  clause_applies-IsOpen :
      (c : UnsupportedClause) (b : Bool)
      → clause_applies dimension required facts c ≡ ok b
      → (b ≡ true) ↔ IsOpen c
  clause_applies-IsOpen c b h = elim (Bool-cases (elem c.affected_dimensions dimension)) [
    | inr outside ↦
        let e : false ≡ b = ok-injective false b (rw outside at h) in (λ t. cc, λ (affected, _). cc)
    | inl affected ↦ elim (Option-cases c.when_hint) [
      | inl absent ↦
          let e : elem required dimension ≡ b =
            ok-injective (elem required dimension) b (rw (affected, absent) at h) in
          (
            λ t. (affected, inl (absent, cc)),
            λ (_, o). elim o [ inl (_, needed) ↦ cc | inr (hint, found, _) ↦ cc ],
          )
      | inr (hint, found) ↦
          let e : (evaluate_conditions hint facts >>= λ ts. ok (all_matched ts)) ≡ ok b =
            (rw (affected, found) at h) in
          (
            λ t. (affected, inr (hint, found, rw (← t) e)),
            λ (_, o). elim o [
              | inl (missing, _) ↦ cc
              | inr (other, same, t) ↦
                  ok-injective b true
                    (sym e ∙ rw (← (some_injective hint other (sym found ∙ same))) at t)
            ],
          )
    ]
  ]

  pub open_clauses-IsOpened :
      (cs : List UnsupportedClause) (ids : List String)
      → open_clauses dimension required facts cs ≡ ok ids
      → (id : String) → (elem ids id ≡ true) ↔ IsOpened cs id
  unfolding open_clauses
  open_clauses-IsOpened [] ids h id =
      let e : [] ≡ ids = ok-injective [] ids h in (λ m. cc (rw (← e) at m), λ o. absurd o)
  open_clauses-IsOpened (c ∷ cs) ids h id =
      let (b, applied, h1) = >>=-eq-ok (clause_applies dimension required facts c) _ h in
      let (rest, later, h2) = >>=-eq-ok (open_clauses dimension required facts cs) _ h1 in
      let e = ok-injective (if b then c.clause_id ∷ rest else rest) ids h2 in
      let one = clause_applies-IsOpen c b applied in
      let others = open_clauses-IsOpened cs rest later id in
      elim (Bool-cases b) [
        | inl applies ↦
            rw (← e, applies)
              (
                λ m. elim (elem-cons c.clause_id id rest m) [
                  | inl same ↦ inl (one.0 applies, same)
                  | inr there ↦ inr (others.0 there)
                ],
                λ o. elim o [
                  | inl (_, same) ↦ rw same (elem-here id rest)
                  | inr there ↦ elem-there c.clause_id id rest (others.1 there)
                ],
              )
        | inr closed ↦
            rw (← e, closed)
              (
                λ m. inr (others.0 m),
                λ o. elim o [ inl (opened, _) ↦ cc (one.1 opened) | inr there ↦ others.1 there ],
              )
      ]

  evaluated_hint :
      (hint : List Predicate)
      → All IsValidated hint
      → IsInDomain facts
      → (ts : List PredicateTrace) × (evaluate_conditions hint facts ≡ ok ts)
  evaluated_hint hint typed d = (_, evaluate_conditions-ok hint facts typed d)

  -- The tests of validated clauses return.
  clause_applies-ok :
      (c : UnsupportedClause)
      → IsClause c
      → IsInDomain facts
      → (b : Bool) × (clause_applies dimension required facts c ≡ ok b)
  clause_applies-ok c v d = elim (Bool-cases (elem c.affected_dimensions dimension)) [
    | inr outside ↦ (false, rw outside refl)
    | inl affected ↦ elim (Option-cases c.when_hint) [
      | inl absent ↦ (elem required dimension, rw (affected, absent) refl)
      | inr (hint, found) ↦
          let typed : All IsValidated hint =
            All-map (λ p (h : IsStored p). h.0) hint (v.hinted hint found) in
          let (ts, evaluated) = evaluated_hint hint typed d in
          (all_matched ts, rw (affected, found, evaluated) refl)
    ]
  ]

  pub open_clauses-ok :
      (cs : List UnsupportedClause)
      → All IsClause cs
      → IsInDomain facts
      → (ids : List String) × (open_clauses dimension required facts cs ≡ ok ids)
  unfolding open_clauses
  open_clauses-ok [] vs d = ([], refl)
  open_clauses-ok (c ∷ cs) vs d =
      let (b, applied) = clause_applies-ok c vs.0 d in
      let (rest, later) = open_clauses-ok cs vs.1 d in
      (if b then c.clause_id ∷ rest else rest, rw (applied, later) refl)
