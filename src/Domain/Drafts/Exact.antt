-- ===== src/Domain/Drafts/Exact.antt =====
-- What the validators of rules and of unsupported clauses accept.
use policyfuzz.Prelude.{
  ◌≡◌, ◌≢◌, ◌↔◌, refl, true, not, List, [], ◌∷◌, All, any, all, all→All, All→all, elem,
  has_duplicates, is_empty, ◌==◌, string_eq, ==→eq, eq→==, ok, require, each_ok, each_ok→All,
  All→each_ok, Option, none, some, arith, Bool-cases, inl, inr,
}
use policyfuzz.Domain.Vocabulary.{dimension_eq, field_eq, daily_category_total_minor}
use policyfuzz.Domain.Predicate.{Predicate, typed_predicate}
use policyfuzz.Domain.Rule.{Rule, dimensions, repeats, UnsupportedClause, executable_conditions}
use policyfuzz.Domain.Drafts.{
  identifier, nonempty_text, validate_span, validate_provenance, validate_effect, percentage,
  validate_rule, hint_of, reason_codes, validate_clause,
}
use policyfuzz.Domain.Drafts.Parts.{
  IsStored, IsRule, IsClause, both, required, cleared, nonempty_iff, nonempty_text_iff,
  identifier_iff, percentage_iff, each_iff, validate_span-exact, validate_provenance-exact,
}

stored_iff :
    (ps : List Predicate)
    → (not (any (λ p. p.field == daily_category_total_minor) ps) ≡ true)
      ↔ All (λ p. p.field ≢ daily_category_total_minor) ps
stored_iff [] = (λ h. tt, λ h. refl)
stored_iff (p ∷ ps) = (
  λ h. (
    λ same. let e = eq→== p.field daily_category_total_minor same in ground arith,
    (stored_iff ps).0 (ground arith),
  ),
  λ (other, rest).
      let e = (stored_iff ps).1 rest in
      elim (Bool-cases (p.field == daily_category_total_minor)) [
        | inl same ↦ absurd (other (==→eq p.field daily_category_total_minor same))
        | inr differ ↦ ground arith
      ],
)

All-both {ℓ κ μ} :
    {A : Type ℓ} (P : A → Type κ) (Q : A → Type μ) (xs : List A)
    → (All P xs × All Q xs) ↔ All (λ x. P x × Q x) xs
All-both P Q [] = (λ h. tt, λ h. (tt, tt))
All-both P Q (x ∷ xs) = (
  λ (p, q). ((p.0, q.0), (All-both P Q xs).0 (p.1, q.1)),
  λ (h, hs). let (p, q) = (All-both P Q xs).1 hs in ((h.0, p), (h.1, q)),
)

-- Conditions are accepted when each is, on a stored fact.
conditions_iff :
    (ps : List Predicate)
    → ((each_ok typed_predicate ps ≡ ok tt)
        × (not (any (λ p. p.field == daily_category_total_minor) ps) ≡ true))
      ↔ All IsStored ps
conditions_iff ps = (
  λ (typed, stored).
      (All-both (λ p. typed_predicate p ≡ ok tt) (λ p. p.field ≢ daily_category_total_minor) ps).0
        (each_ok→All typed_predicate ps typed, (stored_iff ps).0 stored),
  λ h.
      let (typed, stored) =
        (All-both (λ p. typed_predicate p ≡ ok tt) (λ p. p.field ≢ daily_category_total_minor) ps).1
          h in
      (All→each_ok typed_predicate ps typed, (stored_iff ps).1 stored),
)

-- A rule passes its validators exactly when it is well formed.
pub validate_rule-exact : (r : Rule) → (validate_rule r ≡ ok tt) ↔ IsRule r
unfolding validate_rule executable_conditions
validate_rule-exact r = (
  λ h.
      let (described, h1) = both (nonempty_text r.description) _ h in
      let (typed, h2) = both (each_ok typed_predicate r.when) _ h1 in
      let (valued, h3) = both (each_ok validate_effect r.effects) _ h2 in
      let (effective, h4) = both (require (not (is_empty r.effects)) _) _ h3 in
      let (targeted, h5) = both (each_ok (λ e. identifier e.target_rule_id) r.overrides) _ h4 in
      let (cited, h6) = both (validate_provenance r.provenance) _ h5 in
      let (confident, h7) = both (percentage r.confidence_percent) _ h6 in
      let (named, h8) = both (identifier r.rule_id) _ h7 in
      let (stored, h9) =
        both (require (not (any (λ p. p.field == daily_category_total_minor) r.when)) _) _ h8 in
      let (single, h10) = both (require (not (has_duplicates (dimensions r.effects))) _) _ h9 in
      let (supplied, h11) =
        both (require (all (λ e. elem (dimensions r.effects) e.dimension) r.overrides) _) _ h10 in
      record {
        described = (nonempty_text_iff r.description).0 described;
        conditions = (conditions_iff r.when).0 (typed, required _ _ stored);
        effective = (nonempty_iff r.effects).0 (required _ _ effective);
        valued = each_ok→All validate_effect r.effects valued;
        single = cleared (has_duplicates (dimensions r.effects)) (required _ _ single);
        targeted =
            (each_iff (λ e. identifier e.target_rule_id) (λ e. identifier_iff e.target_rule_id)
                r.overrides).0
              targeted;
        supplied =
            all→All (λ e. elem (dimensions r.effects) e.dimension) r.overrides
              (required _ _ supplied);
        unrepeated = cleared (repeats r.overrides) (required _ _ h11);
        cited = (validate_provenance-exact r.provenance).0 cited;
        confident = (percentage_iff r.confidence_percent).0 confident;
        named = (identifier_iff r.rule_id).0 named;
      },
  λ v.
      let (typed, stored) = (conditions_iff r.when).1 v.conditions in
      rw
        (
          (nonempty_text_iff r.description).1 v.described,
          typed,
          All→each_ok validate_effect r.effects v.valued,
          (nonempty_iff r.effects).1 v.effective,
          (each_iff (λ e. identifier e.target_rule_id) (λ e. identifier_iff e.target_rule_id)
                r.overrides).1
              v.targeted,
          (validate_provenance-exact r.provenance).1 v.cited,
          (percentage_iff r.confidence_percent).1 v.confident,
          (identifier_iff r.rule_id).1 v.named,
          stored,
          v.single,
          All→all (λ e. elem (dimensions r.effects) e.dimension) r.overrides v.supplied,
          v.unrepeated,
        )
        refl,
)

hint_iff :
    (o : Option (List Predicate))
    → ((each_ok typed_predicate (hint_of o) ≡ ok tt)
        × (not (any (λ p. p.field == daily_category_total_minor) (hint_of o)) ≡ true))
      ↔ ((hint : List Predicate) → o ≡ some hint → All IsStored hint)
hint_iff none = (λ h hint e. cc, λ h. (refl, refl))
hint_iff (some ps) = (
  λ h hint e. rw (← (some_injective ps hint e)) ((conditions_iff ps).0 h),
  λ h. (conditions_iff ps).1 (h ps refl),
)
  where
    some_injective : (a b : List Predicate) → some a ≡ some b → a ≡ b
    some_injective a b e = cc

-- An unsupported clause passes its validators exactly when it is well formed.
pub validate_clause-exact : (c : UnsupportedClause) → (validate_clause c ≡ ok tt) ↔ IsClause c
unfolding validate_clause
validate_clause-exact c = (
  λ h.
      let (named, h1) = both (identifier c.clause_id) _ h in
      let (located, h2) = both (validate_span c.span) _ h1 in
      let (reasoned, h3) = both (require (elem reason_codes c.reason_code) _) _ h2 in
      let (affecting, h4) = both (require (not (is_empty c.affected_dimensions)) _) _ h3 in
      let (typed, h5) = both (each_ok typed_predicate (hint_of c.when_hint)) _ h4 in
      record {
        named = (identifier_iff c.clause_id).0 named;
        located = (validate_span-exact c.span).0 located;
        reasoned = required _ _ reasoned;
        affecting = (nonempty_iff c.affected_dimensions).0 (required _ _ affecting);
        hinted = (hint_iff c.when_hint).0 (typed, required _ _ h5);
      },
  λ v.
      let (typed, stored) = (hint_iff c.when_hint).1 v.hinted in
      rw
        (
          (identifier_iff c.clause_id).1 v.named,
          (validate_span-exact c.span).1 v.located,
          v.reasoned,
          (nonempty_iff c.affected_dimensions).1 v.affecting,
          typed,
          stored,
        )
        refl,
)
