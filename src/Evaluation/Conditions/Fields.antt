-- ===== src/Evaluation/Conditions/Fields.antt =====
-- One field: trying the candidates finds a value of the field's whole domain that satisfies every
-- predicate on it, if there is one.
use policyfuzz.Prelude.{
  String, ℕ, ◌≡◌, ◌≢◌, refl, Bool, true, false, List, [], ◌∷◌, map, All, all, any, elem, any-elim,
  any-of_elem, any-map, All-map, All-map_iff, All-of_elem, ℤ, pos, int_eq, string_eq, ok, any_ok,
  any_ok-of_ok, all_ok-of_ok, arith, or_left, or_right, ◌∙◌,
}
use policyfuzz.Domain.Vocabulary.{
  PredicateField, employee_role, expense_category, amount_minor, destination_type,
  booking_days_before, receipt_present, approval_roles_present, prior_same_day_category_spend_minor,
  daily_category_total_minor,
}
use policyfuzz.Domain.Value.{Value, str, int, bool}
use policyfuzz.Domain.Predicate.{Predicate, employee_roles, expense_categories, destination_types}
use policyfuzz.Evaluation.Predicates.{
  Kind, integer, enumeration, flag, kind, HasKind, IsTyped, holds, apply-ok,
}
use policyfuzz.Evaluation.Conditions.Candidates.{
  FieldDomain, values, maximum, field_domain, field_satisfiable, all_accept,
}
use policyfuzz.Evaluation.Conditions.Descent.{descend, IsBoundary, IsBoundary-of_typed}

abbrev pub accepted : List Predicate → Value → Bool
accepted ps a = all (λ p. holds p.operator a p.value) ps

abbrev pub AllTyped : Kind → List Predicate → Type 0
AllTyped k ps = All (λ p. IsTyped k p.operator p.value) ps

pub all_accept-ok :
    (k : Kind) (ps : List Predicate) (a : Value)
    → AllTyped k ps
    → HasKind k a
    → all_accept ps a ≡ ok (accepted ps a)
all_accept-ok k ps a t h =
    all_ok-of_ok _ _ ps (All-map (λ p tp. apply-ok k p.operator a p.value h tp) ps t)

-- The answer `b` of the loop body: it is returned, and it is exact over the whole domain.
pub record IsExact (k : Kind) (d : FieldDomain) (ps : List Predicate) (b : Bool) : Type 0 where
  pub returned : field_satisfiable d ps ≡ ok b
  pub sound : b ≡ true → (a : Value) × HasKind k a × (accepted ps a ≡ true)
  pub complete : (a : Value) → HasKind k a → accepted ps a ≡ true → b ≡ true

tried :
    (k : Kind) (ps : List Predicate) (vs : List Value)
    → AllTyped k ps
    → All (HasKind k) vs
    → any_ok (all_accept ps) vs ≡ ok (any (accepted ps) vs)
tried k ps vs t h = any_ok-of_ok _ _ vs (All-map (λ v hv. all_accept-ok k ps v t hv) vs h)

IsExact-enumeration :
    (d : List String) (ps : List Predicate)
    → AllTyped (enumeration d) ps
    → IsExact (enumeration d) (values (map str d)) ps (any (accepted ps) (map str d))
IsExact-enumeration d ps t = record {
  returned = tried (enumeration d) ps (map str d) t held;
  sound = any-elim (accepted ps) (HasKind (enumeration d)) (map str d) held;
  complete = reached;
}
  where
    held : All (HasKind (enumeration d)) (map str d)
    held =
        All-map_iff (HasKind (enumeration d)) str d
          (All-of_elem (λ s. elem d s ≡ true) d (λ a m. m))

    reached :
        (a : Value)
        → HasKind (enumeration d) a
        → accepted ps a ≡ true
        → any (accepted ps) (map str d) ≡ true
    reached (str s) h q =
        rw (any-map (accepted ps) str d) (any-of_elem (λ s. accepted ps (str s)) d s h q)
    reached _ h q = absurd h

IsExact-flag :
    (ps : List Predicate)
    → AllTyped flag ps
    → IsExact flag
        (values (bool true ∷ bool false ∷ []))
        ps
        (any (accepted ps) (bool true ∷ bool false ∷ []))
IsExact-flag ps t = record {
  returned = tried flag ps (bool true ∷ bool false ∷ []) t (tt, (tt, tt));
  sound = any-elim (accepted ps) (HasKind flag) (bool true ∷ bool false ∷ []) (tt, (tt, tt));
  complete = reached;
}
  where
    reached :
        (a : Value)
        → HasKind flag a
        → accepted ps a ≡ true
        → any (accepted ps) (bool true ∷ bool false ∷ []) ≡ true
    reached (bool true) h q = or_left _ _ q
    reached (bool false) h q = or_right _ _ (or_left _ _ q)
    reached _ h q = absurd h

IsExact-integer :
    (m : ℕ) (ps : List Predicate)
    → AllTyped (integer m) ps
    → (b : Bool) × IsExact (integer m) (maximum m) ps b
IsExact-integer m ps t =
    let (bs, boundary) = IsBoundary-of_typed m ps t in
    let cands : List ℤ = pos 0 ∷ pos m ∷ bs in
    let held : All (HasKind (integer m)) (map int cands) =
      All-map_iff (HasKind (integer m)) int cands (omega arith, (omega arith, boundary.inside)) in
    (
      any (accepted ps) (map int cands),
      record {
        returned = rw boundary.computed (tried (integer m) ps (map int cands) t held);
        sound = any-elim (accepted ps) (HasKind (integer m)) (map int cands) held;
        complete = reached m ps bs boundary;
      },
    )
  where
    reached :
        (m : ℕ) (ps : List Predicate) (bs : List ℤ)
        → IsBoundary m ps bs
        → (a : Value) → HasKind (integer m) a
        → accepted ps a ≡ true
        → any (accepted ps) (map int (pos 0 ∷ pos m ∷ bs)) ≡ true
    reached m ps bs boundary (int (pos k)) h q =
        let (j, found, same) =
          descend m (pos 0 ∷ pos m ∷ bs) (λ k. accepted ps (int (pos k))) refl
            (λ k le absent. boundary.steady k le (ground arith)) k h in
        rw (any-map (accepted ps) int (pos 0 ∷ pos m ∷ bs))
          (any-of_elem (λ z. accepted ps (int z)) (pos 0 ∷ pos m ∷ bs) (pos j) found (same ∙ q))
    reached m ps bs boundary _ h q = absurd h

abbrev pub AnswerType : PredicateField → List Predicate → Type 0
AnswerType f ps = (b : Bool) × IsExact (kind f) (field_domain f) ps b

-- Every field but the approval roles, which the code does not try.
pub field_answer :
    (f : PredicateField) (ps : List Predicate)
    → f ≢ approval_roles_present
    → AllTyped (kind f) ps
    → AnswerType f ps
field_answer employee_role ps n t = (_, IsExact-enumeration employee_roles ps t)
field_answer expense_category ps n t = (_, IsExact-enumeration expense_categories ps t)
field_answer destination_type ps n t = (_, IsExact-enumeration destination_types ps t)
field_answer amount_minor ps n t = IsExact-integer 10_000_000 ps t
field_answer booking_days_before ps n t = IsExact-integer 365 ps t
field_answer prior_same_day_category_spend_minor ps n t = IsExact-integer 10_000_000 ps t
field_answer daily_category_total_minor ps n t = IsExact-integer 20_000_000 ps t
field_answer receipt_present ps n t = (_, IsExact-flag ps t)
field_answer approval_roles_present ps n t = absurd (n refl)
