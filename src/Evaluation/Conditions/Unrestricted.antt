-- ===== src/Evaluation/Conditions/Unrestricted.antt =====
-- `conditions_unrestricted` decides whether all facts match all of the predicates.
use policyfuzz.Prelude.{
  ℕ, suc, ◌-◌, ◌≤◌, ◌≡◌, ◌≢◌, refl, Bool, true, false, ◌&&◌, List, [], ◌∷◌, map, All, all, All-map,
  all→All, All→all, All-map_iff, All-elem, All-of_elem, all-map, elem, elem-keep, string_eq, ℤ, pos,
  int_eq, pred_ℤ, suc_ℤ, leb_ℤ, ◌↔◌, ok, ◌+◌, and_left, and_right, and_intro, all_ok-of_ok, arith,
  min, subst, sym, ◌∙◌, String, ap,
}
use policyfuzz.Domain.Vocabulary.{
  PredicateField, employee_role, expense_category, amount_minor, destination_type,
  booking_days_before, receipt_present, approval_roles_present, prior_same_day_category_spend_minor,
  daily_category_total_minor, PredicateOperator, contains,
}
use policyfuzz.Domain.Value.{Value, str, int, bool}
use policyfuzz.Domain.Predicate.{Predicate, employee_roles, expense_categories, destination_types}
use policyfuzz.Domain.Facts.{ScenarioFacts, IsInDomain, fact_value}
use policyfuzz.Evaluation.Predicates.{
  Kind, integer, enumeration, flag, approvals, kind, HasKind, IsTyped, holds, matches, apply-ok,
  IsValidated, IsValidated-IsTyped, fact_value-HasKind,
}
use policyfuzz.Evaluation.Conditions.Candidates.{
  FieldDomain, values, maximum, field_domain, predicate_unrestricted, accepts_all, within, number,
  conditions_unrestricted,
}
use policyfuzz.Evaluation.Conditions.Descent.{descend, compare-suc, typed-value, within-inside}
use policyfuzz.Evaluation.Conditions.Assembly.{
  role_value, category_value, destination_value, number_value, flag_value,
}
use policyfuzz.Evaluation.Conditions.Results.{plain_facts, plain_facts-IsInDomain}
use policyfuzz.Evaluation.Conditions.Satisfiable.{Matches, Matches-of_All, All-of_Matches}

-- The predicate holds of every value that a field of the kind can have.
abbrev HoldsOnAll : Kind → PredicateOperator → Value → Type 0
HoldsOnAll k op v = (a : Value) → HasKind k a → holds op a v ≡ true

record IsExact (k : Kind) (d : FieldDomain) (p : Predicate) (b : Bool) : Type 0 where
  returned : predicate_unrestricted d p ≡ ok b
  sound : b ≡ true → HoldsOnAll k p.operator p.value
  complete : HoldsOnAll k p.operator p.value → b ≡ true

accepts : Predicate → List Value → Bool
accepts p vs = all (λ v. holds p.operator v p.value) vs

accepts_all-ok :
    (k : Kind) (p : Predicate) (vs : List Value)
    → IsTyped k p.operator p.value
    → All (HasKind k) vs
    → accepts_all p vs ≡ ok (accepts p vs)
unfolding accepts
accepts_all-ok k p vs t h =
    all_ok-of_ok _ _ vs (All-map (λ v hv. apply-ok k p.operator v p.value hv t) vs h)

accepts-of_HoldsOnAll :
    (k : Kind) (p : Predicate) (vs : List Value)
    → All (HasKind k) vs
    → HoldsOnAll k p.operator p.value
    → accepts p vs ≡ true
unfolding accepts
accepts-of_HoldsOnAll k p vs h every = All→all _ vs (All-map every vs h)

IsExact-enumeration :
    (d : List String) (p : Predicate)
    → IsTyped (enumeration d) p.operator p.value
    → IsExact (enumeration d) (values (map str d)) p (accepts p (map str d))
unfolding accepts
IsExact-enumeration d p t = record {
  returned = accepts_all-ok (enumeration d) p (map str d) t held;
  sound = reached;
  complete = accepts-of_HoldsOnAll (enumeration d) p (map str d) held;
}
  where
    held : All (HasKind (enumeration d)) (map str d)
    held =
        All-map_iff (HasKind (enumeration d)) str d
          (All-of_elem (λ s. elem d s ≡ true) d (λ a m. m))

    reached : accepts p (map str d) ≡ true → HoldsOnAll (enumeration d) p.operator p.value
    reached h (str s) m =
        All-elem (λ s. holds p.operator (str s) p.value ≡ true) d
          (all→All (λ s. holds p.operator (str s) p.value) d
            (sym (all-map (λ v. holds p.operator v p.value) str d) ∙ h))
          s m
    reached h _ m = absurd m

IsExact-flag :
    (p : Predicate)
    → IsTyped flag p.operator p.value
    → IsExact flag
        (values (bool true ∷ bool false ∷ []))
        p
        (accepts p (bool true ∷ bool false ∷ []))
unfolding accepts
IsExact-flag p t = record {
  returned = accepts_all-ok flag p (bool true ∷ bool false ∷ []) t (tt, (tt, tt));
  sound = reached;
  complete = accepts-of_HoldsOnAll flag p (bool true ∷ bool false ∷ []) (tt, (tt, tt));
}
  where
    reached : accepts p (bool true ∷ bool false ∷ []) ≡ true → HoldsOnAll flag p.operator p.value
    reached h (bool true) m =
        (all→All (λ v. holds p.operator v p.value) (bool true ∷ bool false ∷ []) h).0
    reached h (bool false) m =
        (all→All (λ v. holds p.operator v p.value) (bool true ∷ bool false ∷ []) h).1.0
    reached h _ m = absurd m

abbrev neighbours : ℕ → ℕ → List ℤ
neighbours m c = within m (pred_ℤ (pos c) ∷ suc_ℤ (pos c) ∷ [])

neighbours-absent :
    (m c k : ℕ)
    → suc k ≤ m
    → elem (pos 0 ∷ pos m ∷ pos c ∷ neighbours m c) (pos (suc k)) ≡ false
    → (suc k ≢ c) × (k ≢ c)
neighbours-absent m c k h absent =
    let e =
      elem-keep (λ v. leb_ℤ (pos 0) v && leb_ℤ v (pos m)) (pred_ℤ (pos c) ∷ suc_ℤ (pos c) ∷ [])
        (pos (suc k)) in
    ground (arith, e, absent)

IsExact-integer :
    (m c : ℕ) (p : Predicate)
    → p.value ≡ int (pos c)
    → c ≤ m
    → IsTyped (integer m) p.operator p.value
    → IsExact
        (integer m)
        (maximum m)
        p
        (accepts p (map int (pos 0 ∷ pos m ∷ pos c ∷ neighbours m c)))
unfolding accepts
IsExact-integer m c p e le t = record {
  returned = rw (ap number e) (accepts_all-ok (integer m) p (map int cands) t held);
  sound = reached;
  complete = accepts-of_HoldsOnAll (integer m) p (map int cands) held;
}
  where
    cands : List ℤ
    cands = pos 0 ∷ pos m ∷ pos c ∷ neighbours m c

    held : All (HasKind (integer m)) (map int cands)
    held =
        All-map_iff (HasKind (integer m)) int cands
          (omega arith, (omega arith, (le, within-inside m (pred_ℤ (pos c) ∷ suc_ℤ (pos c) ∷ []))))

    steady :
        (k : ℕ)
        → suc k ≤ m
        → elem cands (pos (suc k)) ≡ false
        → holds p.operator (int (pos (suc k))) p.value ≡ holds p.operator (int (pos k)) p.value
    steady k h absent =
        let apart = neighbours-absent m c k h absent in
        rw e (compare-suc p.operator k c apart.0 apart.1)

    reached : accepts p (map int cands) ≡ true → HoldsOnAll (integer m) p.operator p.value
    reached h (int (pos k)) hk =
        let (j, found, same) =
          descend m cands (λ k. holds p.operator (int (pos k)) p.value) refl steady k hk in
        sym same
        ∙ All-elem (λ z. holds p.operator (int z) p.value ≡ true) cands
            (all→All (λ z. holds p.operator (int z) p.value) cands
              (sym (all-map (λ v. holds p.operator v p.value) int cands) ∙ h))
            (pos j) found
    reached h _ hk = absurd hk

-- Some facts in their domain have a given value at a field.
realised :
    (f : PredicateField) (a : Value)
    → f ≢ approval_roles_present
    → HasKind (kind f) a
    → (facts : ScenarioFacts) × IsInDomain facts × (fact_value f facts ≡ a)
realised employee_role a n h =
    let (r, e) = role_value a h in (record plain_facts { employee_role = r }, omega arith, sym e)
realised expense_category a n h =
    let (c, e) = category_value a h in
    (record plain_facts { expense_category = c }, omega arith, sym e)
realised destination_type a n h =
    let (d, e) = destination_value a h in
    (record plain_facts { destination_type = d }, omega arith, sym e)
realised amount_minor a n h =
    let (k, e, le) = number_value 10_000_000 a h in
    (record plain_facts { amount_minor = k }, omega arith, sym e)
realised booking_days_before a n h =
    let (k, e, le) = number_value 365 a h in
    (record plain_facts { booking_days_before = k }, omega arith, sym e)
realised prior_same_day_category_spend_minor a n h =
    let (k, e, le) = number_value 10_000_000 a h in
    (record plain_facts { prior_same_day_category_spend_minor = k }, omega arith, sym e)
realised daily_category_total_minor a n h =
    let (k, e, le) = number_value 20_000_000 a h in
    let low : ℕ = min k 10_000_000 in
    let whole : low + (k - low) ≡ k = omega arith in
    (
      record plain_facts { amount_minor = low; prior_same_day_category_spend_minor = k - low },
      omega arith,
      ap (λ (t : ℕ). int (pos t)) whole ∙ sym e,
    )
realised receipt_present a n h =
    let (b, e) = flag_value a h in (record plain_facts { receipt_present = b }, omega arith, sym e)
realised approval_roles_present a n h = absurd (n refl)

-- The loop body at one predicate: exact on all facts.
record IsDecided (p : Predicate) (b : Bool) : Type 0 where
  returned : predicate_unrestricted (field_domain p.field) p ≡ ok b
  sound : b ≡ true → (facts : ScenarioFacts) → IsInDomain facts → matches p facts ≡ true
  complete : ((facts : ScenarioFacts) → IsInDomain facts → matches p facts ≡ true) → b ≡ true

IsDecided-of_IsExact :
    (f : PredicateField) (op : PredicateOperator) (v : Value) (b : Bool)
    → f ≢ approval_roles_present
    → IsExact (kind f) (field_domain f) (record { field = f; operator = op; value = v }) b
    → IsDecided (record { field = f; operator = op; value = v }) b
IsDecided-of_IsExact f op v b n exact = record {
  returned = exact.returned;
  sound = λ h facts d. exact.sound h (fact_value f facts) (fact_value-HasKind f facts d);
  complete = λ every. exact.complete λ a h.
      let (facts, d, e) = realised f a n h in subst (λ a. holds op a v ≡ true) e (every facts d);
}

-- A test of the approvals is never unrestricted: it fails where no role is present.
IsDecided-approvals :
    (op : PredicateOperator) (v : Value)
    → IsTyped approvals op v
    → IsDecided (record { field = approval_roles_present; operator = op; value = v }) false
IsDecided-approvals contains (str s) t = record {
  returned = refl;
  sound = λ h. cc;
  complete = λ every. every plain_facts plain_facts-IsInDomain;
}
IsDecided-approvals contains _ t = absurd t
IsDecided-approvals _ v t = absurd t

decided :
    (f : PredicateField) (op : PredicateOperator) (v : Value)
    → IsTyped (kind f) op v
    → (b : Bool) × IsDecided (record { field = f; operator = op; value = v }) b
decided employee_role op v t = (
  _,
  IsDecided-of_IsExact employee_role op v _ (λ e. cc) (IsExact-enumeration employee_roles _ t),
)
decided expense_category op v t = (
  _,
  IsDecided-of_IsExact expense_category op v _ (λ e. cc)
      (IsExact-enumeration expense_categories _ t),
)
decided destination_type op v t = (
  _,
  IsDecided-of_IsExact destination_type op v _ (λ e. cc)
      (IsExact-enumeration destination_types _ t),
)
decided receipt_present op v t =
    (_, IsDecided-of_IsExact receipt_present op v _ (λ e. cc) (IsExact-flag _ t))
decided approval_roles_present op v t = (false, IsDecided-approvals op v t)
decided amount_minor op v t =
    let (c, e, le) = typed-value 10_000_000 op v t in
    (_, IsDecided-of_IsExact amount_minor op v _ (λ e. cc) (IsExact-integer 10_000_000 c _ e le t))
decided booking_days_before op v t =
    let (c, e, le) = typed-value 365 op v t in
    (_, IsDecided-of_IsExact booking_days_before op v _ (λ e. cc) (IsExact-integer 365 c _ e le t))
decided prior_same_day_category_spend_minor op v t =
    let (c, e, le) = typed-value 10_000_000 op v t in
    (
      _,
      IsDecided-of_IsExact prior_same_day_category_spend_minor op v _ (λ e. cc)
          (IsExact-integer 10_000_000 c _ e le t),
    )
decided daily_category_total_minor op v t =
    let (c, e, le) = typed-value 20_000_000 op v t in
    (
      _,
      IsDecided-of_IsExact daily_category_total_minor op v _ (λ e. cc)
          (IsExact-integer 20_000_000 c _ e le t),
    )

conditions_decided :
    (ps : List Predicate)
    → All IsValidated ps
    → (b : Bool) × (conditions_unrestricted ps ≡ ok b)
      × ((b ≡ true)
          ↔ ((facts : ScenarioFacts) → IsInDomain facts → All (λ p. matches p facts ≡ true) ps))
unfolding conditions_unrestricted
conditions_decided [] v = (true, refl, (λ h facts d. tt, λ h. refl))
conditions_decided (p ∷ ps) v =
    let (first, answer) = decided p.field p.operator p.value (IsValidated-IsTyped p v.0) in
    let (rest, returned, exact) = conditions_decided ps v.1 in
    (
      first && rest,
      rw (answer.returned) (ground (arith, returned)),
      (
        λ h facts d. (
          answer.sound (and_left first rest h) facts d,
          exact.0 (and_right first rest h) facts d,
        ),
        λ every.
            and_intro first rest (answer.complete (λ facts d. (every facts d).0))
              (exact.1 (λ facts d. (every facts d).1)),
      ),
    )

-- For validated predicates `conditions_unrestricted` returns, and its answer is true exactly when
-- all facts in their domain match all of the predicates.
pub conditions_unrestricted-exact :
    (ps : List Predicate)
    → All IsValidated ps
    → (b : Bool) × (conditions_unrestricted ps ≡ ok b)
      × ((b ≡ true) ↔ ((facts : ScenarioFacts) → IsInDomain facts → Matches ps facts))
conditions_unrestricted-exact ps v =
    let (b, returned, exact) = conditions_decided ps v in
    (
      b,
      returned,
      (
        λ h facts d. Matches-of_All ps facts v d (exact.0 h facts d),
        λ every. exact.1 (λ facts d. All-of_Matches ps facts v d (every facts d)),
      ),
    )
