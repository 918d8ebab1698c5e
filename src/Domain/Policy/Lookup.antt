-- ===== src/Domain/Policy/Lookup.antt =====
-- Lookups of rules, and the graph of overrides.
use mathlib.Core.Bool.{false≢true}
use policyfuzz.Prelude.{
  String, ◌≡◌, true, false, List, [], ◌∷◌, All, all, all→All, map, elem, elem-there,
  elem-of_distinct, elem-map_of_All, string_eq, ◌==◌, ==→eq, ==_refl, some, Option-cases,
  Bool-cases, inl, inr, arith, or_left, subst, All-map, has_duplicates,
}
use policyfuzz.Domain.Rule.{Rule, OverrideRef}
use policyfuzz.Domain.Policy.Defs.{find_rule, rule_ids, has_target, graph}

pub find_rule-elem :
    (id : String) (rules : List Rule) (r : Rule)
    → find_rule id rules ≡ some r
    → elem (rule_ids rules) id ≡ true
unfolding find_rule
find_rule-elem id [] r e = cc
find_rule-elem id (x ∷ xs) r e = elim (Bool-cases (x.rule_id == id)) [
  | inl same ↦ or_left (x.rule_id == id) (elem (rule_ids xs) id) same
  | inr other ↦ elem-there x.rule_id id (rule_ids xs) (find_rule-elem id xs r (rw other at e))
]

pub find_rule-of_elem :
    (id : String) (rules : List Rule)
    → elem (rule_ids rules) id ≡ true
    → (r : Rule) × (find_rule id rules ≡ some r)
unfolding find_rule
find_rule-of_elem id [] h = absurd (false≢true h)
find_rule-of_elem id (x ∷ xs) h = elim (Bool-cases (x.rule_id == id)) [
  | inl same ↦ (x, rw same)
  | inr other ↦ let (r, e) = find_rule-of_elem id xs (rw other at h) in (r, rw other e)
]

-- What holds of all rules holds of the rule that is found, and it has the identifier.
pub find_rule-All {κ} :
    (P : Rule → Type κ) (id : String) (rules : List Rule) (r : Rule)
    → All P rules
    → find_rule id rules ≡ some r
    → P r × (r.rule_id ≡ id)
unfolding find_rule
find_rule-All P id [] r h e = cc
find_rule-All P id (x ∷ xs) r h e = elim (Bool-cases (x.rule_id == id)) [
  | inl same ↦
      let found : x ≡ r = cc (rw same at e) in
      (subst P found (h.0), subst (λ (z : Rule). z.rule_id ≡ id) found (==→eq x.rule_id id same))
  | inr other ↦ find_rule-All P id xs r h.1 (rw other at e)
]

has_target-elem :
    (rules : List Rule) (e : OverrideRef)
    → has_target rules e ≡ true
    → elem (rule_ids rules) e.target_rule_id ≡ true
has_target-elem rules e h = elim (Option-cases (find_rule e.target_rule_id rules)) [
  | inl none_found ↦ cc (rw (none_found, has_target) at h)
  | inr (r, found) ↦ find_rule-elem e.target_rule_id rules r found
]

-- An edge of the graph is an override of the rule that is found.
pub graph-edge {κ} :
    (Q : OverrideRef → Type κ) (rules : List Rule) (a b : String) (r : Rule)
    → find_rule a rules ≡ some r
    → All Q r.overrides
    → elem (graph rules a) b ≡ true
    → (e : OverrideRef) × Q e × (e.target_rule_id ≡ b)
unfolding graph
graph-edge Q rules a b r found q h =
    elem-map_of_All Q (λ e. e.target_rule_id) r.overrides b q
      (elem-of_distinct b (map (λ e. e.target_rule_id) r.overrides) (rw found at h))

-- Where all targets exist, the edges of the graph stay inside the rules.
pub graph-closed :
    (rules : List Rule)
    → All (λ r. all (has_target rules) r.overrides ≡ true) rules
    → (a b : String) → elem (rule_ids rules) a ≡ true
    → elem (graph rules a) b ≡ true
    → elem (rule_ids rules) b ≡ true
graph-closed rules targets a b m h =
    let (r, found) = find_rule-of_elem a rules m in
    let (good, _) =
      find_rule-All (λ r. all (has_target rules) r.overrides ≡ true) a rules r targets found in
    let (edge, exists, same) =
      graph-edge (λ e. has_target rules e ≡ true) rules a b r found
        (all→All (has_target rules) r.overrides good) h in
    rw same at (has_target-elem rules edge exists)

-- Among unique identifiers each rule is found by its own.
pub find_rule_self :
    (rules : List Rule)
    → has_duplicates (rule_ids rules) ≡ false
    → All (λ r. find_rule r.rule_id rules ≡ some r) rules
unfolding find_rule
find_rule_self [] h = tt
find_rule_self (x ∷ xs) h =
    (rw (==_refl x.rule_id), All-map later xs (find_rule_self xs (ground arith)))
  where
    later : (r : Rule) → find_rule r.rule_id xs ≡ some r → find_rule r.rule_id (x ∷ xs) ≡ some r
    later r e = elim (Bool-cases (x.rule_id == r.rule_id)) [
      | inl same ↦
          let m = find_rule-elem r.rule_id xs r e in
          let again : elem (rule_ids xs) x.rule_id ≡ true = rw (==→eq x.rule_id r.rule_id same) m in
          absurd (false≢true (ground arith))
      | inr other ↦ rw other e
    ]
