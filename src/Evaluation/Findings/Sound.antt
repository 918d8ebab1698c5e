-- ===== src/Evaluation/Findings/Sound.antt =====
-- `add` keeps the groups sound: what the validator of a finding asks of each, and distinct keys.
use text.Mathlib.TextEquality.{eq_iff}
use policyfuzz.Prelude.{
  String, ◌≡◌, refl, sym, subst, Bool, true, false, not, ◌&&◌, ◌||◌, List, [], ◌∷◌, map, elem,
  has_duplicates, is_empty, ◌==◌, ==→eq, string_eq, Bool-cases, inl, inr, arith, All, Option, none,
  some, Option-cases, ok, >>=-eq-ok, ok-injective,
}
use policyfuzz.Domain.Vocabulary.{Severity}
use policyfuzz.Domain.Rule.{Rule, UnsupportedClause}
use policyfuzz.Domain.Intent.{Invariant, is_some}
use policyfuzz.Domain.Finding.{
  FindingType, finding_type_eq, EvidenceLevel, SeverityOrigin, TraceRef, implies, is_candidate,
  from_invariant,
}
use policyfuzz.Evaluation.Engine.{ScenarioEvaluation}
use policyfuzz.Evaluation.Findings.Groups.{
  Group, FindingDigests, Cause, severity_at, severity_of, level_of, origin_of, fingerprint_of,
  new_group, witnessed, group_for, value_at, set_at, add,
}

module _ {A : Type 0} where
  elem-set_at :
      (key k : String) (a : A) (m : List (String × A))
      → elem (map (λ p. p.0) (set_at key a m)) k ≡ (key == k || elem (map (λ p. p.0) m) k)
  unfolding set_at
  elem-set_at key k a [] = refl
  elem-set_at key k a ((j, b) ∷ m) = ground (arith, eq_iff j key, elem-set_at key k a m)

  unique-set_at :
      (key : String) (a : A) (m : List (String × A))
      → has_duplicates (map (λ p. p.0) m) ≡ false
      → has_duplicates (map (λ p. p.0) (set_at key a m)) ≡ false
  unfolding set_at
  unique-set_at key a [] h = refl
  unique-set_at key a ((j, b) ∷ m) h =
      ground (arith, eq_iff j key, eq_iff key j, elem-set_at key j a m, unique-set_at key a m)

  All-set_at :
      (P : String × A → Type 0) (key : String) (a : A) (m : List (String × A))
      → P (key, a)
      → All P m
      → All P (set_at key a m)
  unfolding set_at
  All-set_at P key a [] p h = (p, tt)
  All-set_at P key a ((j, b) ∷ m) p h = elim (Bool-cases (j == key)) [
    | inl same ↦ rw same (subst (λ (i : String). P (i, a)) (sym (==→eq j key same)) p, h.1)
    | inr other ↦ rw other (h.0, All-set_at P key a m p h.1)
  ]

  nonempty-set_at :
      (key : String) (a : A) (m : List (String × A)) → is_empty (set_at key a m) ≡ false
  unfolding set_at
  nonempty-set_at key a [] = refl
  nonempty-set_at key a ((j, b) ∷ m) = ground arith

  All-value_at :
      (P : String × A → Type 0) (key : String) (m : List (String × A)) (a : A)
      → All P m
      → value_at key m ≡ some a
      → P (key, a)
  unfolding value_at
  All-value_at P key [] a h e = cc
  All-value_at P key ((j, b) ∷ m) a h e = elim (Bool-cases (j == key)) [
    | inl same ↦
        let e' : some b ≡ some a = rw same at e in
        subst (λ (x : A). P (key, x)) (some-injective b a e')
          (subst (λ (i : String). P (i, b)) (==→eq j key same) h.0)
    | inr other ↦ All-value_at P key m a h.1 (rw other at e)
  ]
    where
      some-injective : (x y : A) → some x ≡ some y → x ≡ y
      some-injective x y h = cc

-- What the validator asks of a finding beside its witnesses
pub record IsSound (g : Group) : Type 0 where
  pub origin :
      (implies (is_some g.severity) (is_some g.severity_origin)
        && implies (is_some g.severity_origin) (is_some g.severity))
      ≡ true
  pub invariant : implies (from_invariant g.severity_origin) (is_some g.invariant_id) ≡ true
  pub loophole :
      implies (g.finding_type == FindingType.potential_loophole) (is_candidate g.evidence_level)
      ≡ true
  pub candidate : implies (is_candidate g.evidence_level) (not (is_some g.severity)) ≡ true
  pub breach : implies (g.finding_type == FindingType.intent_breach) (is_some g.invariant_id) ≡ true
  pub regression :
      implies (g.finding_type == FindingType.regression) (is_some g.assertion_id) ≡ true

-- The same, and the group stands under its fingerprint with at least one witness, each under the
-- identifier of its scenario.
pub record IsGroup (p : String × Group) : Type 0 where
  pub keyed : p.1.fingerprint_sha256 ≡ p.0
  pub sound : IsSound p.1
  pub witness : is_empty p.1.witnesses ≡ false
  pub witnesses : All (λ w. w.1.scenario_id ≡ w.0) p.1.witnesses

abbrev pub IsGrouped : List (String × Group) → Type 0
IsGrouped m = (has_duplicates (map (λ p. p.0) m) ≡ false) × All IsGroup m

-- What the analysis never asks for, and that a breach names its invariant
pub record IsCause (c : Cause) : Type 0 where
  pub loophole : (c.finding_type == FindingType.potential_loophole) ≡ false
  pub regression : (c.finding_type == FindingType.regression) ≡ false
  pub breach : implies (c.finding_type == FindingType.intent_breach) (is_some c.invariant_id) ≡ true

severity_at-some :
    (id : String) (is : List Invariant) (s : Option Severity)
    → severity_at id is ≡ ok s
    → is_some s ≡ true
unfolding severity_at
severity_at-some id [] s h = cc
severity_at-some id (i ∷ is) s h = elim (Bool-cases (i.invariant_id == id)) [
  | inl same ↦
      let h' : ok (some i.severity) ≡ ok s = rw same at h in
      subst (λ (x : Option Severity). is_some x ≡ true) (ok-injective _ s h') refl
  | inr other ↦ severity_at-some id is s (rw other at h)
]

record IsRated (inv : Option String) (level : EvidenceLevel) (severity : Option Severity)
    (origin : Option SeverityOrigin) : Type 0 where
  paired :
      (implies (is_some severity) (is_some origin) && implies (is_some origin) (is_some severity))
      ≡ true
  named : implies (from_invariant origin) (is_some inv) ≡ true
  unrated : implies (is_candidate level) (not (is_some severity)) ≡ true

rated :
    (inv : Option String) (clause : Option UnsupportedClause) (is : List Invariant)
    (severity : Option Severity)
    → severity_of inv is ≡ ok severity
    → IsRated inv (level_of inv clause) severity (origin_of inv)
rated none clause is severity h =
    subst (λ (s : Option Severity). IsRated none (level_of none clause) s none)
      (ok-injective none severity h)
      (record {
        paired = refl;
        named = refl;
        unrated = either (is_candidate (level_of none clause));
      })
  where
    either : (b : Bool) → implies b true ≡ true
    either true = refl
    either false = refl
rated (some id) clause is severity h =
    let known = severity_at-some id is severity h in
    record { paired = ground arith; named = refl; unrated = refl }

module _ (digests : FindingDigests) (rules : List Rule) (invariants : List Invariant) where
  new_group-IsSound :
      (c : Cause) (severity : Option Severity)
      → severity_of c.invariant_id invariants ≡ ok severity
      → IsCause c
      → IsSound (new_group digests rules invariants c severity)
  new_group-IsSound c severity h i =
      let r = rated c.invariant_id c.clause invariants severity h in
      record {
        origin = r.paired;
        invariant = r.named;
        loophole = rw (i.loophole) refl;
        candidate = r.unrated;
        breach = i.breach;
        regression = rw (i.regression) refl;
      }

  -- The group that `add` takes from the dictionary, or makes
  record IsBase (fingerprint : String) (g : Group) : Type 0 where
    keyed : g.fingerprint_sha256 ≡ fingerprint
    sound : IsSound g
    witnesses : All (λ w. w.1.scenario_id ≡ w.0) g.witnesses

  group_for-IsBase :
      (c : Cause) (m : List (String × Group)) (g : Group)
      → IsCause c
      → All IsGroup m
      → group_for digests rules invariants c
          (value_at (fingerprint_of digests rules invariants c) m)
        ≡ ok g
      → IsBase (fingerprint_of digests rules invariants c) g
  group_for-IsBase c m g i h e =
      let key = fingerprint_of digests rules invariants c in
      elim (Option-cases (value_at key m)) [
        | inl absent ↦
            let (severity, rated_, built) =
              >>=-eq-ok (severity_of c.invariant_id invariants) _ (rw absent at e) in
            subst (IsBase key) (ok-injective _ g built) (record {
              keyed = refl;
              sound = new_group-IsSound c severity rated_ i;
              witnesses = tt;
            })
        | inr (old, found) ↦
            let same : ok old ≡ ok g = rw found at e in
            let old_group = All-value_at IsGroup key m old h found in
            subst (IsBase key) (ok-injective old g same) (record {
              keyed = old_group.keyed;
              sound = old_group.sound;
              witnesses = old_group.witnesses;
            })
      ]

  pub add-IsGrouped :
      (r : ScenarioEvaluation) (c : Cause) (m m' : List (String × Group))
      → IsCause c
      → IsGrouped m
      → add digests rules invariants r c m ≡ ok m'
      → IsGrouped m'
  unfolding add
  add-IsGrouped r c m m' i (unique, h) e =
      let key = fingerprint_of digests rules invariants c in
      let (g, taken, put) = >>=-eq-ok (group_for digests rules invariants c (value_at key m)) _ e in
      let base = group_for-IsBase c m g i h taken in
      let t : TraceRef = record {
        scenario_id = r.scenario_id;
        trace_sha256 = r.trace.trace_sha256;
      } in
      let after = witnessed digests rules invariants r c g in
      let put_here : IsGroup (key, after) = record {
        keyed = base.keyed;
        sound = record {
          origin = base.sound.origin;
          invariant = base.sound.invariant;
          loophole = base.sound.loophole;
          candidate = base.sound.candidate;
          breach = base.sound.breach;
          regression = base.sound.regression;
        };
        witness = nonempty-set_at r.scenario_id t g.witnesses;
        witnesses =
            All-set_at (λ w. w.1.scenario_id ≡ w.0) r.scenario_id t g.witnesses refl base.witnesses;
      } in
      subst IsGrouped (ok-injective (set_at key after m) m' put)
        (unique-set_at key after m unique, All-set_at IsGroup key after m put_here h)
