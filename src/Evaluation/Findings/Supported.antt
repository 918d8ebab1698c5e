-- ===== src/Evaluation/Findings/Supported.antt =====
-- Every finding that the analysis builds passes its validator, and no two have the same fingerprint.
use policyfuzz.Prelude.{
  String, ◌≡◌, refl, ◌∙◌, ap, true, false, List, [], ◌∷◌, map, elem, subset, has_duplicates,
  is_empty, sorted_by, place, string_eq, arith, All, All-sorted_by, all-of_elem,
  has_duplicates-sorted_by, ok, each_ok, All→each_ok,
}
use policyfuzz.Domain.Vocabulary.{effect_status_eq, dimension_eq}
use policyfuzz.Domain.Policy.{PolicyIr}
use policyfuzz.Domain.Intent.{PolicyContract}
use policyfuzz.Domain.Scenario.{Scenario}
use policyfuzz.Domain.Finding.{TraceRef, supported_evidence, same_set}
use policyfuzz.Evaluation.Engine.{ScenarioEvaluation}
use policyfuzz.Evaluation.Findings.Groups.{Group, FindingDigests}
use policyfuzz.Evaluation.Findings.Analysis.{collect_groups, finding_of, findings_of}
use policyfuzz.Evaluation.Findings.Sound.{IsGroup}
use policyfuzz.Evaluation.Findings.Kept.{collect_groups-IsGrouped}

-- The witnesses of a group, sorted, name the scenarios of the finding.
named_alike :
    (ws : List (String × TraceRef))
    → All (λ w. w.1.scenario_id ≡ w.0) ws
    → map (λ t. t.scenario_id) (map (λ w. w.1) ws) ≡ map (λ w. w.0) ws
named_alike [] h = refl
named_alike (w ∷ ws) h = rw (h.0, named_alike ws h.1) refl

same_set_self : (xs : List String) → same_set xs xs ≡ true
same_set_self xs =
    let all_ : subset xs xs ≡ true = all-of_elem (elem xs) xs (λ a m. m) in ground arith

nonempty-place :
    (w : String × TraceRef) (ws : List (String × TraceRef))
    → is_empty (place (λ w. w.0) w ws) ≡ false
nonempty-place w [] = refl
nonempty-place w (v ∷ ws) = ground arith

nonempty-sorted :
    (ws : List (String × TraceRef))
    → is_empty ws ≡ false
    → is_empty (sorted_by (λ w. w.0) ws) ≡ false
nonempty-sorted [] h = cc
nonempty-sorted (w ∷ ws) h = nonempty-place w (sorted_by (λ w. w.0) ws)

is_empty-map {ℓ κ} :
    {A : Type ℓ} {B : Type κ} (f : A → B) (xs : List A) → is_empty (map f xs) ≡ is_empty xs
is_empty-map f [] = refl
is_empty-map f (x ∷ xs) = refl

supported_evidence-finding_of :
    (p : String × Group) → IsGroup p → supported_evidence (finding_of p.1) ≡ ok tt
unfolding finding_of supported_evidence
supported_evidence-finding_of p h =
    let ws = sorted_by (λ w. w.0) p.1.witnesses in
    let some_ = nonempty-sorted p.1.witnesses h.witness in
    let ids : is_empty (map (λ w. w.0) ws) ≡ false = is_empty-map (λ w. w.0) ws ∙ some_ in
    let refs : is_empty (map (λ w. w.1) ws) ≡ false = is_empty-map (λ w. w.1) ws ∙ some_ in
    let alike =
      named_alike ws
        (All-sorted_by (λ w. w.1.scenario_id ≡ w.0) (λ w. w.0) p.1.witnesses h.witnesses) in
    let same : same_set (map (λ w. w.0) ws) (map (λ t. t.scenario_id) (map (λ w. w.1) ws)) ≡ true =
      rw alike (same_set_self (map (λ w. w.0) ws)) in
    rw
      (
        ids, refs, h.sound.origin, h.sound.invariant, h.sound.loophole, h.sound.candidate,
        h.sound.breach, h.sound.regression, same,
      )
      refl

fingerprints-keys :
    (m : List (String × Group))
    → All IsGroup m
    → map (λ f. f.fingerprint_sha256) (map (λ p. finding_of p.1) m) ≡ map (λ p. p.0) m
unfolding finding_of
fingerprints-keys [] h = refl
fingerprints-keys (p ∷ m) h = rw (h.0.keyed, fingerprints-keys m h.1) refl

each_supported :
    (m : List (String × Group))
    → All IsGroup m
    → All (λ f. supported_evidence f ≡ ok tt) (map (λ p. finding_of p.1) m)
each_supported [] h = tt
each_supported (p ∷ m) h = (supported_evidence-finding_of p h.0, each_supported m h.1)

-- The findings of the groups that the analysis collects all pass the validator of a finding, so that
-- building the report cannot fail, and no two of them have the same fingerprint.
pub findings_of-Supported :
    (digests : FindingDigests) (policy : PolicyIr) (contract : PolicyContract)
    (scenarios : List Scenario) (results : List ScenarioEvaluation) (groups : List (String × Group))
    → collect_groups digests policy contract scenarios results ≡ ok groups
    → (each_ok supported_evidence (findings_of groups) ≡ ok tt)
      × (has_duplicates (map (λ f. f.fingerprint_sha256) (findings_of groups)) ≡ false)
findings_of-Supported digests policy contract scenarios results groups e =
    let (unique, h) = collect_groups-IsGrouped digests policy contract scenarios results groups e in
    let sorted_groups = All-sorted_by IsGroup (λ p. p.0) groups h in
    (
      All→each_ok supported_evidence (findings_of groups)
          (each_supported (sorted_by (λ p. p.0) groups) sorted_groups),
      ap has_duplicates (fingerprints-keys (sorted_by (λ p. p.0) groups) sorted_groups)
          ∙ has_duplicates-sorted_by (λ p. p.0) (λ p. p.0) groups
          ∙ unique,
    )
