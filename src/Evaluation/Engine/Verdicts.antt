-- ===== src/Evaluation/Engine/Verdicts.antt =====
-- The verdict of a scenario, and what every evaluation reports.
use policyfuzz.Prelude.{
  ◌≡◌, ◌↔◌, refl, true, false, not, List, [], ◌∷◌, All, any, is_empty, ◌==◌, eq→==, Bool-cases, inl,
  inr, ok, arith, decide, string_eq,
}
use policyfuzz.Domain.Vocabulary.{AssertionStatus, AssertionStatus-discrete, assertion_status_eq}
use policyfuzz.Evaluation.Assertions.{AssertionResult}
use policyfuzz.Evaluation.Engine.Scenarios.{
  Verdict, verdict_of, ScenarioEvaluation, scored_verdict_requires_assertion,
}

abbrev pub Passed : AssertionResult → Type 0
Passed r = r.status ≡ AssertionStatus.pass

no_pass :
    (s : AssertionStatus)
    → (s == AssertionStatus.error) ≡ false
    → (s == AssertionStatus.fail) ≡ false
    → (s == AssertionStatus.inconclusive) ≡ false
    → s ≡ AssertionStatus.pass
unfolding AssertionStatus-discrete decide
no_pass AssertionStatus.pass e f i = refl
no_pass AssertionStatus.fail e f i = cc
no_pass AssertionStatus.inconclusive e f i = cc
no_pass AssertionStatus.error e f i = cc

All-Passed :
    (rs : List AssertionResult)
    → any (λ r. r.status == AssertionStatus.error) rs ≡ false
    → any (λ r. r.status == AssertionStatus.fail) rs ≡ false
    → any (λ r. r.status == AssertionStatus.inconclusive) rs ≡ false
    → All Passed rs
All-Passed [] e f i = tt
All-Passed (r ∷ rs) e f i = (
  no_pass r.status (ground arith) (ground arith) (ground arith),
  All-Passed rs (ground arith) (ground arith) (ground arith),
)

none_of :
    (s : AssertionStatus) (rs : List AssertionResult)
    → (AssertionStatus.pass == s) ≡ false
    → All Passed rs
    → any (λ r. r.status == s) rs ≡ false
none_of s [] other h = refl
none_of s (r ∷ rs) other h = rw (h.0, other) (none_of s rs other h.1)

-- A scenario passes exactly when it has an assertion and every assertion passes.
pub verdict_of-pass :
    (rs : List AssertionResult)
    → (verdict_of rs ≡ Verdict.pass) ↔ ((is_empty rs ≡ false) × All Passed rs)
unfolding verdict_of AssertionStatus-discrete decide
verdict_of-pass rs = (sound, complete)
  where
    sound : verdict_of rs ≡ Verdict.pass → (is_empty rs ≡ false) × All Passed rs
    sound h = elim (Bool-cases (any (λ r. r.status == AssertionStatus.error) rs)) [
      | inl e ↦ cc (rw e at h)
      | inr e ↦ elim (Bool-cases (any (λ r. r.status == AssertionStatus.fail) rs)) [
        | inl f ↦ cc (rw (e, f) at h)
        | inr f ↦ elim (Bool-cases (any (λ r. r.status == AssertionStatus.inconclusive) rs)) [
          | inl i ↦ cc (rw (e, f, i) at h)
          | inr i ↦ elim (Bool-cases (is_empty rs)) [
            | inl n ↦ cc (rw (e, f, i, n) at h)
            | inr n ↦ (n, All-Passed rs e f i)
          ]
        ]
      ]
    ]

    complete : (is_empty rs ≡ false) × All Passed rs → verdict_of rs ≡ Verdict.pass
    complete (n, h) = rw (
      none_of AssertionStatus.error rs refl h,
      none_of AssertionStatus.fail rs refl h,
      none_of AssertionStatus.inconclusive rs refl h,
      n,
    )

nothing_fails :
    (rs : List AssertionResult)
    → any (λ r. r.status == AssertionStatus.fail) rs ≡ true
    → ¬ (is_empty rs ≡ true)
nothing_fails [] f n = cc
nothing_fails (r ∷ rs) f n = cc

none_differs :
    (rs : List AssertionResult)
    → All Passed rs
    → any (λ r. not (r.status == AssertionStatus.pass)) rs ≡ false
unfolding AssertionStatus-discrete decide
none_differs [] h = refl
none_differs (r ∷ rs) h = rw h.0 (none_differs rs h.1)

-- The verdict that the engine computes always satisfies the validator of an evaluation, where the
-- trace names the scenario.
pub scored_verdict-verdict_of :
    (e : ScenarioEvaluation)
    → e.trace.scenario_id ≡ e.scenario_id
    → e.verdict ≡ verdict_of e.assertion_results
    → scored_verdict_requires_assertion e ≡ ok tt
unfolding scored_verdict_requires_assertion verdict_of
scored_verdict-verdict_of e named computed =
    rw (eq→== e.trace.scenario_id e.scenario_id named, computed)
      (elim (Bool-cases (any (λ r. r.status == AssertionStatus.error) e.assertion_results)) [
        | inl x ↦ rw (x) refl
        | inr x ↦
            elim (Bool-cases (any (λ r. r.status == AssertionStatus.fail) e.assertion_results)) [
              | inl f ↦ elim (Bool-cases (is_empty e.assertion_results)) [
                | inl n ↦ absurd (nothing_fails e.assertion_results f n)
                | inr n ↦ rw (x, f, n) refl
              ]
              | inr f ↦
                  elim (Bool-cases
                    (any (λ r. r.status == AssertionStatus.inconclusive) e.assertion_results)) [
                      | inl i ↦ rw (x, f, i) refl
                      | inr i ↦ elim (Bool-cases (is_empty e.assertion_results)) [
                        | inl n ↦ rw (x, f, i, n) refl
                        | inr n ↦
                            rw
                              (
                                x,
                                f,
                                i,
                                n,
                                none_differs e.assertion_results
                                    (All-Passed e.assertion_results x f i),
                              )
                              refl
                      ]
                    ]
            ]
      ])
