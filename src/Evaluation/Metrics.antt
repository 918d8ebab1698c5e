-- ===== src/Evaluation/Metrics.antt =====
-- backend/app/features/evaluation/metrics.py: the counts of assertion results and their percentage.
use native.Mathlib.Omega.{div_fact, mod_fact}
use native.Mathlib.Nat.{mul-le-mul_left}
use policyfuzz.Prelude.{
  leb, leb→le, ℕ, zero, suc, ◌+◌, ◌*◌, ◌/◌, ◌≤◌, ◌≡◌, ◌⊎◌, inl, inr, refl, Bool, true, false, List,
  [], ◌∷◌, ◌++◌, keep, length, ◌==◌, Option, none, some, arith, decide, Bool-cases,
}
use policyfuzz.Domain.Vocabulary.{AssertionStatus, AssertionStatus-discrete, assertion_status_eq}
use policyfuzz.Evaluation.Assertions.{AssertionResult}
use policyfuzz.Evaluation.Engine.{ScenarioEvaluation}

-- `_percent`: rounded to the nearest, half up
unfoldable pub percent : ℕ → ℕ → Option ℕ
percent numerator zero = none
percent numerator (suc k) = some ((numerator * 100 + suc k / 2) / suc k)

pub record AssertionCounts : Type 0 where
  pub passed : ℕ
  pub failed : ℕ
  pub inconclusive : ℕ
  pub error : ℕ

abbrev pub results_of : List ScenarioEvaluation → List AssertionResult
results_of [] = []
results_of (e ∷ es) = e.assertion_results ++ results_of es

-- One entry of the `Counter`
abbrev pub count : AssertionStatus → List AssertionResult → ℕ
count s rs = length (keep (λ r. r.status == s) rs)

unfoldable pub assertion_counts : List ScenarioEvaluation → AssertionCounts
assertion_counts es = record {
  passed = count AssertionStatus.pass (results_of es);
  failed = count AssertionStatus.fail (results_of es);
  inconclusive = count AssertionStatus.inconclusive (results_of es);
  error = count AssertionStatus.error (results_of es);
}

-- `sum(assertion_counts.values())`
abbrev pub total : AssertionCounts → ℕ
total c = c.passed + c.failed + c.inconclusive + c.error

-- `assertion_pass_percent`
unfoldable pub assertion_pass_percent : List ScenarioEvaluation → Option ℕ
unfolding percent assertion_counts
assertion_pass_percent es = percent (assertion_counts es).passed (total (assertion_counts es))

-- `p` is the percentage that `n` is of `d`, rounded.
pub record IsPercent (n d p : ℕ) : Type 0 where
  pub above : 2 * (d * p) ≤ 200 * n + d
  pub below : 200 * n ≤ 2 * (d * p) + d

IsPercent_lem : (n k : ℕ) → IsPercent n (suc k) ((n * 100 + suc k / 2) / suc k)
IsPercent_lem n k =
    let q = div_fact (n * 100 + suc k / 2) k in
    let r = mod_fact (n * 100 + suc k / 2) k in record { above = omega arith; below = omega arith }

one_if : Bool → ℕ
one_if true = 1
one_if false = 0

count-cons :
    (s : AssertionStatus) (r : AssertionResult) (rs : List AssertionResult)
    → count s (r ∷ rs) ≡ one_if (r.status == s) + count s rs
unfolding one_if
count-cons s r rs = elim (Bool-cases (r.status == s)) [
  | inl same ↦ rw same (omega arith)
  | inr other ↦ rw other (omega arith)
]

-- A status is exactly one of the four.
one_status :
    (s : AssertionStatus)
    → one_if (s == AssertionStatus.pass)
        + one_if (s == AssertionStatus.fail)
        + one_if (s == AssertionStatus.inconclusive)
        + one_if (s == AssertionStatus.error)
      ≡ 1
unfolding one_if AssertionStatus-discrete decide
one_status AssertionStatus.pass = refl
one_status AssertionStatus.fail = refl
one_status AssertionStatus.inconclusive = refl
one_status AssertionStatus.error = refl

count-sum :
    (rs : List AssertionResult)
    → count AssertionStatus.pass rs
        + count AssertionStatus.fail rs
        + count AssertionStatus.inconclusive rs
        + count AssertionStatus.error rs
      ≡ length rs
count-sum [] = refl
count-sum (r ∷ rs) = omega (
  arith,
  count-sum rs,
  one_status r.status,
  count-cons AssertionStatus.pass r rs,
  count-cons AssertionStatus.fail r rs,
  count-cons AssertionStatus.inconclusive r rs,
  count-cons AssertionStatus.error r rs,
)

at_most_100 : (n k p : ℕ) → IsPercent n (suc k) p → n ≤ suc k → p ≤ 100
at_most_100 n k p h le = elim (Bool-cases (leb p 100)) [
  | inl small ↦ leb→le p 100 small
  | inr large ↦
      let m = mul-le-mul_left {m = 101} {n = p} (suc k) (ground arith) in
      let above = h.above in absurd (omega arith)
]

-- What a percentage is: nothing for a zero denominator, else the share in percent, rounded.
abbrev pub PercentOf : ℕ → ℕ → Option ℕ → Type 0
PercentOf n d o = ((d ≡ 0) × (o ≡ none)) ⊎ ((p : ℕ) × (o ≡ some p) × IsPercent n d p × (p ≤ 100))

pub percent-PercentOf : (n d : ℕ) → n ≤ d → PercentOf n d (percent n d)
unfolding percent
percent-PercentOf n zero le = inl (refl, refl)
percent-PercentOf n (suc k) le =
    let h = IsPercent_lem n k in inr (_, refl, h, at_most_100 n k _ h le)

-- The four counts add up to the number of assertion results.
pub assertion_counts-total :
    (es : List ScenarioEvaluation) → total (assertion_counts es) ≡ length (results_of es)
unfolding assertion_counts
assertion_counts-total es = count-sum (results_of es)
