-- ===== src/Evaluation/Benchmark/Scanning.antt =====
-- One pass of `assign` over the findings, where no two findings have the same fingerprint: a defect
-- matches at most one of them.
use policyfuzz.Prelude.{
  String, ℕ, suc, ◌+◌, ◌≤◌, ◌<◌, subst, ap, ◌≡◌, ◌⊎◌, inl, inr, refl, sym, ◌∙◌, Bool, true, false,
  not, ◌||◌, List, [], ◌∷◌, elem, length, has_duplicates, ==_refl, ==→eq, string_eq, nat_eq, eqb,
  Option, none, some, Option-cases, Bool-cases, arith,
}
use policyfuzz.Domain.Intent.{is_some}
use policyfuzz.Domain.Finding.{Finding}
use policyfuzz.Evaluation.Benchmark.Defs.{
  BenchmarkDefect, matches, owner, Attempt, gives_up, takes, scan, fingerprints, is_expected,
}

-- Every finding from index `k` on that the defect matches has been visited.
abbrev pub IsBlocked : BenchmarkDefect → List ℕ → List Finding → ℕ → Type 0
IsBlocked d v [] k = Unit
IsBlocked d v (f ∷ fs) k = (matches d f ≡ true → elem v k ≡ true) × IsBlocked d v fs (suc k)

-- No finding of the list matches.
abbrev pub MatchesNone : BenchmarkDefect → List Finding → Type 0
MatchesNone d [] = Unit
MatchesNone d (f ∷ fs) = (matches d f ≡ false) × MatchesNone d fs

-- Every finding that matches has an owner.
abbrev pub IsTaken : BenchmarkDefect → List (ℕ × ℕ) → List Finding → ℕ → Type 0
IsTaken d m [] k = Unit
IsTaken d m (f ∷ fs) k = (matches d f ≡ true → is_some (owner k m) ≡ true) × IsTaken d m fs (suc k)

pub MatchesNone-IsBlocked :
    (d : BenchmarkDefect) (v : List ℕ) (fs : List Finding) (k : ℕ)
    → MatchesNone d fs
    → IsBlocked d v fs k
MatchesNone-IsBlocked d v [] k h = tt
MatchesNone-IsBlocked d v (f ∷ fs) k h = (λ e. cc (h.0), MatchesNone-IsBlocked d v fs (suc k) h.1)

-- A finding of the list matches exactly when it stands at the index.
abbrev pub IsOnly : BenchmarkDefect → ℕ → List Finding → ℕ → Type 0
IsOnly d t [] k = Unit
IsOnly d t (f ∷ fs) k = (matches d f ≡ eqb t k) × IsOnly d t fs (suc k)

MatchesNone-IsTaken :
    (d : BenchmarkDefect) (m : List (ℕ × ℕ)) (fs : List Finding) (k : ℕ)
    → MatchesNone d fs
    → IsTaken d m fs k
MatchesNone-IsTaken d m [] k h = tt
MatchesNone-IsTaken d m (f ∷ fs) k h = (λ e. cc (h.0), MatchesNone-IsTaken d m fs (suc k) h.1)

pub scan-skip :
    (again : ℕ → List ℕ → List (ℕ × ℕ) → Attempt) (d : BenchmarkDefect) (i : ℕ) (f : Finding)
    (fs : List Finding) (k : ℕ) (v : List ℕ) (m : List (ℕ × ℕ))
    → (elem v k || not (matches d f)) ≡ true
    → scan again d i (f ∷ fs) k v m ≡ scan again d i fs (suc k) v m
unfolding scan
scan-skip again d i f fs k v m h = rw (h, scan) refl

-- A pass over findings that are all visited or do not match gives up and changes nothing.
pub scan-IsBlocked :
    (again : ℕ → List ℕ → List (ℕ × ℕ) → Attempt) (d : BenchmarkDefect) (i : ℕ) (fs : List Finding)
    (k : ℕ) (v : List ℕ) (m : List (ℕ × ℕ))
    → IsBlocked d v fs k
    → scan again d i fs k v m ≡ gives_up v m
unfolding scan
scan-IsBlocked again d i [] k v m h = refl
scan-IsBlocked again d i (f ∷ fs) k v m h =
    scan-skip again d i f fs k v m (passed (matches d f) h.0)
    ∙ scan-IsBlocked again d i fs (suc k) v m h.1
  where
    passed : (b : Bool) → (b ≡ true → elem v k ≡ true) → (elem v k || not b) ≡ true
    passed true e = ground (arith, e refl)
    passed false e = ground arith

-- What a pass over the findings from `k` on does, when nothing has been visited: it gives up, where
-- every match has an owner, or the defect takes the one finding that it matches.
pub record Takes (d : BenchmarkDefect) (i : ℕ) (m : List (ℕ × ℕ)) (fs : List Finding) (k : ℕ)
    (a : Attempt) : Type 0 where
  pub index : ℕ
  pub late : k ≤ index
  pub inside : index < k + length fs
  pub found : a.found ≡ true
  pub matched : a.matched ≡ (index, i) ∷ m
  pub free : is_some (owner index m) ≡ false
  pub only : IsOnly d index fs k

expected_unique :
    (o : Option String) (s t : String) → is_expected o s ≡ true → is_expected o t ≡ true → s ≡ t
expected_unique none s t h k = cc
expected_unique (some u) s t h k = sym (==→eq u s h) ∙ ==→eq u t k

matches-expected :
    (d : BenchmarkDefect) (f : Finding)
    → matches d f ≡ true
    → is_expected d.expected_finding_fingerprint_sha256 f.fingerprint_sha256 ≡ true
unfolding matches
matches-expected d f e = ground arith

pub matches-fingerprint :
    (d : BenchmarkDefect) (f g : Finding)
    → matches d f ≡ true
    → matches d g ≡ true
    → f.fingerprint_sha256 ≡ g.fingerprint_sha256
matches-fingerprint d f g h k =
    expected_unique d.expected_finding_fingerprint_sha256 f.fingerprint_sha256 g.fingerprint_sha256
      (matches-expected d f h) (matches-expected d g k)

-- After a finding that matches, no other does.
pub others_differ :
    (d : BenchmarkDefect) (f : Finding) (fs : List Finding)
    → matches d f ≡ true
    → elem (fingerprints fs) f.fingerprint_sha256 ≡ false
    → MatchesNone d fs
others_differ d f [] h new = tt
others_differ d f (g ∷ fs) h new = (
  elim (Bool-cases (matches d g)) [
    | inl both ↦
        let same : f.fingerprint_sha256 ≡ g.fingerprint_sha256 = matches-fingerprint d f g h both in
        ground (arith, ==_refl f.fingerprint_sha256)
    | inr differs ↦ differs
  ],
  others_differ d f fs h (ground arith),
)

MatchesNone-IsOnly :
    (d : BenchmarkDefect) (t : ℕ) (fs : List Finding) (k : ℕ)
    → t < k
    → MatchesNone d fs
    → IsOnly d t fs k
MatchesNone-IsOnly d t [] k lt h = tt
MatchesNone-IsOnly d t (f ∷ fs) k lt h =
    (ground (arith, h.0), MatchesNone-IsOnly d t fs (suc k) (omega arith) h.1)

pub IsOnly-IsBlocked :
    (d : BenchmarkDefect) (t : ℕ) (fs : List Finding) (k : ℕ)
    → IsOnly d t fs k
    → IsBlocked d (t ∷ []) fs k
IsOnly-IsBlocked d t [] k h = tt
IsOnly-IsBlocked d t (f ∷ fs) k h = (λ e. ground (arith, h.0), IsOnly-IsBlocked d t fs (suc k) h.1)

abbrev pub Result : BenchmarkDefect → ℕ → List (ℕ × ℕ) → List Finding → ℕ → Attempt → Type 0
Result d i m fs k a = ((a.found ≡ false) × (a.matched ≡ m) × IsTaken d m fs k) ⊎ Takes d i m fs k a

module _ (again : ℕ → List ℕ → List (ℕ × ℕ) → Attempt) (d : BenchmarkDefect) (i : ℕ)
    (m : List (ℕ × ℕ))
    (refused : (k p : ℕ) → owner k m ≡ some p → (again p (k ∷ []) m) ≡ gives_up (k ∷ []) m) where
  scan-hit :
      (f : Finding) (fs : List Finding) (k : ℕ)
      → matches d f ≡ true
      → MatchesNone d fs
      → Result d i m (f ∷ fs) k (scan again d i (f ∷ fs) k [] m)
  unfolding scan
  scan-hit f fs k hit rest = elim (Option-cases (owner k m)) [
    | inl free ↦
        let e : scan again d i (f ∷ fs) k [] m ≡ takes k i (k ∷ []) m = rw (hit, free, scan) refl in
        inr (
          subst (Takes d i m (f ∷ fs) k) (sym e) (record {
            index = k;
            late = omega arith;
            inside = omega arith;
            found = refl;
            matched = refl;
            free = rw free refl;
            only = (ground arith, MatchesNone-IsOnly d k fs (suc k) (omega arith) rest);
          }))
    | inr (p, owned) ↦
        let e : scan again d i (f ∷ fs) k [] m ≡ gives_up (k ∷ []) m =
          rw (hit, owned, scan)
            (subst
              (λ (a : Attempt).
                elim a.found [
                  | true ↦ takes k i a.visited a.matched
                  | false ↦ scan again d i fs (suc k) a.visited a.matched
                ]
                ≡ gives_up (k ∷ []) m)
              (sym (refused k p owned))
              (scan-IsBlocked again d i fs (suc k) (k ∷ []) m
                (MatchesNone-IsBlocked d (k ∷ []) fs (suc k) rest))) in
        inl (
          ap (λ (a : Attempt). a.found) e,
          ap (λ (a : Attempt). a.matched) e,
          (λ h. rw owned refl, MatchesNone-IsTaken d m fs (suc k) rest),
        )
  ]

  pub scan-Result :
      (fs : List Finding) (k : ℕ)
      → has_duplicates (fingerprints fs) ≡ false
      → Result d i m fs k (scan again d i fs k [] m)
  unfolding scan
  scan-Result [] k h = inl (refl, refl, tt)
  scan-Result (f ∷ fs) k h = elim (Bool-cases (matches d f)) [
    | inl hit ↦ scan-hit f fs k hit (others_differ d f fs hit (ground arith))
    | inr miss ↦
        subst (Result d i m (f ∷ fs) k) (sym (scan-skip again d i f fs k [] m (ground arith)))
          (elim (scan-Result fs (suc k) (ground arith)) [
            | inl (failed, same, taken) ↦ inl (failed, same, (λ e. cc, taken))
            | inr t ↦
                let late = t.late in
                let inside = t.inside in
                inr (record {
                  index = t.index;
                  late = omega arith;
                  inside = omega arith;
                  found = t.found;
                  matched = t.matched;
                  free = t.free;
                  only = (ground arith, t.only);
                })
          ])
  ]
