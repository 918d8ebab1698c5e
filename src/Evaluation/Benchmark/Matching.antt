-- ===== src/Evaluation/Benchmark/Matching.antt =====
-- `_maximum_matching` counts the findings that some defect matches.
use policyfuzz.Prelude.{
  ℕ, zero, suc, ◌+◌, ◌≤◌, ◌<◌, ◌≡◌, inl, inr, refl, sym, ◌∙◌, Bool, true, false, ◌||◌, List, [],
  ◌∷◌, ◌++◌, any, keep, length, length-append, has_duplicates, string_eq, nat_eq, eqb, eqb→eq, some,
  Bool-cases, if◌then◌else◌, arith,
}
use policyfuzz.Domain.Intent.{is_some}
use policyfuzz.Domain.Finding.{Finding}
use policyfuzz.Evaluation.Benchmark.Defs.{
  BenchmarkDefect, matches, owner, nth, gives_up, assign, assign_each, maximum_matching,
  fingerprints,
}
use policyfuzz.Evaluation.Benchmark.Scanning.{
  IsBlocked, IsTaken, IsOnly, IsOnly-IsBlocked, Result, scan-IsBlocked, scan-Result,
}

abbrev is_matched : List BenchmarkDefect → Finding → Bool
is_matched ds f = any (λ d. matches d f) ds

-- The findings with an owner are those that a defect of the list matches.
abbrev Tracks : List BenchmarkDefect → List (ℕ × ℕ) → List Finding → ℕ → Type 0
Tracks ds m [] k = Unit
Tracks ds m (f ∷ fs) k = (is_some (owner k m) ≡ is_matched ds f) × Tracks ds m fs (suc k)

any-snoc :
    (ds : List BenchmarkDefect) (d : BenchmarkDefect) (f : Finding)
    → is_matched (ds ++ d ∷ []) f ≡ (is_matched ds f || matches d f)
any-snoc [] d f = ground arith
any-snoc (x ∷ ds) d f = ground (arith, any-snoc ds d f)

Tracks-nothing : (fs : List Finding) (k : ℕ) → Tracks [] [] fs k
unfolding owner
Tracks-nothing [] k = tt
Tracks-nothing (f ∷ fs) k = (refl, Tracks-nothing fs (suc k))

Tracks-taken :
    (ds : List BenchmarkDefect) (d : BenchmarkDefect) (m : List (ℕ × ℕ)) (fs : List Finding) (k : ℕ)
    → Tracks ds m fs k
    → IsTaken d m fs k
    → Tracks (ds ++ d ∷ []) m fs k
Tracks-taken ds d m [] k h t = tt
Tracks-taken ds d m (f ∷ fs) k h t = (
  same (is_some (owner k m)) (is_matched ds f) (matches d f) h.0 t.0 ∙ sym (any-snoc ds d f),
  Tracks-taken ds d m fs (suc k) h.1 t.1,
)
  where
    same : (a b c : Bool) → a ≡ b → (c ≡ true → a ≡ true) → a ≡ (b || c)
    same a b true h t = ground (arith, t refl)
    same a b false h t = ground arith

Tracks-takes :
    (ds : List BenchmarkDefect) (d : BenchmarkDefect) (i t : ℕ) (m : List (ℕ × ℕ))
    (fs : List Finding) (k : ℕ)
    → Tracks ds m fs k
    → IsOnly d t fs k
    → Tracks (ds ++ d ∷ []) ((t, i) ∷ m) fs k
unfolding owner
Tracks-takes ds d i t m [] k h o = tt
Tracks-takes ds d i t m (f ∷ fs) k h o = (
  (elim (Bool-cases (eqb t k)) [
    | inl here ↦ ground (arith, o.0, any-snoc ds d f)
    | inr away ↦ ground (arith, h.0, o.0, any-snoc ds d f)
  ]),
  Tracks-takes ds d i t m fs (suc k) h.1 o.1,
)

-- How many findings have an owner
owned : List (ℕ × ℕ) → List Finding → ℕ → ℕ
owned m [] k = 0
owned m (f ∷ fs) k = (if is_some (owner k m) then 1 else 0) + owned m fs (suc k)

none_owned : (fs : List Finding) (k : ℕ) → owned [] fs k ≡ 0
unfolding owned owner
none_owned [] k = refl
none_owned (f ∷ fs) k = omega (arith, none_owned fs (suc k))

owned-Tracks :
    (ds : List BenchmarkDefect) (m : List (ℕ × ℕ)) (fs : List Finding) (k : ℕ)
    → Tracks ds m fs k
    → owned m fs k ≡ length (keep (is_matched ds) fs)
unfolding owned
owned-Tracks ds m [] k h = refl
owned-Tracks ds m (f ∷ fs) k h = ground (arith, h.0, owned-Tracks ds m fs (suc k) h.1)

owned-later :
    (t i : ℕ) (m : List (ℕ × ℕ)) (fs : List Finding) (k : ℕ)
    → t < k
    → owned ((t, i) ∷ m) fs k ≡ owned m fs k
unfolding owned owner
owned-later t i m [] k lt = refl
owned-later t i m (f ∷ fs) k lt = ground (arith, owned-later t i m fs (suc k) (omega arith))

owned-takes :
    (d : BenchmarkDefect) (t i : ℕ) (m : List (ℕ × ℕ)) (fs : List Finding) (k : ℕ)
    → is_some (owner t m) ≡ false
    → k ≤ t
    → t < k + length fs
    → owned ((t, i) ∷ m) fs k ≡ suc (owned m fs k)
unfolding owned owner
owned-takes d t i m [] k free le lt = absurd (omega arith)
owned-takes d t i m (f ∷ fs) k free le lt = elim (Bool-cases (eqb t k)) [
  | inl here ↦
      let e : t ≡ k = eqb→eq t k here in
      let gone : is_some (owner k m) ≡ false = rw e at free in
      rw (here, gone) (omega (arith, owned-later t i m fs (suc k) (omega arith)))
  | inr away ↦
      rw away (omega (arith, owned-takes d t i m fs (suc k) free (ground arith) (omega arith)))
]

nth-append :
    (ps : List BenchmarkDefect) (d : BenchmarkDefect) (ds : List BenchmarkDefect)
    → nth (length ps) (ps ++ d ∷ ds) ≡ some d
unfolding nth
nth-append [] d ds = refl
nth-append (p ∷ ps) d ds = nth-append ps d ds

snoc-append :
    (ps : List BenchmarkDefect) (d : BenchmarkDefect) (ds : List BenchmarkDefect)
    → ps ++ d ∷ ds ≡ (ps ++ d ∷ []) ++ ds
snoc-append [] d ds = refl
snoc-append (p ∷ ps) d ds = rw (snoc-append ps d ds) refl

append-nil : (ps : List BenchmarkDefect) → ps ++ [] ≡ ps
append-nil [] = refl
append-nil (p ∷ ps) = rw (append-nil ps) refl

module _ (defects : List BenchmarkDefect) (findings : List Finding) (fuel : ℕ) where
  -- The owner of a finding matches no other finding.
  abbrev IsOwned : List (ℕ × ℕ) → Type 0
  IsOwned m =
      (k p : ℕ)
      → owner k m ≡ some p
      → (d : BenchmarkDefect) × (nth p defects ≡ some d) × IsBlocked d (k ∷ []) findings 0

  refused :
      (m : List (ℕ × ℕ)) (n : ℕ)
      → IsOwned m
      → (k p : ℕ) → owner k m ≡ some p
      → assign defects findings n p (k ∷ []) m ≡ gives_up (k ∷ []) m
  unfolding assign
  refused m zero h k p e = refl
  refused m (suc n) h k p e =
      let (d, at, blocked) = h k p e in
      rw (at, assign) (scan-IsBlocked (assign defects findings n) d p findings 0 (k ∷ []) m blocked)

  IsOwned-takes :
      (d : BenchmarkDefect) (i t : ℕ) (m : List (ℕ × ℕ))
      → nth i defects ≡ some d
      → IsOnly d t findings 0
      → IsOwned m
      → IsOwned ((t, i) ∷ m)
  unfolding owner
  IsOwned-takes d i t m at only h k p e = elim (Bool-cases (eqb t k)) [
    | inl here ↦
        let owns : i ≡ p = ground arith in
        (d, rw owns at at, rw (eqb→eq t k here) at (IsOnly-IsBlocked d t findings 0 only))
    | inr away ↦ h k p (rw away at e)
  ]

  assign_step :
      (i : ℕ) (d : BenchmarkDefect) (m : List (ℕ × ℕ))
      → nth i defects ≡ some d
      → has_duplicates (fingerprints findings) ≡ false
      → IsOwned m
      → Result d i m findings 0 (assign defects findings (suc fuel) i [] m)
  unfolding assign
  assign_step i d m at unique h =
      rw (at, assign)
        (scan-Result (assign defects findings fuel) d i m (refused m fuel h) findings 0 unique)

  abbrev each_from : List BenchmarkDefect → ℕ → List (ℕ × ℕ) → ℕ
  each_from ds i m = assign_each defects findings (suc fuel) ds i m

  after_step :
      (d : BenchmarkDefect) (ds : List BenchmarkDefect) (i : ℕ) (m m' : List (ℕ × ℕ)) (b : Bool)
      → (assign defects findings (suc fuel) i [] m).found ≡ b
      → (assign defects findings (suc fuel) i [] m).matched ≡ m'
      → each_from (d ∷ ds) i m ≡ (if b then 1 else 0) + each_from ds (suc i) m'
  unfolding assign_each
  after_step d ds i m m' b found matched = rw (found, matched) refl

  counted :
      (ps ds : List BenchmarkDefect) (m : List (ℕ × ℕ))
      → ps ++ ds ≡ defects
      → Tracks ps m findings 0
      → IsOwned m
      → has_duplicates (fingerprints findings) ≡ false
      → each_from ds (length ps) m + owned m findings 0
        ≡ length (keep (is_matched defects) findings)
  unfolding assign_each
  counted ps [] m e tracks h unique =
      let all : ps ≡ defects = sym (append-nil ps) ∙ e in
      let sum = rw all at (owned-Tracks ps m findings 0 tracks) in omega arith
  counted ps (d ∷ ds) m e tracks h unique =
      let at : nth (length ps) defects ≡ some d = rw e at (nth-append ps d ds) in
      let e' : (ps ++ d ∷ []) ++ ds ≡ defects = sym (snoc-append ps d ds) ∙ e in
      let next : length (ps ++ d ∷ []) ≡ suc (length ps) =
        length-append ps (d ∷ []) ∙ omega arith in
      elim (assign_step (length ps) d m at unique h) [
        | inl (failed, same, taken) ↦
            let step = after_step d ds (length ps) m m false failed same in
            let rest =
              counted (ps ++ d ∷ []) ds m e' (Tracks-taken ps d m findings 0 tracks taken) h
                unique in
            let rest' = rw next at rest in omega arith
        | inr t ↦
            let step =
              after_step d ds (length ps) m ((t.index, length ps) ∷ m) true t.found t.matched in
            let rest =
              counted (ps ++ d ∷ []) ds ((t.index, length ps) ∷ m) e'
                (Tracks-takes ps d (length ps) t.index m findings 0 tracks t.only)
                (IsOwned-takes d (length ps) t.index m at t.only h) unique in
            let rest' = rw next at rest in
            let more = owned-takes d t.index (length ps) m findings 0 t.free t.late t.inside in
            omega arith
      ]

-- Where no two findings have the same fingerprint, the size of the matching that the search builds is
-- the number of findings that some defect matches.
pub maximum_matching-exact :
    (defects : List BenchmarkDefect) (findings : List Finding)
    → has_duplicates (fingerprints findings) ≡ false
    → maximum_matching defects findings
      ≡ length (keep (λ f. any (λ d. matches d f) defects) findings)
unfolding maximum_matching owner owned
maximum_matching-exact defects findings unique =
    let sum =
      counted defects findings (length findings) [] defects [] refl (Tracks-nothing findings 0)
        (λ k p e. cc) unique in
    let nothing = none_owned findings 0 in omega arith

module _ (defects : List BenchmarkDefect) (findings : List Finding) (fuel : ℕ) where
  assign_each_le :
      (ds : List BenchmarkDefect) (i : ℕ) (m : List (ℕ × ℕ))
      → assign_each defects findings fuel ds i m ≤ length ds
  unfolding assign_each
  assign_each_le [] i m = omega arith
  assign_each_le (d ∷ ds) i m =
      ground (arith, assign_each_le ds (suc i) (assign defects findings fuel i [] m).matched)

pub maximum_matching_le :
    (defects : List BenchmarkDefect) (findings : List Finding)
    → maximum_matching defects findings ≤ length defects
unfolding maximum_matching
maximum_matching_le defects findings =
    assign_each_le defects findings (suc (length findings)) defects 0 []
