-- ===== src/Workflow/Stages/Reach.antt =====
-- Runs as sequences of transitions: they are finite, and a complete run has met every review.
use policyfuzz.Prelude.{
  String, ℕ, suc, ◌+◌, ◌≤◌, ◌<◌, ◌≡◌, refl, ap, sym, subst, ◌∙◌, Bool, true, List, [], ◌∷◌, ◌++◌,
  All, all, map, elem, All-elem, All-of_elem, all→All, subset, length, ltb, ltb→lt, Option,
  Bool-cases, inl, inr, arith, elem-append, elem-cons, elem-here, or_left, or_right, decide,
}
use policyfuzz.Workflow.Stages.Defs.{
  RunStage, RunStage-discrete, stage_eq, RunEvent, StoredRun, moved, transitions, transition_to,
  queued, ingesting, extracting, awaiting_contract, generating_initial_tests, provisional_execution,
  targeting_coverage, freezing_suite, baseline_execution, analyzing, awaiting_finding_review,
  drafting_revision, awaiting_revision_confirmation, applying_revision, retesting, complete,
  completed_no_findings, completed_no_revision, contract_rejected, revision_rejected,
  coverage_limit_exceeded, failed,
}

-- `n` successful transitions, one after the other.
pub data Moves : ℕ → StoredRun → StoredRun → Type 0 where
  stay : {r : StoredRun} → Moves 0 r r
  move :
      {n : ℕ} {r s t : StoredRun} (now : ℕ) (artifact : Option String) (stage : RunStage)
      → Moves n r s
      → transition_to now artifact s stage ≡ moved t
      → Moves (suc n) r t

abbrev all_stages : List RunStage
all_stages =
    queued ∷ ingesting ∷ extracting ∷ awaiting_contract ∷ generating_initial_tests
    ∷ provisional_execution ∷ targeting_coverage ∷ freezing_suite ∷ baseline_execution ∷ analyzing
    ∷ awaiting_finding_review ∷ drafting_revision ∷ awaiting_revision_confirmation
    ∷ applying_revision ∷ retesting ∷ complete ∷ completed_no_findings ∷ completed_no_revision
    ∷ contract_rejected ∷ revision_rejected ∷ coverage_limit_exceeded ∷ failed ∷ []

listed : (s : RunStage) → elem all_stages s ≡ true
unfolding RunStage-discrete decide
listed queued = refl
listed ingesting = refl
listed extracting = refl
listed awaiting_contract = refl
listed generating_initial_tests = refl
listed provisional_execution = refl
listed targeting_coverage = refl
listed freezing_suite = refl
listed baseline_execution = refl
listed analyzing = refl
listed awaiting_finding_review = refl
listed drafting_revision = refl
listed awaiting_revision_confirmation = refl
listed applying_revision = refl
listed retesting = refl
listed complete = refl
listed completed_no_findings = refl
listed completed_no_revision = refl
listed contract_rejected = refl
listed revision_rejected = refl
listed coverage_limit_exceeded = refl
listed failed = refl

-- What holds of every edge of the table, by running a test on all of them.
by_table :
    (test : RunStage → RunStage → Bool)
    → all (λ s. all (test s) (transitions s)) all_stages ≡ true
    → (s t : RunStage) → elem (transitions s) t ≡ true
    → test s t ≡ true
by_table test h s t m =
    All-elem (λ u. test s u ≡ true) (transitions s)
      (all→All (test s) (transitions s) (
        All-elem (λ u. all (test u) (transitions u) ≡ true) all_stages
          (all→All (λ u. all (test u) (transitions u)) all_stages h) s (listed s)))
      t m

-- The longest way to a stage without successors.
abbrev pub remaining : RunStage → ℕ
remaining queued = 15
remaining ingesting = 14
remaining extracting = 13
remaining awaiting_contract = 12
remaining generating_initial_tests = 11
remaining provisional_execution = 10
remaining targeting_coverage = 9
remaining freezing_suite = 8
remaining baseline_execution = 7
remaining analyzing = 6
remaining awaiting_finding_review = 5
remaining drafting_revision = 4
remaining awaiting_revision_confirmation = 3
remaining applying_revision = 2
remaining retesting = 1
remaining _ = 0

remaining-decreases : (s t : RunStage) → elem (transitions s) t ≡ true → remaining t < remaining s
unfolding transitions
remaining-decreases s t m =
    ltb→lt _ _ (by_table (λ s t. ltb (remaining t) (remaining s)) refl s t m)

-- The stages in which a person reviews, which a run at a stage has met.
abbrev pub reviews : RunStage → List RunStage
reviews queued = []
reviews ingesting = []
reviews extracting = []
reviews failed = []
reviews awaiting_finding_review = awaiting_contract ∷ awaiting_finding_review ∷ []
reviews drafting_revision = awaiting_contract ∷ awaiting_finding_review ∷ []
reviews completed_no_revision = awaiting_contract ∷ awaiting_finding_review ∷ []
reviews awaiting_revision_confirmation =
    awaiting_contract ∷ awaiting_finding_review ∷ awaiting_revision_confirmation ∷ []
reviews applying_revision =
    awaiting_contract ∷ awaiting_finding_review ∷ awaiting_revision_confirmation ∷ []
reviews retesting =
    awaiting_contract ∷ awaiting_finding_review ∷ awaiting_revision_confirmation ∷ []
reviews complete = awaiting_contract ∷ awaiting_finding_review ∷ awaiting_revision_confirmation ∷ []
reviews revision_rejected =
    awaiting_contract ∷ awaiting_finding_review ∷ awaiting_revision_confirmation ∷ []
reviews _ = awaiting_contract ∷ []

reviews-edge :
    (s t : RunStage) → elem (transitions s) t ≡ true → subset (reviews t) (t ∷ reviews s) ≡ true
unfolding transitions RunStage-discrete decide
reviews-edge s t m = by_table (λ s t. subset (reviews t) (t ∷ reviews s)) refl s t m

abbrev pub stages_of : StoredRun → List RunStage
stages_of r = map (λ e. e.stage) r.events

-- What a transition that succeeds does.
record IsMove (r t : StoredRun) (stage : RunStage) : Type 0 where
  legal : elem (transitions r.stage) stage ≡ true
  staged : t.stage ≡ stage
  logged : stages_of t ≡ stages_of r ++ stage ∷ []

map-append :
    (es : List RunEvent) (e : RunEvent)
    → map (λ e. e.stage) (es ++ e ∷ []) ≡ map (λ e. e.stage) es ++ e.stage ∷ []
map-append [] e = refl
map-append (x ∷ xs) e = rw (map-append xs e) refl

transition_to-IsMove :
    (now : ℕ) (artifact : Option String) (r t : StoredRun) (stage : RunStage)
    → transition_to now artifact r stage ≡ moved t
    → IsMove r t stage
unfolding transition_to
transition_to-IsMove now artifact r t stage h =
    elim (Bool-cases (elem (transitions r.stage) stage)) [
      | inr illegal ↦ cc (rw (illegal, transition_to) at h)
      | inl legal ↦
          let same = moved-injective _ t (rw (legal, transition_to) at h) in
          subst (λ (u : StoredRun). IsMove r u stage) same
            (record { legal = legal; staged = refl; logged = map-append r.events _ })
    ]
  where
    moved-injective : (a b : StoredRun) → moved a ≡ moved b → a ≡ b
    moved-injective a b e = cc

length-append : (xs : List RunStage) (x : RunStage) → length (xs ++ x ∷ []) ≡ suc (length xs)
length-append [] x = refl
length-append (y ∷ ys) x = ap suc (length-append ys x)

-- A run makes at most as many transitions as the longest way from its stage is long, fifteen from
-- the stage `queued`, and each adds one event.
pub Moves-bounded :
    (n : ℕ) (r t : StoredRun)
    → Moves n r t
    → (n + remaining t.stage ≤ remaining r.stage)
      × (length (stages_of t) ≡ n + length (stages_of r))
Moves-bounded n r t stay = (omega arith, omega arith)
Moves-bounded _ r t (move {n = n} {s = s} now artifact stage before h) =
    let (bound, count) = Moves-bounded n r s before in
    let m = transition_to-IsMove now artifact s t stage h in
    let lower = remaining-decreases s.stage stage m.legal in
    let grown : length (stages_of t) ≡ suc (length (stages_of s)) =
      ap length m.logged ∙ length-append (stages_of s) stage in
    let shown : remaining t.stage ≡ remaining stage = ap remaining m.staged in
    (omega arith, omega arith)

-- The reviews that belong to a stage stand among the events.
abbrev pub HasMet : StoredRun → Type 0
HasMet r = All (λ review. elem (stages_of r) review ≡ true) (reviews r.stage)

HasMet-move : (s t : StoredRun) (stage : RunStage) → IsMove s t stage → HasMet s → HasMet t
HasMet-move s t stage m met =
    All-of_elem (λ review. elem (stages_of t) review ≡ true) (reviews t.stage)
      (λ review owed.
        elim (elem-cons stage review (reviews s.stage) (
          All-elem (λ x. elem (stage ∷ reviews s.stage) x ≡ true) (reviews stage)
            (all→All (elem (stage ∷ reviews s.stage)) (reviews stage)
              (reviews-edge s.stage stage m.legal))
            review (subst (λ x. elem (reviews x) review ≡ true) m.staged owed))) [
              | inl now ↦
                  rw (m.logged, elem-append (stages_of s) (stage ∷ []) review)
                    (or_right (elem (stages_of s) review) (elem (stage ∷ []) review)
                      (rw now (elem-here review [])))
              | inr earlier ↦
                  rw (m.logged, elem-append (stages_of s) (stage ∷ []) review)
                    (or_left (elem (stages_of s) review) (elem (stage ∷ []) review) (
                      All-elem (λ x. elem (stages_of s) x ≡ true) (reviews s.stage) met review
                        earlier))
            ])

Moves-HasMet : (n : ℕ) (r t : StoredRun) → Moves n r t → HasMet r → HasMet t
Moves-HasMet n r t stay met = met
Moves-HasMet _ r t (move {n = n} {s = s} now artifact stage before h) met =
    HasMet-move s t stage (transition_to-IsMove now artifact s t stage h)
      (Moves-HasMet n r s before met)

-- A run that starts in `queued` and reaches `complete` has the reviews of the contract, of the
-- findings and of the revision among its events.
pub complete-reviewed :
    (n : ℕ) (r t : StoredRun)
    → Moves n r t
    → r.stage ≡ queued
    → t.stage ≡ complete
    → All
        (λ review. elem (stages_of t) review ≡ true)
        (awaiting_contract ∷ awaiting_finding_review ∷ awaiting_revision_confirmation ∷ [])
complete-reviewed n r t moves start finish =
    subst (λ x. All (λ review. elem (stages_of t) review ≡ true) (reviews x)) finish
      (Moves-HasMet n r t moves
        (subst (λ x. All (λ review. elem (stages_of r) review ≡ true) (reviews x)) (sym start) tt))
