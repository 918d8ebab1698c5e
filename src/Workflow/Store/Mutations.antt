-- ===== src/Workflow/Store/Mutations.antt =====
-- `mutate` against the abstract view.
use policyfuzz.Prelude.{
  String, ℕ, suc, ◌≤◌, ◌≡◌, inl, inr, refl, sym, ap, subst, ◌∙◌, true, false, ◌==◌, string_eq,
  Option, none, some, Option-cases, Bool-cases, if◌then◌else◌, leb, eqb, eqb→eq, arith, ◌&&◌,
  and_left, and_right, nat_eq,
}
use policyfuzz.Workflow.Stages.{StoredRun}
use policyfuzz.Workflow.Store.Entries.{Entry, lookup, remove, rewrite, lookup-rewrite}
use policyfuzz.Workflow.Store.Defs.{
  WorkflowError, run_not_found, Reply, done, failed, Change, candidate, other_value, raises,
  RunStore, Answer, bad_command_at, bounded_lifetime, capture, current_entry, same_identity,
  next_version, prepare, commit, commit_entry, mutate, mutate_entry, mutate_current,
  mutate_prepared,
}
use policyfuzz.Workflow.Store.View.{
  live_run, live, Unchanged, live-remove_expired, capture-eq, current_record-eq, live-eq,
}

-- What a mutation answers in terms of the live runs at its two readings of the clock: a change is
-- applied to the live run of the expected version, and it is refused when the run has expired since.
abbrev pub if_live : Option StoredRun → StoredRun → Reply StoredRun
if_live none updated = failed run_not_found
if_live (some run) updated = done updated

abbrev pub committed : Option StoredRun → Reply StoredRun → Reply StoredRun
committed at_commit (failed e) = failed e
committed at_commit (done updated) = if_live at_commit updated

abbrev pub abstract_mutate :
    ℕ → (StoredRun → Change) → Option StoredRun → Option StoredRun → Reply StoredRun
abstract_mutate expected change none at_commit = failed run_not_found
abstract_mutate expected change (some current) at_commit =
    committed at_commit (prepare expected change current)

-- The live runs after a mutation of `id` that answers `reply`
abbrev pub replaced : Reply StoredRun → Option StoredRun → Option StoredRun
replaced (failed e) run = run
replaced (done updated) none = none
replaced (done updated) (some run) = some updated

abbrev pub Replaces : ℕ → String → Reply StoredRun → RunStore → RunStore → Type 0
Replaces now id reply s s' =
    (t : ℕ) (k : String)
    → now ≤ t
    → live s' t k ≡ (if id == k then replaced reply (live s t k) else live s t k)

Replaces-of_Unchanged :
    (now : ℕ) (id : String) (e : WorkflowError) (s s' : RunStore)
    → Unchanged now s s'
    → Replaces now id (failed e) s s'
Replaces-of_Unchanged now id e s s' same t k later = elim (Bool-cases (id == k)) [
  | inl here ↦ rw here (same t k later)
  | inr away ↦ rw away (same t k later)
]

live-rewrite :
    (t : ℕ) (k id : String) (updated : StoredRun) (s : RunStore)
    → live (record s { entries = rewrite id updated s.entries }) t k
      ≡ (if id == k then replaced (done updated) (live s t k) else live s t k)
live-rewrite t k id updated s = elim (Option-cases (lookup k s.entries)) [
  | inl absent ↦ rw (lookup-rewrite k id updated s.entries, absent) (ground arith)
  | inr (e, found) ↦ rw (lookup-rewrite k id updated s.entries, found) (ground arith)
]

-- The last critical section.
commit_entry-Replaces :
    (now : ℕ) (id : String) (updated : StoredRun) (s : RunStore) (e : Entry)
    → s.closed ≡ false
    → lookup id s.entries ≡ some e
    → ((commit_entry now id updated s (some e)).reply ≡ if_live (live_run now (some e)) updated)
      × Replaces now id
          (commit_entry now id updated s (some e)).reply
          s
          (commit_entry now id updated s (some e)).store
commit_entry-Replaces now id updated s e open_ found = elim (Bool-cases (leb e.deadline now)) [
  | inl old ↦ (
    ground arith,
    rw old (
        Replaces-of_Unchanged now id run_not_found s (record s { entries = remove id s.entries })
          (live-remove_expired s now id e found old)),
  )
  | inr fresh ↦ (ground arith, rw fresh (λ t k later. live-rewrite t k id updated s))
]

commit-eq :
    (now : ℕ) (id : String) (updated : StoredRun) (s : RunStore) (e : Entry)
    → s.closed ≡ false
    → lookup id s.entries ≡ some e
    → commit now id e.token updated s ≡ commit_entry now id updated s (some e)
unfolding commit
commit-eq now id updated s e open_ found = ground arith

-- `mutate` on an entry, from the first critical section on
mutate-eq :
    (now later : ℕ) (id : String) (expected : ℕ) (change : StoredRun → Change) (s : RunStore)
    (e : Entry)
    → s.closed ≡ false
    → lookup id s.entries ≡ some e
    → mutate now later id expected change s
      ≡ mutate_current later id e.token expected change (current_entry now id s (some e))
unfolding mutate
mutate-eq now later id expected change s e open_ found =
    ap (mutate_entry now later id expected change s) (capture-eq id s e open_ found)
    ∙ ap (mutate_current later id e.token expected change)
        (current_record-eq now id s e open_ found)

abbrev Refines : ℕ → ℕ → String → ℕ → (StoredRun → Change) → RunStore → Answer StoredRun → Type 0
Refines now later id expected change s a =
    (a.reply ≡ abstract_mutate expected change (live s now id) (live s later id))
    × Replaces later id a.reply s a.store

mutate_prepared-Refines :
    (now later : ℕ) (id : String) (s : RunStore) (e : Entry) (r : Reply StoredRun)
    → s.closed ≡ false
    → lookup id s.entries ≡ some e
    → ((mutate_prepared later id e.token s r).reply ≡ committed (live s later id) r)
      × Replaces later id
          (mutate_prepared later id e.token s r).reply
          s
          (mutate_prepared later id e.token s r).store
mutate_prepared-Refines now later id s e (failed x) open_ found =
    (refl, Replaces-of_Unchanged later id x s s (λ t k h. refl))
mutate_prepared-Refines now later id s e (done updated) open_ found =
    let (reply, view) = commit_entry-Replaces later id updated s e open_ found in
    subst
      (λ (a : Answer StoredRun).
        (a.reply ≡ if_live (live s later id) updated) × Replaces later id a.reply s a.store)
      (sym (commit-eq later id updated s e open_ found))
      (reply ∙ ap (λ r. if_live r updated) (sym (live-eq later id s e open_ found)), view)

pub mutate_current-Refines :
    (now later : ℕ) (id : String) (expected : ℕ) (change : StoredRun → Change) (s : RunStore)
    (e : Entry)
    → now ≤ later
    → s.closed ≡ false
    → lookup id s.entries ≡ some e
    → Refines now later id expected change s
        (mutate_current later id e.token expected change (current_entry now id s (some e)))
mutate_current-Refines now later id expected change s e order open_ found =
    elim (Bool-cases (leb e.deadline now)) [
      | inl old ↦
          let expired : RunStore = record s { entries = remove id s.entries } in
          let read : current_entry now id s (some e)
              ≡ record { store = expired; reply = failed run_not_found } =
            rw old refl in
          let none_live : none ≡ live s now id = ground arith in
          subst (Refines now later id expected change s)
            (ap (mutate_current later id e.token expected change) (sym read))
            (
              ap (λ r. abstract_mutate expected change r (live s later id)) none_live,
              Replaces-of_Unchanged later id run_not_found s expired
                  (λ t k h. live-remove_expired s now id e found old t k (omega arith)),
            )
      | inr fresh ↦
          let read : current_entry now id s (some e) ≡ record { store = s; reply = done e.run } =
            rw fresh refl in
          let this_live : some e.run ≡ live s now id = ground arith in
          let (reply, view) =
            mutate_prepared-Refines now later id s e (prepare expected change e.run) open_ found in
          subst (Refines now later id expected change s)
            (ap (mutate_current later id e.token expected change) (sym read))
            (reply ∙ ap (λ r. abstract_mutate expected change r (live s later id)) this_live, view)
    ]

-- `mutate`, when no other task enters between its critical sections, implements the abstract
-- mutation: its answer is that of the live runs at the two readings of the clock, from the second
-- reading on the run is replaced exactly when the answer is a run, and no other run changes.
pub mutate-Replaces :
    (now later : ℕ) (id : String) (expected : ℕ) (change : StoredRun → Change) (s : RunStore)
    → now ≤ later
    → ((mutate now later id expected change s).reply
        ≡ abstract_mutate expected change (live s now id) (live s later id))
      × Replaces later id
          (mutate now later id expected change s).reply
          s
          (mutate now later id expected change s).store
mutate-Replaces now later id expected change s order = elim (Bool-cases s.closed) [
  | inl closed ↦ unfold mutate in unfold capture in (ground arith, λ t k h. ground arith)
  | inr open_ ↦ elim (Option-cases (lookup id s.entries)) [
    | inl absent ↦ unfold mutate in unfold capture in (ground arith, λ t k h. ground arith)
    | inr (e, found) ↦
        subst (Refines now later id expected change s)
          (sym (mutate-eq now later id expected change s e open_ found))
          (mutate_current-Refines now later id expected change s e order open_ found)
  ]
]

abbrev pub IsNext : ℕ → (StoredRun → Change) → Option StoredRun → StoredRun → Type 0
IsNext expected change at_read updated =
    (current : StoredRun) × (changed : StoredRun) × (at_read ≡ some current)
    × (current.version ≡ expected)
    × (change current ≡ candidate changed)
    × (updated ≡ record changed { version = suc expected })
    × (same_identity updated current ≡ true)
    × (bounded_lifetime updated ≡ true)

-- The answer of `prepare` at the expected version, by what the change does
abbrev checked : StoredRun → Change → Reply StoredRun
checked current c = elim c [
  | raises e ↦ failed e
  | other_value ↦ failed (bad_command_at current)
  | candidate run ↦
      if bounded_lifetime run && same_identity run current
      then done (next_version current run)
      else failed (bad_command_at current)
]

by_change :
    (expected : ℕ) (change : StoredRun → Change) (current updated : StoredRun) (c : Change)
    → current.version ≡ expected
    → change current ≡ c
    → checked current c ≡ done updated
    → IsNext expected change (some current) updated
unfolding bounded_lifetime same_identity
by_change expected change current updated (raises e) v found h = cc
by_change expected change current updated other_value v found h = cc
by_change expected change current updated (candidate run) v found h =
    elim (Bool-cases (bounded_lifetime run && same_identity run current)) [
      | inr bad ↦ cc (rw (bad, checked) at h)
      | inl good ↦
          let same : updated ≡ record run { version = suc expected } =
            sym (done-injective _ updated (rw (good, checked) at h))
            ∙ ap (λ v. record run { version = suc v }) v in
          (
            current,
            run,
            refl,
            v,
            found,
            same,
            rw same (and_right _ _ good),
            rw same (and_left _ _ good),
          )
    ]
  where
    done-injective : (a b : StoredRun) → done a ≡ done b → a ≡ b
    done-injective a b e = cc

pub prepare-done :
    (expected : ℕ) (change : StoredRun → Change) (current updated : StoredRun)
    → prepare expected change current ≡ done updated
    → IsNext expected change (some current) updated
unfolding prepare bounded_lifetime same_identity
prepare-done expected change current updated h = elim (Bool-cases (eqb current.version expected)) [
  | inr stale ↦ cc (rw (stale, prepare) at h)
  | inl fresh ↦
      by_change expected change current updated (change current)
        (eqb→eq current.version expected fresh) refl (rw (fresh, prepare) at h)
]

committed-done :
    (at_commit : Option StoredRun) (r : Reply StoredRun) (updated : StoredRun)
    → committed at_commit r ≡ done updated
    → r ≡ done updated
committed-done at_commit (failed e) updated h = cc
committed-done none (done u) updated h = cc
committed-done (some run) (done u) updated h = h

abstract_mutate-done :
    (expected : ℕ) (change : StoredRun → Change) (at_read at_commit : Option StoredRun)
    (updated : StoredRun)
    → abstract_mutate expected change at_read at_commit ≡ done updated
    → IsNext expected change at_read updated
abstract_mutate-done expected change none at_commit updated h = cc
abstract_mutate-done expected change (some current) at_commit updated h =
    prepare-done expected change current updated
      (committed-done at_commit (prepare expected change current) updated h)

-- A mutation that answers a run has met the version that it expected, on the live run: the answer has
-- the next version and the identity of that run, and it is the change of that run otherwise.
pub mutate-next_version :
    (now later : ℕ) (id : String) (expected : ℕ) (change : StoredRun → Change) (s : RunStore)
    (updated : StoredRun)
    → now ≤ later
    → (mutate now later id expected change s).reply ≡ done updated
    → (current : StoredRun) × (changed : StoredRun) × (live s now id ≡ some current)
      × (current.version ≡ expected)
      × (change current ≡ candidate changed)
      × (updated ≡ record changed { version = suc expected })
      × (same_identity updated current ≡ true)
      × (bounded_lifetime updated ≡ true)
mutate-next_version now later id expected change s updated order h =
    abstract_mutate-done expected change (live s now id) (live s later id) updated
      (sym (mutate-Replaces now later id expected change s order).0 ∙ h)
