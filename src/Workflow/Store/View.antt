-- ===== src/Workflow/Store/View.antt =====
-- The abstract view of the store: at each time and for each identifier the run that is live. The
-- operations implement an abstract map of runs.
use text.Mathlib.TextEquality.{eq_iff}
use policyfuzz.Prelude.{
  String, ℕ, ◌≤◌, ◌≡◌, inl, inr, refl, sym, ap, subst, ◌∙◌, true, false, ◌==◌, string_eq, Option,
  none, some, Option-cases, Bool-cases, if◌then◌else◌, leb, ltb, arith,
}
use policyfuzz.Workflow.Stages.{StoredRun}
use policyfuzz.Workflow.Store.Entries.{Entry, lookup, remove, lookup-remove}
use policyfuzz.Workflow.Store.Defs.{
  run_not_found, Reply, done, failed, RunStore, Answer, capture, current_record, current_entry, get,
  get_entry,
}

abbrev pub live_run : ℕ → Option Entry → Option StoredRun
live_run t none = none
live_run t (some e) = if ltb t e.deadline then some e.run else none

-- The run that is live under the identifier at time `t`
abbrev pub live : RunStore → ℕ → String → Option StoredRun
live s t k = if s.closed then none else live_run t (lookup k s.entries)

-- After an operation at `now` the live runs are as before, from then on.
abbrev pub Unchanged : ℕ → RunStore → RunStore → Type 0
Unchanged now s s' = (t : ℕ) (k : String) → now ≤ t → live s' t k ≡ live s t k

abbrev pub found_run : Option StoredRun → Reply StoredRun
found_run none = failed run_not_found
found_run (some run) = done run

-- An entry that has expired can be removed.
pub live-remove_expired :
    (s : RunStore) (now : ℕ) (id : String) (e : Entry)
    → lookup id s.entries ≡ some e
    → leb e.deadline now ≡ true
    → Unchanged now s (record s { entries = remove id s.entries })
live-remove_expired s now id e found old t k later = elim (Bool-cases (id == k)) [
  | inl same ↦
      let eq : id ≡ k = (eq_iff id k).0 same in
      let found' : lookup k s.entries ≡ some e = rw eq at found in
      rw (lookup-remove k id s.entries, same, found') (ground arith)
  | inr other ↦ rw (lookup-remove k id s.entries, other) refl
]

-- What a critical section reads: the live run.
pub current_entry-live :
    (now : ℕ) (id : String) (s : RunStore) (e : Entry)
    → lookup id s.entries ≡ some e
    → ((current_entry now id s (some e)).reply ≡ found_run (live_run now (some e)))
      × Unchanged now s (current_entry now id s (some e)).store
current_entry-live now id s e found = elim (Bool-cases (leb e.deadline now)) [
  | inl old ↦ (ground arith, rw old (live-remove_expired s now id e found old))
  | inr fresh ↦ (ground arith, rw fresh (λ t k h. refl))
]

pub capture-eq :
    (id : String) (s : RunStore) (e : Entry)
    → s.closed ≡ false
    → lookup id s.entries ≡ some e
    → capture id s ≡ done e.token
unfolding capture
capture-eq id s e open_ found = ground arith

pub current_record-eq :
    (now : ℕ) (id : String) (s : RunStore) (e : Entry)
    → s.closed ≡ false
    → lookup id s.entries ≡ some e
    → current_record now id e.token s ≡ current_entry now id s (some e)
unfolding current_record
current_record-eq now id s e open_ found = ground arith

get-eq :
    (now : ℕ) (id : String) (s : RunStore) (e : Entry)
    → s.closed ≡ false
    → lookup id s.entries ≡ some e
    → get now id s ≡ current_entry now id s (some e)
unfolding get
get-eq now id s e open_ found =
    ap (get_entry now id s) (capture-eq id s e open_ found)
    ∙ current_record-eq now id s e open_ found

pub live-eq :
    (t : ℕ) (id : String) (s : RunStore) (e : Entry)
    → s.closed ≡ false
    → lookup id s.entries ≡ some e
    → live s t id ≡ live_run t (some e)
live-eq t id s e open_ found = ground arith

-- `get` answers with the live run, or that there is none, and changes no live run.
pub get-live :
    (now : ℕ) (id : String) (s : RunStore)
    → ((get now id s).reply ≡ found_run (live s now id)) × Unchanged now s (get now id s).store
unfolding get
get-live now id s = elim (Bool-cases s.closed) [
  | inl closed ↦ unfold capture in (ground arith, λ t k h. ground arith)
  | inr open_ ↦ elim (Option-cases (lookup id s.entries)) [
    | inl absent ↦ unfold capture in (ground arith, λ t k h. ground arith)
    | inr (e, found) ↦
        let (reply, same) = current_entry-live now id s e found in
        subst
          (λ (a : Answer StoredRun).
            (a.reply ≡ found_run (live s now id)) × Unchanged now s a.store)
          (sym (get-eq now id s e open_ found))
          (reply ∙ ap found_run (sym (live-eq now id s e open_ found)), same)
  ]
]
