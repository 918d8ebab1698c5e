-- ===== src/Workflow/Store/Laws.antt =====
-- `create`, `delete`, `purge_expired` and `aclose` against the abstract view.
use text.Mathlib.TextEquality.{eq_iff}
use policyfuzz.Prelude.{
  String, ℕ, suc, ◌+◌, ◌≡◌, ◌⊎◌, inl, inr, refl, ap, ◌∙◌, false, [], ◌∷◌, ◌++◌, ◌==◌, ==_refl,
  string_eq, none, some, Option-cases, Bool-cases, if◌then◌else◌, ltb, arith, has_duplicates,
}
use policyfuzz.Workflow.Stages.{StoredRun}
use policyfuzz.Workflow.Store.Entries.{
  Entry, lookup, remove, keys, lookup-remove, lookup-append, lookup-unexpired,
}
use policyfuzz.Workflow.Store.Defs.{
  run_not_found, done, failed, RunStore, Answer, bad_command, stored_entry, stamped, refuses,
  create, get, delete, purge_expired,
}
use policyfuzz.Workflow.Store.View.{live_run, live, Unchanged, found_run, get-live}

abbrev pub Refused : RunStore → Answer StoredRun → Type 0
Refused s a = (a.reply ≡ failed bad_command) × (a.store ≡ s)

abbrev pub Created : ℕ → ℕ → StoredRun → RunStore → Answer StoredRun → Type 0
Created wall_now now run s a =
    (live s now run.run_id ≡ none)
    × (a.reply ≡ done (stamped wall_now run s))
    × ((t : ℕ) (k : String)
        → live a.store t k ≡ (
            if run.run_id == k
            then (if ltb t (now + s.ttl_seconds) then some (stamped wall_now run s) else none)
            else live s t k))

live-create :
    (s : RunStore) (id : String) (e : Entry) (next t : ℕ) (k : String)
    → s.closed ≡ false
    → live (record s { entries = remove id s.entries ++ (id, e) ∷ []; next_token = next }) t k
      ≡ (if id == k then live_run t (some e) else live s t k)
live-create s id e next t k open_ = elim (Option-cases (lookup k s.entries)) [
  | inl absent ↦
      rw (lookup-append k id e (remove id s.entries), lookup-remove k id s.entries, absent, open_)
        (ground arith)
  | inr (x, found) ↦
      rw (lookup-append k id e (remove id s.entries), lookup-remove k id s.entries, found, open_)
        (ground arith)
]

-- `create` either refuses and leaves the store as it is, or no live run had the identifier and the run
-- is live under it until the time to live has passed, with no change to any other run.
pub create-live :
    (wall_now now : ℕ) (run : StoredRun) (s : RunStore)
    → Refused s (create wall_now now run s) ⊎ Created wall_now now run s (create wall_now now run s)
unfolding create
create-live wall_now now run s = elim (Bool-cases (refuses wall_now now run s)) [
  | inl refused ↦ inl (rw refused refl, rw refused refl)
  | inr accepted ↦
      let open_ : s.closed ≡ false = ground arith in
      let free : live s now run.run_id ≡ none = elim (Option-cases (lookup run.run_id s.entries)) [
        | inl absent ↦ ground arith
        | inr (e, found) ↦ ground arith
      ] in
      inr (
        free,
        rw accepted refl,
        λ t k. rw accepted (
            live-create s run.run_id (stored_entry s now (stamped wall_now run s))
              (suc s.next_token) t k open_),
      )
]

live-delete :
    (id : String) (s : RunStore) (t : ℕ) (k : String)
    → live (delete id s).store t k ≡ (if id == k then none else live s t k)
unfolding delete
live-delete id s t k = elim (Bool-cases s.closed) [
  | inl closed ↦ ground (arith, eq_iff id k)
  | inr open_ ↦ elim (Option-cases (lookup id s.entries)) [
    | inl absent ↦ ground (arith, eq_iff id k)
    | inr (e, found) ↦ ground (arith, lookup-remove k id s.entries)
  ]
]

live-gone : (id : String) (s : RunStore) (t : ℕ) → live (delete id s).store t id ≡ none
live-gone id s t = live-delete id s t id ∙ rw (==_refl id) refl

-- After `delete` every reading of that run, at any time, fails with `run_not_found`, and every other
-- run is as live as before.
pub delete-get :
    (id : String) (s : RunStore)
    → ((t : ℕ) → (get t id (delete id s).store).reply ≡ failed run_not_found)
      × ((t : ℕ) (k : String) → (id == k) ≡ false → live (delete id s).store t k ≡ live s t k)
delete-get id s = (
  λ t. (get-live t id (delete id s).store).0 ∙ ap found_run (live-gone id s t),
  λ t k other. live-delete id s t k ∙ rw other refl,
)

-- Purging takes no live run away, whatever the order of the entries.
pub purge_expired-Unchanged :
    (now : ℕ) (s : RunStore)
    → has_duplicates (keys s.entries) ≡ false
    → Unchanged now s (purge_expired now s).store
unfolding purge_expired
purge_expired-Unchanged now s unique t k later = elim (Bool-cases s.closed) [
  | inl closed ↦ ground arith
  | inr open_ ↦ elim (Option-cases (lookup k s.entries)) [
    | inl absent ↦ rw (open_, lookup-unexpired k now s.entries unique, absent) refl
    | inr (e, found) ↦ rw (open_, lookup-unexpired k now s.entries unique, found) (ground arith)
  ]
]
