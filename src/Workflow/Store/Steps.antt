-- ===== src/Workflow/Store/Steps.antt =====
-- Tasks that interleave: a mutation reads under the lock of its entry and commits later, and any
-- operation may come between. No update is lost.
use policyfuzz.Prelude.{
  String, ℕ, suc, ◌<◌, ◌≡◌, true, false, List, [], ◌∷◌, map, All, elem, has_duplicates, ◌==◌,
  string_eq, nat_eq, Option, none, some, if◌then◌else◌,
}
use policyfuzz.Workflow.Stages.{StoredRun}
use policyfuzz.Workflow.Store.Entries.{Entry, lookup}
use policyfuzz.Workflow.Store.Defs.{
  done, Change, RunStore, create, current_record, same_identity, prepare, commit, delete,
  purge_expired, aclose,
}
use policyfuzz.Workflow.Store.Unique.{IsUnique}

-- A mutation between its two critical sections: it holds the lock of its entry.
pub record Pending : Type 0 where
  pub run_id : String
  pub token : ℕ
  pub base : StoredRun
  pub updated : StoredRun

pub record System : Type 0 where
  pub store : RunStore
  pub pending : List Pending

abbrev pub tokens : List Pending → List ℕ
tokens ps = map (λ p. p.token) ps

unfoldable pub find_pending : ℕ → List Pending → Option Pending
find_pending token [] = none
find_pending token (p ∷ ps) = if p.token == token then some p else find_pending token ps

-- The lock is released.
unfoldable pub release : ℕ → List Pending → List Pending
release token [] = []
release token (p ∷ ps) = if p.token == token then ps else p ∷ release token ps

abbrev with_store : System → RunStore → System
with_store y s = record y { store = s }

-- One critical section of some task. A task that dies leaves its lock.
pub data Step (y : System) : System → Type 0 where
  creates :
      (wall_now now : ℕ) (run : StoredRun)
      → Step y (with_store y (create wall_now now run y.store).store)
  reads :
      (now : ℕ) (id : String) (token : ℕ)
      → Step y (with_store y (current_record now id token y.store).store)
  deletes : (id : String) → Step y (with_store y (delete id y.store).store)
  purges : (now : ℕ) → Step y (with_store y (purge_expired now y.store).store)
  closes : Step y (with_store y (aclose y.store))
  begins :
      (now : ℕ) (id : String) (token expected : ℕ) (change : StoredRun → Change)
      (current updated : StoredRun)
      → elem (tokens y.pending) token ≡ false
      → current_record now id token y.store ≡ record { store = y.store; reply = done current }
      → prepare expected change current ≡ done updated
      → Step y (record y {
        pending =
            (record { run_id = id; token = token; base = current; updated = updated }) ∷ y.pending;
      })
  commits :
      (now token : ℕ) (p : Pending)
      → find_pending token y.pending ≡ some p
      → Step y (record {
        store = (commit now p.run_id p.token p.updated y.store).store;
        pending = release token y.pending;
      })
  dies : (token : ℕ) → Step y (record y { pending = release token y.pending })

pub data Reach : System → System → Type 0 where
  here : {y : System} → Reach y y
  next : {x y z : System} → Reach x y → Step y z → Reach x z

-- What holds of a mutation in progress: if its entry still stands under its key, it holds the run that
-- the mutation has read, and the run to be written is the next version of that.
pub record IsWaiting (s : RunStore) (p : Pending) : Type 0 where
  pub issued : p.token < s.next_token
  pub intact : (e : Entry) → lookup p.run_id s.entries ≡ some e → e.token ≡ p.token → e.run ≡ p.base
  pub next_version : p.updated.version ≡ suc p.base.version
  pub identity : same_identity p.updated p.base ≡ true

pub record IsConsistent (y : System) : Type 0 where
  pub unique : IsUnique y.store.entries
  pub known :
      (id : String) (e : Entry) → lookup id y.store.entries ≡ some e → e.token < y.store.next_token
  pub locked : has_duplicates (tokens y.pending) ≡ false
  pub waiting : All (IsWaiting y.store) y.pending
