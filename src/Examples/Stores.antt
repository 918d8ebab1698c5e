-- ===== src/Examples/Stores.antt =====
-- A store with one run, a mutation of it, and one that another task outlives.
use policyfuzz.Prelude.{
  String, ℕ, ◌≡◌, ◌⊎◌, refl, true, false, [], ◌∷◌, has_duplicates, some, ◌==◌, string_eq, arith,
}
use policyfuzz.Workflow.Stages.{RunStage, StoredRun}
use policyfuzz.Workflow.Store.{
  keys, RunStore, Change, candidate, done, failed, run_not_found, open_store, bounded_lifetime,
  create, capture, get, current_record, same_identity, prepare, commit, mutate, purge_expired,
  delete,
}
use policyfuzz.Workflow.Store.View.{live, found_run, Unchanged, get-live}
use policyfuzz.Workflow.Store.Mutations.{
  abstract_mutate, Replaces, mutate-Replaces, mutate-next_version,
}
use policyfuzz.Workflow.Store.Laws.{
  Refused, Created, create-live, delete-get, purge_expired-Unchanged,
}
use policyfuzz.Workflow.Store.Steps.{
  Pending, System, find_pending, Reach, here, next, creates, begins,
}
use policyfuzz.Workflow.Store.Interleavings.{initial, Overwrites, Reach-Overwrites}
use policyfuzz.Examples.Runs.{queued_run}

abbrev empty_store : RunStore
empty_store = record { ttl_seconds = 3_600; entries = []; closed = false; next_token = 0 }

opened : open_store 3_600 ≡ done empty_store
unfolding open_store
opened = refl

store : RunStore
unfolding create
store = (create 0 100 queued_run empty_store).store

create_example :
    Refused empty_store (create 0 100 queued_run empty_store)
    ⊎ Created 0 100 queued_run empty_store (create 0 100 queued_run empty_store)
create_example = create-live 0 100 queued_run empty_store

get_example :
    ((get 200 "r1" store).reply ≡ found_run (live store 200 "r1"))
    × Unchanged 200 store (get 200 "r1" store).store
get_example = get-live 200 "r1" store

abbrev start : StoredRun → Change
start r = candidate (record r { stage = RunStage.ingesting })

mutate_example :
    ((mutate 200 201 "r1" 0 start store).reply
      ≡ abstract_mutate 0 start (live store 200 "r1") (live store 201 "r1"))
    × Replaces 201 "r1"
        (mutate 200 201 "r1" 0 start store).reply
        store
        (mutate 200 201 "r1" 0 start store).store
mutate_example = mutate-Replaces 200 201 "r1" 0 start store (omega arith)

abbrev stamped_run : StoredRun
stamped_run = record queued_run { created_at = 0; expires_at = 3_600 }

abbrev started : StoredRun
started = record stamped_run { stage = RunStage.ingesting; version = 1 }

answered : (mutate 200 201 "r1" 0 start store).reply ≡ done started
unfolding store create mutate capture current_record prepare commit bounded_lifetime same_identity
answered = refl

next_version_example :
    (current : StoredRun) × (changed : StoredRun) × (live store 200 "r1" ≡ some current)
    × (current.version ≡ 0)
    × (start current ≡ candidate changed)
    × (started ≡ record changed { version = 1 })
    × (same_identity started current ≡ true)
    × (bounded_lifetime started ≡ true)
next_version_example = mutate-next_version 200 201 "r1" 0 start store started (omega arith) answered

delete_example :
    ((t : ℕ) → (get t "r1" (delete "r1" store).store).reply ≡ failed run_not_found)
    × ((t : ℕ) (k : String)
        → ("r1" == k) ≡ false
        → live (delete "r1" store).store t k ≡ live store t k)
delete_example = delete-get "r1" store

unique : has_duplicates (keys store.entries) ≡ false
unfolding store create
unique = refl

purge_example : Unchanged 200 store (purge_expired 200 store).store
purge_example = purge_expired-Unchanged 200 store unique

abbrev pending : Pending
pending = record { run_id = "r1"; token = 0; base = stamped_run; updated = started }

abbrev system : System
system = record { store = store; pending = pending ∷ [] }

read_run : current_record 200 "r1" 0 store ≡ record { store = store; reply = done stamped_run }
unfolding store create current_record bounded_lifetime
read_run = refl

prepared : prepare 0 start stamped_run ≡ done started
unfolding prepare
prepared = refl

created : Reach (initial empty_store) (initial store)
unfolding store
created = next here (creates 0 100 queued_run)

reached : Reach (initial empty_store) system
reached = next created (begins 200 "r1" 0 0 start stamped_run started refl read_run prepared)

waits : find_pending 0 system.pending ≡ some pending
unfolding find_pending
waits = refl

committed : (commit 201 "r1" 0 started store).reply ≡ done started
unfolding store create commit bounded_lifetime
committed = refl

interleaved_example : Overwrites store pending started
interleaved_example =
    Reach-Overwrites 3_600 empty_store system 201 0 pending started opened reached waits committed
