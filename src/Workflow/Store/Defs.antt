-- ===== src/Workflow/Store/Defs.antt =====
-- The operations. Each critical section of `_entries_lock` is one function; `mutate` is two, since
-- another task may enter between them. Wall times and the monotonic clock are natural numbers, a
-- time to live is in seconds, and arguments of other types than the annotated ones do not occur.
use policyfuzz.Prelude.{
  String, ℕ, suc, ◌+◌, ◌-◌, Bool, true, false, not, ◌&&◌, ◌||◌, List, [], ◌∷◌, ◌++◌, length, ◌==◌,
  string_eq, nat_eq, Option, none, some, if◌then◌else◌, leb, ltb, eqb,
}
use policyfuzz.Workflow.Stages.{RunStage, RunAction, StoredRun, allowed_actions}
use policyfuzz.Workflow.Store.Entries.{Entry, lookup, remove, rewrite, unexpired}

-- The errors of errors.py that the store raises or passes on from a change
pub data WorkflowError : Type 0 where
  run_not_found : WorkflowError
  concurrent_run_mutation : (current_stage : RunStage) (actions : List RunAction) → WorkflowError
  invalid_run_command : (current_stage : Option RunStage) (actions : List RunAction) → WorkflowError
  invalid_run_state : (current_stage : RunStage) (actions : List RunAction) → WorkflowError
  stale_artifact : (current_stage : Option RunStage) (actions : List RunAction) → WorkflowError

pub data Reply {ℓ} (A : Type ℓ) : Type ℓ where
  done : A → Reply A
  failed : WorkflowError → Reply A

-- What a `RunMutation` does: it returns a run or something else, or it raises.
pub data Change : Type 0 where
  candidate : StoredRun → Change
  other_value : Change
  raises : WorkflowError → Change

-- `next_token` is the identity of the next entry that is built.
pub record RunStore : Type 0 where
  pub ttl_seconds : ℕ
  pub entries : List (String × Entry)
  pub closed : Bool
  pub next_token : ℕ

pub record Answer {ℓ} (A : Type ℓ) : Type ℓ where
  pub store : RunStore
  pub reply : Reply A

abbrev pub bad_command : WorkflowError
bad_command = invalid_run_command none []

-- The same with the stage of the run, `allowed_actions=self._actions_for(current)`
abbrev pub bad_command_at : StoredRun → WorkflowError
bad_command_at run = invalid_run_command (some run.stage) (allowed_actions run.stage)

-- `RunStore.__init__`
unfoldable pub open_store : ℕ → Reply RunStore
open_store ttl_seconds =
    if leb 1 ttl_seconds && leb ttl_seconds 3_600
    then done (record { ttl_seconds = ttl_seconds; entries = []; closed = false; next_token = 0 })
    else failed bad_command

-- `RunRecord.bounded_lifetime`, the validator of every construction and snapshot
unfoldable pub bounded_lifetime : StoredRun → Bool
bounded_lifetime run =
    ltb run.created_at run.expires_at
    && (leb (run.expires_at - run.created_at) 3_600 && run.manifest.run_id == run.run_id)

abbrev pub is_live : ℕ → Option Entry → Bool
is_live now none = false
is_live now (some e) = ltb now e.deadline

abbrev pub stored_entry : RunStore → ℕ → StoredRun → Entry
stored_entry s now run = record { token = s.next_token; run = run; deadline = now + s.ttl_seconds }

-- The run as the store keeps it
abbrev pub stamped : ℕ → StoredRun → RunStore → StoredRun
stamped wall_now run s = record run { created_at = wall_now; expires_at = wall_now + s.ttl_seconds }

-- The snapshot is invalid, the store is closed, or the identifier belongs to a live run.
abbrev pub refuses : ℕ → ℕ → StoredRun → RunStore → Bool
refuses wall_now now run s =
    not (bounded_lifetime (stamped wall_now run s))
    || (s.closed || is_live now (lookup run.run_id s.entries))

-- `create`. A plain `RunRecord` comes with version 0.
unfoldable pub create : ℕ → ℕ → StoredRun → RunStore → Answer StoredRun
unfolding bounded_lifetime lookup remove
create wall_now now run s =
    if refuses wall_now now run s
    then record { store = s; reply = failed bad_command }
    else record {
      store = record s {
        entries =
            remove run.run_id s.entries
            ++ (run.run_id, stored_entry s now (stamped wall_now run s)) ∷ [];
        next_token = suc s.next_token;
      };
      reply = done (stamped wall_now run s);
    }

-- `_capture`: the token of the entry
unfoldable pub capture : String → RunStore → Reply ℕ
unfolding lookup
capture id s =
    if s.closed
    then failed run_not_found
    else elim (lookup id s.entries) [ none ↦ failed run_not_found | some e ↦ done e.token ]

-- `self._closed or self._entries.get(run_id) is not entry`
abbrev pub held : ℕ → Option Entry → Option Entry
held token none = none
held token (some e) = if eqb e.token token then some e else none

abbrev pub current_entry : ℕ → String → RunStore → Option Entry → Answer StoredRun
current_entry now id s none = record { store = s; reply = failed run_not_found }
current_entry now id s (some e) =
    if leb e.deadline now
    then record { store = record s { entries = remove id s.entries }; reply = failed run_not_found }
    else record { store = s; reply = done e.run }

-- `_current_record`
unfoldable pub current_record : ℕ → String → ℕ → RunStore → Answer StoredRun
unfolding lookup remove
current_record now id token s =
    if s.closed
    then record { store = s; reply = failed run_not_found }
    else current_entry now id s (held token (lookup id s.entries))

abbrev pub get_entry : ℕ → String → RunStore → Reply ℕ → Answer StoredRun
get_entry now id s (failed e) = record { store = s; reply = failed e }
get_entry now id s (done token) = current_record now id token s

-- `get`
unfoldable pub get : ℕ → String → RunStore → Answer StoredRun
unfolding capture current_record
get now id s = get_entry now id s (capture id s)

-- `getattr(validated, field) != getattr(current, field)` for the four identity fields
unfoldable pub same_identity : StoredRun → StoredRun → Bool
same_identity a b =
    a.run_id == b.run_id
    && ((a.manifest.run_id == b.manifest.run_id && a.manifest.settings == b.manifest.settings)
        && (a.created_at == b.created_at && a.expires_at == b.expires_at))

abbrev pub next_version : StoredRun → StoredRun → StoredRun
next_version current run = record run { version = suc current.version }

-- The part of `mutate` from the comparison of versions to `updated`
unfoldable pub prepare : ℕ → (StoredRun → Change) → StoredRun → Reply StoredRun
unfolding bounded_lifetime same_identity
prepare expected change current =
    if eqb current.version expected
    then elim (change current) [
      | raises e ↦ failed e
      | other_value ↦ failed (bad_command_at current)
      | candidate run ↦
          if bounded_lifetime run && same_identity run current
          then done (next_version current run)
          else failed (bad_command_at current)
    ]
    else failed (concurrent_run_mutation current.stage (allowed_actions current.stage))

-- The last critical section of `mutate`
abbrev pub commit_entry : ℕ → String → StoredRun → RunStore → Option Entry → Answer StoredRun
commit_entry now id updated s none = record { store = s; reply = failed run_not_found }
commit_entry now id updated s (some e) =
    if leb e.deadline now
    then record { store = record s { entries = remove id s.entries }; reply = failed run_not_found }
    else record {
      store = record s { entries = rewrite id updated s.entries };
      reply = done updated;
    }

unfoldable pub commit : ℕ → String → ℕ → StoredRun → RunStore → Answer StoredRun
unfolding lookup remove rewrite
commit now id token updated s =
    if s.closed
    then record { store = s; reply = failed run_not_found }
    else commit_entry now id updated s (held token (lookup id s.entries))

-- `mutate` when no other task enters: the clock is read twice.
abbrev pub mutate_prepared : ℕ → String → ℕ → RunStore → Reply StoredRun → Answer StoredRun
mutate_prepared later id token s (failed e) = record { store = s; reply = failed e }
mutate_prepared later id token s (done updated) = commit later id token updated s

abbrev pub mutate_current :
    ℕ → String → ℕ → ℕ → (StoredRun → Change) → Answer StoredRun → Answer StoredRun
mutate_current later id token expected change a = elim a.reply [
  | failed e ↦ a
  | done current ↦ mutate_prepared later id token a.store (prepare expected change current)
]

abbrev pub mutate_entry :
    ℕ → ℕ → String → ℕ → (StoredRun → Change) → RunStore → Reply ℕ → Answer StoredRun
mutate_entry now later id expected change s (failed e) = record { store = s; reply = failed e }
mutate_entry now later id expected change s (done token) =
    mutate_current later id token expected change (current_record now id token s)

unfoldable pub mutate : ℕ → ℕ → String → ℕ → (StoredRun → Change) → RunStore → Answer StoredRun
unfolding capture current_record prepare commit
mutate now later id expected change s = mutate_entry now later id expected change s (capture id s)

-- `delete`
abbrev pub delete_entry : String → RunStore → Option Entry → Answer (Unit {0})
delete_entry id s none = record { store = s; reply = failed run_not_found }
delete_entry id s (some e) = record {
  store = record s { entries = remove id s.entries };
  reply = done tt;
}

unfoldable pub delete : String → RunStore → Answer (Unit {0})
unfolding lookup remove
delete id s =
    if s.closed
    then record { store = s; reply = failed run_not_found }
    else delete_entry id s (lookup id s.entries)

-- `purge_expired`
unfoldable pub purge_expired : ℕ → RunStore → Answer ℕ
unfolding unexpired
purge_expired now s = if s.closed then record { store = s; reply = done 0 } else record {
  store = record s { entries = unexpired now s.entries };
  reply = done (length s.entries - length (unexpired now s.entries));
}

-- `aclose`
unfoldable pub aclose : RunStore → RunStore
aclose s = record s { closed = true; entries = [] }
