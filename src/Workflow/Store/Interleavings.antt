-- ===== src/Workflow/Store/Interleavings.antt =====
-- No update is lost, whatever the tasks do between the two sections of a mutation.
use policyfuzz.Prelude.{
  ℕ, suc, ◌≡◌, inl, inr, refl, sym, ap, subst, ◌∙◌, true, false, ◌&&◌, [], string_eq, nat_eq, some,
  Bool-cases, leb,
}
use policyfuzz.Workflow.Stages.{StoredRun}
use policyfuzz.Workflow.Store.Entries.{Entry, lookup}
use policyfuzz.Workflow.Store.Defs.{done, RunStore, Answer, same_identity, commit, open_store}
use policyfuzz.Workflow.Store.Steps.{
  Pending, System, find_pending, IsWaiting, IsConsistent, Step, creates, reads, deletes, purges,
  closes, begins, commits, dies, Reach, here, next,
}
use policyfuzz.Workflow.Store.Growth.{
  Grows-create, Grows-current_record, Grows-delete, Grows-purge_expired, Grows-aclose,
  IsConsistent-Grows,
}
use policyfuzz.Workflow.Store.Locks.{find_pending-All}
use policyfuzz.Workflow.Store.Updates.{
  commit-cases, IsConsistent-release, IsConsistent-commits, IsConsistent-begins, done-injective,
}

Step-IsConsistent : (y z : System) → Step y z → IsConsistent y → IsConsistent z
Step-IsConsistent y z (creates wall_now now run) c =
    IsConsistent-Grows y _ (Grows-create wall_now now run y.store c.unique) c
Step-IsConsistent y z (reads now id token) c =
    IsConsistent-Grows y _ (Grows-current_record now id token y.store c.unique) c
Step-IsConsistent y z (deletes id) c = IsConsistent-Grows y _ (Grows-delete id y.store c.unique) c
Step-IsConsistent y z (purges now) c =
    IsConsistent-Grows y _ (Grows-purge_expired now y.store c.unique) c
Step-IsConsistent y z closes c = IsConsistent-Grows y _ (Grows-aclose y.store) c
Step-IsConsistent y z (begins now id token expected change current updated free read prepared) c =
    IsConsistent-begins y now id token expected change current updated c free read prepared
Step-IsConsistent y z (commits now token p waits) c = IsConsistent-commits y now token p c waits
Step-IsConsistent y z (dies token) c = IsConsistent-release y token c

-- A store that was just built, and no mutation in progress
abbrev pub initial : RunStore → System
initial s = record { store = s; pending = [] }

pub Reach-IsConsistent : (x y : System) → Reach x y → IsConsistent x → IsConsistent y
Reach-IsConsistent x y here c = c
Reach-IsConsistent x y (next {y = z} before step) c =
    Step-IsConsistent z y step (Reach-IsConsistent x z before c)

pub IsConsistent-open_store :
    (ttl_seconds : ℕ) (s : RunStore) → open_store ttl_seconds ≡ done s → IsConsistent (initial s)
unfolding open_store lookup
IsConsistent-open_store ttl_seconds s h =
    elim (Bool-cases (leb 1 ttl_seconds && leb ttl_seconds 3_600)) [
      | inr bad ↦ cc (rw (bad, open_store) at h)
      | inl good ↦
          let made : record {
            ttl_seconds = ttl_seconds;
            entries = [];
            closed = false;
            next_token = 0;
          }
              ≡ s =
            store-injective _ s (rw (good, open_store) at h) in
          subst (λ (t : RunStore). IsConsistent (initial t)) made
            (record { unique = refl; known = λ id e k. cc; locked = refl; waiting = tt })
    ]
  where
    store-injective : (a b : RunStore) → done a ≡ done b → a ≡ b
    store-injective a b e = cc

-- What the run `updated` has replaced: the run that the mutation had read.
abbrev pub Overwrites : RunStore → Pending → StoredRun → Type 0
Overwrites s p updated =
    (e : Entry) × (lookup p.run_id s.entries ≡ some e)
    × (e.run ≡ p.base)
    × (updated ≡ p.updated)
    × (updated.version ≡ suc e.run.version)
    × (same_identity updated e.run ≡ true)

commit-Overwrites :
    (y : System) (now token : ℕ) (p : Pending) (updated : StoredRun)
    → IsConsistent y
    → find_pending token y.pending ≡ some p
    → (commit now p.run_id p.token p.updated y.store).reply ≡ done updated
    → Overwrites y.store p updated
commit-Overwrites y now token p updated c waits h =
    let (w, _) = find_pending-All (IsWaiting y.store) token y.pending p c.waiting waits in
    elim (commit-cases now p.run_id p.token p.updated y.store c.unique) [
      | inl (missed, _) ↦ cc
      | inr written ↦
          let same : updated ≡ p.updated =
            done-injective updated p.updated
              (sym h ∙ ap (λ (a : Answer StoredRun). a.reply) written.answer) in
          let base : written.entry.run ≡ p.base =
            w.intact written.entry written.found written.own in
          (
            written.entry,
            written.found,
            base,
            same,
            ap (λ (r : StoredRun). r.version) same
                ∙ w.next_version
                ∙ ap (λ (r : StoredRun). suc r.version) (sym base),
            subst (λ r. same_identity updated r ≡ true) (sym base)
                (subst (λ r. same_identity r p.base ≡ true) (sym same) w.identity),
          )
    ]

-- In every state that the tasks of a store can reach, the commit of a pending mutation overwrites the
-- very run that the mutation has read: where it answers a run, the entry still holds that run, and the
-- answer is its next version with the same identity. No update is lost.
pub Reach-Overwrites :
    (ttl_seconds : ℕ) (s : RunStore) (y : System) (now token : ℕ) (p : Pending)
    (updated : StoredRun)
    → open_store ttl_seconds ≡ done s
    → Reach (initial s) y
    → find_pending token y.pending ≡ some p
    → (commit now p.run_id p.token p.updated y.store).reply ≡ done updated
    → Overwrites y.store p updated
Reach-Overwrites ttl_seconds s y now token p updated opened reached waits h =
    commit-Overwrites y now token p updated
      (Reach-IsConsistent (initial s) y reached (IsConsistent-open_store ttl_seconds s opened))
      waits h
