-- ===== src/Workflow/Store/Updates.antt =====
-- The two sections of a mutation keep the system consistent.
use text.Mathlib.TextEquality.{eq_iff}
use policyfuzz.Prelude.{
  String, ℕ, suc, ◌≡◌, ◌≢◌, ◌⊎◌, inl, inr, refl, sym, ap, subst, ◌∙◌, Bool, true, false, List, ◌∷◌,
  All-map, All-and, elem, ◌==◌, string_eq, nat_eq, Option, none, some, Bool-cases, if◌then◌else◌,
  leb, eqb, eqb→eq, ==→eq, arith,
}
use policyfuzz.Workflow.Stages.{StoredRun}
use policyfuzz.Workflow.Store.Entries.{Entry, lookup, rewrite, lookup-rewrite}
use policyfuzz.Workflow.Store.Defs.{
  run_not_found, done, failed, Change, RunStore, Answer, held, current_record, current_entry,
  same_identity, prepare, commit, commit_entry,
}
use policyfuzz.Workflow.Store.Mutations.{prepare-done}
use policyfuzz.Workflow.Store.Unique.{IsUnique, rewrite-IsUnique}
use policyfuzz.Workflow.Store.Steps.{
  Pending, System, tokens, find_pending, release, IsWaiting, IsConsistent,
}
use policyfuzz.Workflow.Store.Growth.{Grows, Grows-refl, Grows-remove, IsConsistent-Grows}
use policyfuzz.Workflow.Store.Locks.{find_pending-All, release-locked, release-All, release-IsFree}

pub done-injective : (a b : StoredRun) → done a ≡ done b → a ≡ b
done-injective a b h = cc

pub some-injective {ℓ} : {A : Type ℓ} (a b : A) → some a ≡ some b → a ≡ b
some-injective a b h = cc

-- A commit that writes, or one that does not find its entry or finds it expired.
pub record IsWritten (id : String) (token : ℕ) (updated : StoredRun) (s : RunStore)
    (a : Answer StoredRun) : Type 0 where
  pub entry : Entry
  pub found : lookup id s.entries ≡ some entry
  pub own : entry.token ≡ token
  pub answer :
      a
      ≡ record { store = record s { entries = rewrite id updated s.entries }; reply = done updated }

abbrev pub IsMissed : RunStore → Answer StoredRun → Type 0
IsMissed s a = (a.reply ≡ failed run_not_found) × Grows s a.store

pub commit-cases :
    (now : ℕ) (id : String) (token : ℕ) (updated : StoredRun) (s : RunStore)
    → IsUnique s.entries
    → IsMissed s (commit now id token updated s)
      ⊎ IsWritten id token updated s (commit now id token updated s)
unfolding commit
commit-cases now id token updated s u = by_closed s.closed
  where
    by_entry :
        (o : Option Entry)
        → lookup id s.entries ≡ o
        → IsMissed s (commit_entry now id updated s (held token o))
          ⊎ IsWritten id token updated s (commit_entry now id updated s (held token o))
    by_entry none e = inl (refl, Grows-refl s u)
    by_entry (some x) e = elim (Bool-cases (eqb x.token token)) [
      | inr foreign ↦ rw foreign (inl (refl, Grows-refl s u))
      | inl own ↦ elim (Bool-cases (leb x.deadline now)) [
        | inl old ↦ rw (own, old) (inl (refl, Grows-remove s id u))
        | inr fresh ↦
            rw (own, fresh)
              (inr (record { entry = x; found = e; own = eqb→eq x.token token own; answer = refl }))
      ]
    ]

    by_closed :
        (b : Bool)
        → let a : Answer StoredRun =
            if b
            then record { store = s; reply = failed run_not_found }
            else commit_entry now id updated s (held token (lookup id s.entries)) in
          IsMissed s a ⊎ IsWritten id token updated s a
    by_closed true = inl (refl, Grows-refl s u)
    by_closed false = by_entry (lookup id s.entries) refl

-- What stands under a key after a write: what stood there, or the entry that was written.
rewrite-origin :
    (k id : String) (run : StoredRun) (m : List (String × Entry)) (e x : Entry)
    → lookup id m ≡ some e
    → lookup k (rewrite id run m) ≡ some x
    → ((id ≢ k) × (lookup k m ≡ some x)) ⊎ ((id ≡ k) × (x.token ≡ e.token))
rewrite-origin k id run m e x found h = elim (Bool-cases (id == k)) [
  | inl hit ↦
      let same : id ≡ k = ==→eq id k hit in
      let there : lookup k m ≡ some e = rw same at found in
      let after : some (record e { run = run }) ≡ some x =
        rw (hit, there) at (sym (lookup-rewrite k id run m) ∙ h) in
      inr (same, token_of e x run after)
  | inr away ↦
      inl ((λ e. ground (arith, eq_iff id k)), rw away at (sym (lookup-rewrite k id run m) ∙ h))
]
  where
    token_of :
        (e x : Entry) (run : StoredRun) → some (record e { run = run }) ≡ some x → x.token ≡ e.token
    token_of e x run same = ap entry_token (sym same)
      where
        entry_token : Option Entry → ℕ
        entry_token (some y) = y.token
        entry_token none = e.token

IsConsistent-rewrite :
    (y : System) (p : Pending) (e : Entry)
    → IsConsistent y
    → lookup p.run_id y.store.entries ≡ some e
    → e.token ≡ p.token
    → IsConsistent (record {
      store = record y.store { entries = rewrite p.run_id p.updated y.store.entries };
      pending = release p.token y.pending;
    })
IsConsistent-rewrite y p e c found own = record {
  unique = rewrite-IsUnique p.run_id p.updated y.store.entries c.unique;
  known = λ id x h. elim (rewrite-origin id p.run_id p.updated y.store.entries e x found h) [
    | inl (_, old) ↦ c.known id x old
    | inr (_, same) ↦ let k = c.known p.run_id e found in omega arith
  ];
  locked = release-locked p.token y.pending c.locked;
  waiting =
      All-map
        (λ q (w, free). record {
          issued = w.issued;
          intact = λ x h same_token.
              elim (rewrite-origin q.run_id p.run_id p.updated y.store.entries e x found h) [
                | inl (_, old) ↦ w.intact x old same_token
                | inr (_, same) ↦ absurd (free (sym same_token ∙ same ∙ own))
              ];
          next_version = w.next_version;
          identity = w.identity;
        })
        (release p.token y.pending)
        (All-and _ _ (release p.token y.pending)
          (release-All (IsWaiting y.store) p.token y.pending c.waiting)
          (release-IsFree p.token y.pending c.locked));
}

pub IsConsistent-release :
    (y : System) (token : ℕ)
    → IsConsistent y
    → IsConsistent (record y { pending = release token y.pending })
IsConsistent-release y token c = record {
  unique = c.unique;
  known = c.known;
  locked = release-locked token y.pending c.locked;
  waiting = release-All (IsWaiting y.store) token y.pending c.waiting;
}

pub IsConsistent-commits :
    (y : System) (now token : ℕ) (p : Pending)
    → IsConsistent y
    → find_pending token y.pending ≡ some p
    → IsConsistent (record {
      store = (commit now p.run_id p.token p.updated y.store).store;
      pending = release token y.pending;
    })
IsConsistent-commits y now token p c waits =
    let (_, own) = find_pending-All (IsWaiting y.store) token y.pending p c.waiting waits in
    elim (commit-cases now p.run_id p.token p.updated y.store c.unique) [
      | inl (_, g) ↦
          IsConsistent-release
            (record y { store = (commit now p.run_id p.token p.updated y.store).store }) token
            (IsConsistent-Grows y _ g c)
      | inr w ↦
          subst
            (λ (a : Answer StoredRun).
              IsConsistent (record { store = a.store; pending = release token y.pending }))
            (sym w.answer)
            (subst
              (λ t. IsConsistent (record {
                store = record y.store { entries = rewrite p.run_id p.updated y.store.entries };
                pending = release t y.pending;
              }))
              own (IsConsistent-rewrite y p w.entry c w.found w.own))
    ]

-- A section that reads an entry has found it under its key.
current_record-found :
    (now : ℕ) (id : String) (token : ℕ) (s : RunStore) (current : StoredRun)
    → current_record now id token s ≡ record { store = s; reply = done current }
    → (e : Entry) × (lookup id s.entries ≡ some e) × (e.token ≡ token) × (e.run ≡ current)
unfolding current_record
current_record-found now id token s current h = by_closed s.closed h
  where
    Found : Type 0
    Found = (e : Entry) × (lookup id s.entries ≡ some e) × (e.token ≡ token) × (e.run ≡ current)

    by_entry :
        (o : Option Entry)
        → lookup id s.entries ≡ o
        → current_entry now id s (held token o) ≡ record { store = s; reply = done current }
        → Found
    by_entry none e k = ground arith
    by_entry (some x) e k = elim (Bool-cases (eqb x.token token)) [
      | inr foreign ↦ cc (ap (λ (a : Answer StoredRun). a.reply) (rw (foreign, held) at k))
      | inl own ↦ elim (Bool-cases (leb x.deadline now)) [
        | inl old ↦ cc (ap (λ (a : Answer StoredRun). a.reply) (rw (own, old) at k))
        | inr fresh ↦ (
          x,
          e,
          eqb→eq x.token token own,
          done-injective x.run current
              (ap (λ (a : Answer StoredRun). a.reply) (rw (own, fresh) at k)),
        )
      ]
    ]

    by_closed :
        (b : Bool)
        → (if b
            then record { store = s; reply = failed run_not_found }
            else current_entry now id s (held token (lookup id s.entries)))
          ≡ record { store = s; reply = done current }
        → Found
    by_closed true k = cc (ap (λ (a : Answer StoredRun). a.reply) k)
    by_closed false k = by_entry (lookup id s.entries) refl k

pub IsConsistent-begins :
    (y : System) (now : ℕ) (id : String) (token expected : ℕ) (change : StoredRun → Change)
    (current updated : StoredRun)
    → IsConsistent y
    → elem (tokens y.pending) token ≡ false
    → current_record now id token y.store ≡ record { store = y.store; reply = done current }
    → prepare expected change current ≡ done updated
    → IsConsistent (record y {
      pending =
          (record { run_id = id; token = token; base = current; updated = updated }) ∷ y.pending;
    })
IsConsistent-begins y now id token expected change current updated c free read prepared =
    let (e, found, own, run) = current_record-found now id token y.store current read in
    let (current', changed, this, v, _, made, same, _) =
      prepare-done expected change current updated prepared in
    let these : current ≡ current' = some-injective current current' this in
    let version : updated.version ≡ suc expected = ap (λ (r : StoredRun). r.version) made in
    record {
      unique = c.unique;
      known = c.known;
      locked = ground arith;
      waiting = (
        record {
          issued = let k = c.known id e found in omega arith;
          intact = λ x h t. ap (λ (z : Entry). z.run) (some-injective x e (sym h ∙ found)) ∙ run;
          next_version =
              version ∙ ap suc (sym v) ∙ ap (λ (r : StoredRun). suc r.version) (sym these);
          identity = subst (λ r. same_identity updated r ≡ true) (sym these) same;
        },
        c.waiting,
      );
    }
