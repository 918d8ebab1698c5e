-- ===== src/Workflow/Store/Growth.antt =====
-- The sections that put no new run into an entry that stands.
use policyfuzz.Prelude.{
  String, ℕ, ◌≤◌, ◌<◌, ◌≡◌, ◌⊎◌, inl, inr, refl, Bool, true, false, All-map, string_eq, nat_eq,
  Option, none, some, Bool-cases, if◌then◌else◌, leb, arith,
}
use policyfuzz.Workflow.Stages.{StoredRun}
use policyfuzz.Workflow.Store.Entries.{
  Entry, lookup, remove, lookup-remove, lookup-append, lookup-unexpired,
}
use policyfuzz.Workflow.Store.Defs.{
  RunStore, Answer, create, refuses, stored_entry, stamped, held, current_record, current_entry,
  delete, delete_entry, purge_expired, aclose,
}
use policyfuzz.Workflow.Store.Unique.{
  IsUnique, remove-IsUnique, replace-IsUnique, unexpired-IsUnique,
}
use policyfuzz.Workflow.Store.Steps.{Pending, System, IsWaiting, IsConsistent}

-- The runs of old entries stay, and new entries have new tokens.
pub record Grows (s s' : RunStore) : Type 0 where
  pub unique : IsUnique s'.entries
  pub later : s.next_token ≤ s'.next_token
  pub origin :
      (id : String) (e : Entry)
      → lookup id s'.entries ≡ some e
      → (lookup id s.entries ≡ some e) ⊎ ((s.next_token ≤ e.token) × (e.token < s'.next_token))

pub Grows-refl : (s : RunStore) → IsUnique s.entries → Grows s s
Grows-refl s u = record { unique = u; later = omega arith; origin = λ id e h. inl h }

pub Grows-remove :
    (s : RunStore) (id : String)
    → IsUnique s.entries
    → Grows s (record s { entries = remove id s.entries })
Grows-remove s id u = record {
  unique = remove-IsUnique id s.entries u;
  later = omega arith;
  origin = λ k e h. inl (ground (arith, lookup-remove k id s.entries));
}

pub Grows-create :
    (wall_now now : ℕ) (run : StoredRun) (s : RunStore)
    → IsUnique s.entries
    → Grows s (create wall_now now run s).store
unfolding create
Grows-create wall_now now run s u = elim (Bool-cases (refuses wall_now now run s)) [
  | inl refused ↦ rw refused (Grows-refl s u)
  | inr accepted ↦ rw accepted (record {
    unique = replace-IsUnique run.run_id _ s.entries u;
    later = omega arith;
    origin = λ k e h. ground (
      arith,
      lookup-append k run.run_id (stored_entry s now (stamped wall_now run s))
          (remove run.run_id s.entries),
      lookup-remove k run.run_id s.entries,
    );
  })
]

pub Grows-if {ℓ} :
    {A : Type ℓ} (s : RunStore) (b : Bool) (x y : Answer A)
    → Grows s x.store
    → Grows s y.store
    → Grows s (if b then x else y).store
Grows-if s true x y g h = g
Grows-if s false x y g h = h

Grows-current_entry :
    (now : ℕ) (id : String) (s : RunStore) (e : Option Entry)
    → IsUnique s.entries
    → Grows s (current_entry now id s e).store
Grows-current_entry now id s none u = Grows-refl s u
Grows-current_entry now id s (some e) u =
    Grows-if s (leb e.deadline now) _ _ (Grows-remove s id u) (Grows-refl s u)

pub Grows-current_record :
    (now : ℕ) (id : String) (token : ℕ) (s : RunStore)
    → IsUnique s.entries
    → Grows s (current_record now id token s).store
unfolding current_record
Grows-current_record now id token s u =
    Grows-if s s.closed _ _ (Grows-refl s u)
      (Grows-current_entry now id s (held token (lookup id s.entries)) u)

Grows-delete_entry :
    (id : String) (s : RunStore) (e : Option Entry)
    → IsUnique s.entries
    → Grows s (delete_entry id s e).store
Grows-delete_entry id s none u = Grows-refl s u
Grows-delete_entry id s (some e) u = Grows-remove s id u

pub Grows-delete : (id : String) (s : RunStore) → IsUnique s.entries → Grows s (delete id s).store
unfolding delete
Grows-delete id s u =
    Grows-if s s.closed _ _ (Grows-refl s u) (Grows-delete_entry id s (lookup id s.entries) u)

pub Grows-purge_expired :
    (now : ℕ) (s : RunStore) → IsUnique s.entries → Grows s (purge_expired now s).store
unfolding purge_expired
Grows-purge_expired now s u = Grows-if s s.closed _ _ (Grows-refl s u) (record {
  unique = unexpired-IsUnique now s.entries u;
  later = omega arith;
  origin = λ k e h. inl (ground (arith, lookup-unexpired k now s.entries u));
})

pub Grows-aclose : (s : RunStore) → Grows s (aclose s)
unfolding aclose
Grows-aclose s = record {
  unique = refl;
  later = omega arith;
  origin = λ k e h. unfold lookup in cc;
}

pub IsWaiting-Grows : (s s' : RunStore) (p : Pending) → Grows s s' → IsWaiting s p → IsWaiting s' p
IsWaiting-Grows s s' p g w = record {
  issued = let i = w.issued in let l = g.later in omega arith;
  intact = λ e found same. elim (g.origin p.run_id e found) [
    | inl old ↦ w.intact e old same
    | inr (new, _) ↦ let i = w.issued in absurd (omega arith)
  ];
  next_version = w.next_version;
  identity = w.identity;
}

-- A section that puts no new run into an old entry keeps the system consistent.
pub IsConsistent-Grows :
    (y : System) (s : RunStore)
    → Grows y.store s
    → IsConsistent y
    → IsConsistent (record y { store = s })
IsConsistent-Grows y s g c = record {
  unique = g.unique;
  known = λ id e found. elim (g.origin id e found) [
    | inl old ↦ let k = c.known id e old in let l = g.later in omega arith
    | inr (_, new) ↦ new
  ];
  locked = c.locked;
  waiting = All-map (λ p w. IsWaiting-Grows y.store s p g w) y.pending c.waiting;
}
