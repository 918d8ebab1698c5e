-- ===== src/Workflow/Store/Entries.antt =====
-- The dictionary of entries, in the order of insertion.
use text.Mathlib.TextEquality.{eq_iff}
use policyfuzz.Prelude.{
  String, ℕ, ◌≡◌, refl, false, List, [], ◌∷◌, ◌++◌, map, elem, has_duplicates, ◌==◌, string_eq,
  Option, none, some, if◌then◌else◌, arith, Bool-cases, inl, inr, leb,
}
use policyfuzz.Workflow.Stages.{StoredRun}

-- `_Entry`. The token is the identity of the object, for the tests by `is`; the lock is held by a
-- mutation in progress.
pub record Entry : Type 0 where
  pub token : ℕ
  pub run : StoredRun
  pub deadline : ℕ

-- `entries.get(run_id)`
unfoldable pub lookup : String → List (String × Entry) → Option Entry
lookup id [] = none
lookup id ((j, e) ∷ m) = if j == id then some e else lookup id m

-- `entries.pop(run_id, None)`
unfoldable pub remove : String → List (String × Entry) → List (String × Entry)
remove id [] = []
remove id ((j, e) ∷ m) = if j == id then remove id m else (j, e) ∷ remove id m

-- `entry.record = run`, on the object that stands under the key
unfoldable pub rewrite : String → StoredRun → List (String × Entry) → List (String × Entry)
rewrite id run [] = []
rewrite id run ((j, e) ∷ m) =
    (if j == id then (j, record e { run = run }) else (j, e)) ∷ rewrite id run m

-- The entries whose deadline has not passed
unfoldable pub unexpired : ℕ → List (String × Entry) → List (String × Entry)
unexpired now [] = []
unexpired now ((j, e) ∷ m) =
    if leb e.deadline now then unexpired now m else (j, e) ∷ unexpired now m

abbrev pub keys : List (String × Entry) → List String
keys m = map (λ p. p.0) m

abbrev pub rewritten : StoredRun → Option Entry → Option Entry
rewritten run none = none
rewritten run (some e) = some (record e { run = run })

abbrev pub only_unexpired : ℕ → Option Entry → Option Entry
only_unexpired now none = none
only_unexpired now (some e) = if leb e.deadline now then none else some e

pub lookup-remove :
    (k id : String) (m : List (String × Entry))
    → lookup k (remove id m) ≡ (if id == k then none else lookup k m)
unfolding lookup remove
lookup-remove k id [] = elim (Bool-cases (id == k)) [ inl e ↦ rw e refl | inr n ↦ rw n refl ]
lookup-remove k id ((j, e) ∷ m) =
    ground (arith, eq_iff j k, eq_iff j id, eq_iff id k, lookup-remove k id m)

pub lookup-append :
    (k id : String) (e : Entry) (m : List (String × Entry))
    → lookup k (m ++ (id, e) ∷ [])
      ≡ elim (lookup k m) [ some x ↦ some x | none ↦ if id == k then some e else none ]
unfolding lookup
lookup-append k id e [] = refl
lookup-append k id e ((j, x) ∷ m) = ground (arith, lookup-append k id e m)

pub lookup-rewrite :
    (k id : String) (run : StoredRun) (m : List (String × Entry))
    → lookup k (rewrite id run m) ≡ (if id == k then rewritten run (lookup k m) else lookup k m)
unfolding lookup rewrite
lookup-rewrite k id run [] = elim (Bool-cases (id == k)) [ inl e ↦ rw e refl | inr n ↦ rw n refl ]
lookup-rewrite k id run ((j, e) ∷ m) =
    ground (arith, eq_iff j k, eq_iff j id, eq_iff id k, lookup-rewrite k id run m)

pub lookup-absent :
    (k : String) (m : List (String × Entry)) → elem (keys m) k ≡ false → lookup k m ≡ none
unfolding lookup
lookup-absent k [] h = refl
lookup-absent k ((j, e) ∷ m) h = ground (arith, lookup-absent k m)

pub lookup-unexpired :
    (k : String) (now : ℕ) (m : List (String × Entry))
    → has_duplicates (keys m) ≡ false
    → lookup k (unexpired now m) ≡ only_unexpired now (lookup k m)
unfolding lookup unexpired
lookup-unexpired k now [] h = refl
lookup-unexpired k now ((j, e) ∷ m) h =
    ground (arith, eq_iff j k, lookup-absent k m, lookup-unexpired k now m)
