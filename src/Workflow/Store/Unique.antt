-- ===== src/Workflow/Store/Unique.antt =====
-- The keys of the dictionary stay distinct.
use text.Mathlib.TextEquality.{eq_iff}
use policyfuzz.Prelude.{
  String, ℕ, ◌≡◌, refl, false, not, ◌&&◌, ◌||◌, List, [], ◌∷◌, ◌++◌, elem, has_duplicates, ◌==◌,
  string_eq, arith,
}
use policyfuzz.Workflow.Stages.{StoredRun}
use policyfuzz.Workflow.Store.Entries.{Entry, remove, rewrite, unexpired, keys}

abbrev pub IsUnique : List (String × Entry) → Type 0
IsUnique m = has_duplicates (keys m) ≡ false

pub keys-remove :
    (k id : String) (m : List (String × Entry))
    → elem (keys (remove id m)) k ≡ (not (id == k) && elem (keys m) k)
unfolding remove
keys-remove k id [] = ground arith
keys-remove k id ((j, e) ∷ m) =
    ground (arith, eq_iff j k, eq_iff j id, eq_iff id k, keys-remove k id m)

pub remove-IsUnique :
    (id : String) (m : List (String × Entry)) → IsUnique m → IsUnique (remove id m)
unfolding remove
remove-IsUnique id [] h = refl
remove-IsUnique id ((j, e) ∷ m) h = ground (arith, keys-remove j id m, remove-IsUnique id m)

keys-append :
    (k id : String) (e : Entry) (m : List (String × Entry))
    → elem (keys (m ++ (id, e) ∷ [])) k ≡ (elem (keys m) k || id == k)
keys-append k id e [] = ground arith
keys-append k id e ((j, x) ∷ m) = ground (arith, keys-append k id e m)

append-IsUnique :
    (id : String) (e : Entry) (m : List (String × Entry))
    → IsUnique m
    → elem (keys m) id ≡ false
    → IsUnique (m ++ (id, e) ∷ [])
append-IsUnique id e [] h new = refl
append-IsUnique id e ((j, x) ∷ m) h new =
    ground (arith, keys-append j id e m, eq_iff j id, eq_iff id j, append-IsUnique id e m)

pub replace-IsUnique :
    (id : String) (e : Entry) (m : List (String × Entry))
    → IsUnique m
    → IsUnique (remove id m ++ (id, e) ∷ [])
replace-IsUnique id e m h =
    append-IsUnique id e (remove id m) (remove-IsUnique id m h)
      (ground (arith, keys-remove id id m, eq_iff id id))

keys-rewrite :
    (id : String) (run : StoredRun) (m : List (String × Entry)) → keys (rewrite id run m) ≡ keys m
unfolding rewrite
keys-rewrite id run [] = refl
keys-rewrite id run ((j, e) ∷ m) = ground (arith, keys-rewrite id run m)

pub rewrite-IsUnique :
    (id : String) (run : StoredRun) (m : List (String × Entry))
    → IsUnique m
    → IsUnique (rewrite id run m)
rewrite-IsUnique id run m h = rw (keys-rewrite id run m) h

keys-unexpired :
    (k : String) (now : ℕ) (m : List (String × Entry))
    → elem (keys m) k ≡ false
    → elem (keys (unexpired now m)) k ≡ false
unfolding unexpired
keys-unexpired k now [] h = refl
keys-unexpired k now ((j, e) ∷ m) h = ground (arith, keys-unexpired k now m)

pub unexpired-IsUnique :
    (now : ℕ) (m : List (String × Entry)) → IsUnique m → IsUnique (unexpired now m)
unfolding unexpired
unexpired-IsUnique now [] h = refl
unexpired-IsUnique now ((j, e) ∷ m) h =
    ground (arith, keys-unexpired j now m, unexpired-IsUnique now m)
