-- ===== src/Prelude/Loops.antt =====
-- Loops over a list with a state, whose body may raise.
use mathlib.Core.Path.{◌≡◌, subst}
use mathlib.Core.List.{List, [], ◌∷◌}
use policyfuzz.Prelude.Exceptions.{Outcome, ok, ◌>>=◌, >>=-eq-ok, ok-injective}

module _ {ℓ κ} {S : Type ℓ} {A : Type κ} where
  abbrev pub fold_ok : (S → A → Outcome S) → List A → S → Outcome S
  fold_ok f [] s = ok s
  fold_ok f (x ∷ xs) s = f s x >>= λ t. fold_ok f xs t

  -- What each step keeps, the loop keeps.
  pub fold_ok-keeps {μ} :
      (P : S → Type μ) (f : S → A → Outcome S)
      → ((s t : S) (x : A) → f s x ≡ ok t → P s → P t)
      → (xs : List A) (s t : S) → fold_ok f xs s ≡ ok t
      → P s
      → P t
  fold_ok-keeps P f step [] s t h p = subst P (ok-injective s t h) p
  fold_ok-keeps P f step (x ∷ xs) s t h p =
      let (u, first, rest) = >>=-eq-ok (f s x) _ h in
      fold_ok-keeps P f step xs u t rest (step s u x first p)
