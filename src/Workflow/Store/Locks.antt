-- ===== src/Workflow/Store/Locks.antt =====
-- The locks that mutations hold.
use policyfuzz.Prelude.{
  ℕ, ◌≡◌, ◌≢◌, inl, inr, refl, subst, false, List, [], ◌∷◌, All, elem, has_duplicates, ◌==◌,
  string_eq, nat_eq, some, Bool-cases, ==→eq, arith,
}
use policyfuzz.Workflow.Store.Steps.{Pending, tokens, find_pending, release}

pub find_pending-All {κ} :
    (P : Pending → Type κ) (token : ℕ) (ps : List Pending) (p : Pending)
    → All P ps
    → find_pending token ps ≡ some p
    → P p × (p.token ≡ token)
unfolding find_pending
find_pending-All P token [] p h e = cc
find_pending-All P token (q ∷ qs) p h e = elim (Bool-cases (q.token == token)) [
  | inl same ↦
      let found : q ≡ p = some-injective q p (rw (same, find_pending) at e) in
      (
        subst P found (h.0),
        subst (λ (x : Pending). x.token ≡ token) found (==→eq q.token token same),
      )
  | inr other ↦ find_pending-All P token qs p h.1 (rw (other, find_pending) at e)
]
  where
    some-injective : (a b : Pending) → some a ≡ some b → a ≡ b
    some-injective a b h = cc

-- After the release of a lock no other mutation has it.
abbrev pub IsFree : ℕ → Pending → Type 0
IsFree token p = p.token ≢ token

tokens-IsFree :
    (token : ℕ) (ps : List Pending) → elem (tokens ps) token ≡ false → All (IsFree token) ps
tokens-IsFree token [] h = tt
tokens-IsFree token (p ∷ ps) h = (λ e. ground arith, tokens-IsFree token ps (ground arith))

tokens-release :
    (token other : ℕ) (ps : List Pending)
    → elem (tokens ps) other ≡ false
    → elem (tokens (release token ps)) other ≡ false
unfolding release
tokens-release token other [] h = refl
tokens-release token other (p ∷ ps) h = ground (arith, tokens-release token other ps)

pub release-locked :
    (token : ℕ) (ps : List Pending)
    → has_duplicates (tokens ps) ≡ false
    → has_duplicates (tokens (release token ps)) ≡ false
unfolding release
release-locked token [] h = refl
release-locked token (p ∷ ps) h =
    ground (arith, tokens-release token p.token ps, release-locked token ps)

pub release-All {κ} :
    (P : Pending → Type κ) (token : ℕ) (ps : List Pending) → All P ps → All P (release token ps)
unfolding release
release-All P token [] h = tt
release-All P token (p ∷ ps) h = elim (Bool-cases (p.token == token)) [
  | inl same ↦ rw same h.1
  | inr other ↦ rw other (h.0, release-All P token ps h.1)
]

pub release-IsFree :
    (token : ℕ) (ps : List Pending)
    → has_duplicates (tokens ps) ≡ false
    → All (IsFree token) (release token ps)
unfolding release
release-IsFree token [] h = tt
release-IsFree token (p ∷ ps) h = elim (Bool-cases (p.token == token)) [
  | inl same ↦
      let here : p.token ≡ token = ==→eq p.token token same in
      let fresh : elem (tokens ps) p.token ≡ false = ground arith in
      rw same (tokens-IsFree token ps (subst (λ t. elem (tokens ps) t ≡ false) here fresh))
  | inr other ↦ rw other ((λ e. ground arith), release-IsFree token ps (ground arith))
]
