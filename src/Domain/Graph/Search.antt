-- ===== src/Domain/Graph/Search.antt =====
-- `visit` with its two sets. The set `visiting` is what the calls in progress have entered; a call
-- that returns has taken its own entry out again, so only `visited` is passed on.
use policyfuzz.Prelude.{
  String, ℕ, zero, suc, List, [], ◌∷◌, elem, string_eq, Exception, recursion_error, Outcome, ok,
  raised, ◌>>=◌, if◌then◌else◌,
}

module _ (targets : String → List String) (cycle : Exception) where
  -- `for target in ts: visit(target)`
  unfoldable pub visit_each :
      (List String → String → Outcome (List String))
      → List String
      → List String
      → Outcome (List String)
  visit_each call visited [] = ok visited
  visit_each call visited (t ∷ ts) = call visited t >>= λ visited'. visit_each call visited' ts

  -- The fuel is Python's recursion limit.
  unfoldable pub visit : ℕ → List String → List String → String → Outcome (List String)
  unfolding visit_each
  visit zero visiting visited id = raised recursion_error
  visit (suc fuel) visiting visited id =
      let rest = visit_each (visit fuel (id ∷ visiting)) visited (targets id) in
      if elem visiting id
      then raised cycle
      else if elem visited id
      then ok visited
      else (rest >>= λ visited'. ok (id ∷ visited'))

  -- `for rule_id in graph: visit(rule_id)`
  unfoldable pub visit_all : ℕ → List String → Outcome (List String)
  unfolding visit
  visit_all fuel ids = visit_each (visit fuel []) [] ids
