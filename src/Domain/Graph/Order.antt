-- ===== src/Domain/Graph/Order.antt =====
-- A search that returns has put every node behind its targets.
use mathlib.Core.Bool.{false≢true}
use policyfuzz.Prelude.{
  String, ℕ, zero, suc, ◌≤◌, ◌<◌, ◌≡◌, true, List, [], ◌∷◌, elem, elem-cons, elem-here, elem-there,
  length, string_eq, Exception, Outcome, ok, if◌then◌else◌, Bool-cases, inl, inr, arith,
  ok-injective, >>=-eq-ok,
}
use policyfuzz.Domain.Graph.Search.{visit_each, visit, visit_all}

-- How deep a node stands in the list, by its last occurrence.
pub rank : List String → String → ℕ
rank [] a = 0
rank (x ∷ xs) a = if elem xs a then rank xs a else suc (length xs)

rank-le : (xs : List String) (a : String) → elem xs a ≡ true → rank xs a ≤ length xs
unfolding rank
rank-le [] a m = omega arith
rank-le (x ∷ xs) a m = ground (arith, rank-le xs a)

module _ (targets : String → List String) where
  -- The targets of each node stand behind it.
  abbrev pub IsOrdered : List String → Type 0
  IsOrdered [] = Unit
  IsOrdered (x ∷ xs) = ((t : String) → elem (targets x) t ≡ true → elem xs t ≡ true) × IsOrdered xs

  pub rank-decreases :
      (xs : List String) (a b : String)
      → IsOrdered xs
      → elem xs a ≡ true
      → elem (targets a) b ≡ true
      → (elem xs b ≡ true) × (rank xs b < rank xs a)
  unfolding rank
  rank-decreases [] a b o m e = absurd (false≢true m)
  rank-decreases (x ∷ xs) a b o m e = elim (Bool-cases (elem xs a)) [
    | inl later ↦
        let (mb, lt) = rank-decreases xs a b o.1 later e in
        (elem-there x b xs mb, rw (later, mb) lt)
    | inr here ↦ elim (elem-cons x a xs m) [
      | inl same ↦
          let mb : elem xs b ≡ true = o.0 b (rw same e) in
          (elem-there x b xs mb, rw (here, mb) (ground (arith, rank-le xs b mb)))
      | inr later ↦ cc
    ]
  ]

  -- What a search from `visited` establishes when it returns `after`, for a set of nodes.
  pub record IsSearched (visited : List String) (after : List String) (found : String → Type 0)
      : Type 0 where
    pub ordered : IsOrdered after
    pub kept : (a : String) → elem visited a ≡ true → elem after a ≡ true
    pub reached : (a : String) → found a → elem after a ≡ true

module _ (targets : String → List String) (cycle : Exception) where
  visit_each-IsSearched :
      (call : List String → String → Outcome (List String))
      → ((visited after : List String) (id : String)
          → call visited id ≡ ok after
          → IsOrdered targets visited
          → IsSearched targets visited after (λ a. id ≡ a))
      → (ts visited after : List String) → visit_each targets cycle call visited ts ≡ ok after
      → IsOrdered targets visited
      → IsSearched targets visited after (λ a. elem ts a ≡ true)
  unfolding visit_each
  visit_each-IsSearched call step [] visited after e o =
      let same = ok-injective visited after e in
      rw (← same) (record { ordered = o; kept = λ a m. m; reached = λ a m. absurd (false≢true m) })
  visit_each-IsSearched call step (t ∷ ts) visited after e o =
      let (middle, first, last) = >>=-eq-ok (call visited t) _ e in
      let one = step visited middle t first o in
      let rest = visit_each-IsSearched call step ts middle after last one.ordered in
      record {
        ordered = rest.ordered;
        kept = λ a m. rest.kept a (one.kept a m);
        reached = λ a m. elim (elem-cons t a ts m) [
          | inl same ↦ rest.kept a (one.reached a same)
          | inr later ↦ rest.reached a later
        ];
      }

  visit-IsSearched :
      (fuel : ℕ) (visiting visited after : List String) (id : String)
      → visit targets cycle fuel visiting visited id ≡ ok after
      → IsOrdered targets visited
      → IsSearched targets visited after (λ a. id ≡ a)
  unfolding visit
  visit-IsSearched zero visiting visited after id e o = cc
  visit-IsSearched (suc fuel) visiting visited after id e o = elim (Bool-cases (elem visiting id)) [
    | inl entered ↦ cc (rw entered at e)
    | inr fresh ↦ elim (Bool-cases (elem visited id)) [
      | inl done ↦
          let same = ok-injective visited after (rw (fresh, done) at e) in
          rw (← same) (record { ordered = o; kept = λ a m. m; reached = λ a s. rw (← s) done })
      | inr new ↦
          let (below, searched, last) =
            >>=-eq-ok
              (visit_each targets cycle (visit targets cycle fuel (id ∷ visiting)) visited
                (targets id))
              _ (rw (fresh, new) at e) in
          let rest =
            visit_each-IsSearched (visit targets cycle fuel (id ∷ visiting))
              (λ v w t. visit-IsSearched fuel (id ∷ visiting) v w t) (targets id) visited below
              searched o in
          rw (← ok-injective (id ∷ below) after last) (record {
            ordered = (rest.reached, rest.ordered);
            kept = λ a m. elem-there id a below (rest.kept a m);
            reached = λ a s. rw (← s) (elem-here id below);
          })
    ]
  ]

  -- A search over all nodes that returns has ordered them: its list holds every node, and behind
  -- each node all of its targets.
  pub visit_all-IsOrdered :
      (fuel : ℕ) (ids after : List String)
      → visit_all targets cycle fuel ids ≡ ok after
      → IsOrdered targets after × ((a : String) → elem ids a ≡ true → elem after a ≡ true)
  unfolding visit_all
  visit_all-IsOrdered fuel ids after e =
      let s =
        visit_each-IsSearched (visit targets cycle fuel [])
          (λ v w t. visit-IsSearched fuel [] v w t) ids [] after e tt in
      (s.ordered, s.reached)
