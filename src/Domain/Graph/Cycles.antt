-- ===== src/Domain/Graph/Cycles.antt =====
-- The search decides whether the graph has a cycle, and has enough fuel.
use mathlib.Core.Bool.{false≢true}
use policyfuzz.Prelude.{
  String, ℕ, zero, suc, ◌≤◌, ◌<◌, ◌≡◌, ◌↔◌, ◌⊎◌, inl, inr, refl, true, false, not, List, [], ◌∷◌,
  All, All-map, All-elem, elem, elem-cons, elem-here, elem-there, keep, length, string_eq,
  Exception, Outcome, ok, raised, Bool-cases, arith, ==_refl,
}
use policyfuzz.Domain.Graph.Search.{visit_each, visit, visit_all}
use policyfuzz.Domain.Graph.Order.{rank, rank-decreases, IsOrdered, visit_all-IsOrdered}

-- A path of at least one edge.
pub data Leads (targets : String → List String) : String → String → Type 0 where
  edge : {a b : String} → elem (targets a) b ≡ true → Leads targets a b
  then_edge : {a b c : String} → Leads targets a b → elem (targets b) c ≡ true → Leads targets a c

-- A graph with more edges has more paths.
pub Leads-mono :
    (small large : String → List String) {a b : String}
    → ((a b : String) → elem (small a) b ≡ true → elem (large a) b ≡ true)
    → Leads small a b
    → Leads large a b
Leads-mono small large more (edge e) = edge (more _ _ e)
Leads-mono small large more (then_edge p e) = then_edge (Leads-mono small large more p) (more _ _ e)

module _ (targets : String → List String) where
  abbrev pub HasCycle : List String → Type 0
  HasCycle ids = (a : String) × (elem ids a ≡ true) × Leads targets a a

  -- Along a path the rank in an ordered list falls.
  rank-Leads :
      (xs : List String) {a b : String}
      → IsOrdered targets xs
      → elem xs a ≡ true
      → Leads targets a b
      → (elem xs b ≡ true) × (rank xs b < rank xs a)
  rank-Leads xs o m (edge e) = rank-decreases targets xs _ _ o m e
  rank-Leads xs o m (then_edge {b = b} {c = c} p e) =
      let (mb, lt) = rank-Leads xs o m p in
      let (mc, lt') = rank-decreases targets xs b c o mb e in (mc, omega arith)

  IsOrdered-acyclic :
      (xs : List String) (a : String)
      → IsOrdered targets xs
      → elem xs a ≡ true
      → ¬ Leads targets a a
  IsOrdered-acyclic xs a o m p = let (ma, lt) = rank-Leads xs o m p in omega arith

-- The nodes that no call in progress has entered.
fresh : List String → List String → ℕ
fresh visiting ids = length (keep (λ i. not (elem visiting i)) ids)

fresh-le :
    (id : String) (visiting ids : List String) → fresh (id ∷ visiting) ids ≤ fresh visiting ids
unfolding fresh
fresh-le id visiting [] = omega arith
fresh-le id visiting (x ∷ xs) = ground (arith, fresh-le id visiting xs)

fresh-nil : (ids : List String) → fresh [] ids ≡ length ids
unfolding fresh
fresh-nil [] = refl
fresh-nil (x ∷ xs) = omega (arith, fresh-nil xs)

fresh-lt :
    (id : String) (visiting ids : List String)
    → elem visiting id ≡ false
    → elem ids id ≡ true
    → fresh (id ∷ visiting) ids < fresh visiting ids
unfolding fresh
fresh-lt id visiting [] new m = absurd (false≢true m)
fresh-lt id visiting (x ∷ xs) new m = elim (elem-cons x id xs m) [
  | inl same ↦ rw (same, new, ==_refl id) (ground (arith, fresh-le id visiting xs))
  | inr later ↦ ground (arith, fresh-lt id visiting xs new later)
]

module _ (targets : String → List String) (cycle : Exception) (ids : List String) where
  -- The search returned, or it raised the error for cycles and there is one.
  abbrev Decides : Outcome (List String) → Type 0
  Decides m = ((after : List String) × (m ≡ ok after)) ⊎ ((m ≡ raised cycle) × HasCycle targets ids)

  visit_each-Decides :
      (call : List String → String → Outcome (List String)) (ts visited : List String)
      → ((visited : List String) (t : String) → elem ts t ≡ true → Decides (call visited t))
      → Decides (visit_each targets cycle call visited ts)
  unfolding visit_each
  visit_each-Decides call [] visited step = inl (visited, refl)
  visit_each-Decides call (t ∷ ts) visited step = elim (step visited t (elem-here t ts)) [
    | inl (middle, e) ↦
        rw e (visit_each-Decides call ts middle (λ v u m. step v u (elem-there t u ts m)))
    | inr (e, found) ↦ inr (rw e, found)
  ]

  module _
      (closed : (a b : String)
        → elem ids a ≡ true
        → elem (targets a) b ≡ true
        → elem ids b ≡ true) where
    visit-Decides :
        (fuel : ℕ) (visiting visited : List String) (id : String)
        → elem ids id ≡ true
        → All (λ v. Leads targets v id) visiting
        → fresh visiting ids < fuel
        → Decides (visit targets cycle fuel visiting visited id)
    unfolding visit
    visit-Decides zero visiting visited id m chain enough = absurd (omega arith)
    visit-Decides (suc fuel) visiting visited id m chain enough =
        elim (Bool-cases (elem visiting id)) [
          | inl entered ↦
              inr
                (rw entered, (id, m, All-elem (λ v. Leads targets v id) visiting chain id entered))
          | inr new ↦ elim (Bool-cases (elem visited id)) [
            | inl done ↦ inl (visited, rw (new, done))
            | inr open_ ↦
                elim (visit_each-Decides (visit targets cycle fuel (id ∷ visiting)) (targets id)
                  visited
                  (λ v t mt.
                    visit-Decides fuel (id ∷ visiting) v t (closed id t m mt)
                      (edge mt, All-map (λ w p. then_edge p mt) visiting chain)
                      (omega (arith, fresh-lt id visiting ids new m)))) [
                        | inl (below, e) ↦ inl (id ∷ below, rw (new, open_, e))
                        | inr (e, found) ↦ inr (rw (new, open_, e), found)
                      ]
          ]
        ]

    -- From one node the search of a graph without cycles returns.
    pub visit-acyclic :
        (fuel : ℕ) (id : String)
        → length ids < fuel
        → elem ids id ≡ true
        → ((a : String) → elem ids a ≡ true → ¬ Leads targets a a)
        → (after : List String) × (visit targets cycle fuel [] [] id ≡ ok after)
    visit-acyclic fuel id enough m acyclic =
        elim (visit-Decides fuel [] [] id m tt (omega (arith, fresh-nil ids))) [
          | inl found ↦ found
          | inr (e, (a, ma, p)) ↦ absurd (acyclic a ma p)
        ]

    -- With more fuel than nodes, in a graph whose edges stay inside the nodes, the search returns
    -- exactly when no node lies on a cycle, and raises the error for cycles otherwise.
    pub visit_all-decides :
        (fuel : ℕ)
        → length ids < fuel
        → (((after : List String) × (visit_all targets cycle fuel ids ≡ ok after))
            ↔ ((a : String) → elem ids a ≡ true → ¬ Leads targets a a))
          × (((after : List String) × (visit_all targets cycle fuel ids ≡ ok after))
              ⊎ ((visit_all targets cycle fuel ids ≡ raised cycle) × HasCycle targets ids))
    unfolding visit_all
    visit_all-decides fuel enough = ((sound, complete decided), decided)
      where
        decided : Decides (visit_all targets cycle fuel ids)
        decided =
            visit_each-Decides (visit targets cycle fuel []) ids []
              (λ v t m. visit-Decides fuel [] v t m tt (omega (arith, fresh-nil ids)))

        sound :
            ((after : List String) × (visit_all targets cycle fuel ids ≡ ok after))
            → (a : String) → elem ids a ≡ true
            → ¬ Leads targets a a
        sound (after, e) a m =
            let (ordered, all_in) = visit_all-IsOrdered targets cycle fuel ids after e in
            IsOrdered-acyclic targets after a ordered (all_in a m)

        complete :
            Decides (visit_all targets cycle fuel ids)
            → ((a : String) → elem ids a ≡ true → ¬ Leads targets a a)
            → (after : List String) × (visit_all targets cycle fuel ids ≡ ok after)
        complete (inl found) acyclic = found
        complete (inr (e, (a, m, p))) acyclic = absurd (acyclic a m p)
