-- ===== src/Evaluation/Resolution/Typed.antt =====
-- The results that resolution builds pass the validator `typed_resolution`.
use policyfuzz.Prelude.{
  ◌≡◌, ◌≢◌, refl, sym, ◌∙◌, All-elem, Bool, true, false, List, [], ◌∷◌, ◌++◌, All, All-of_elem,
  All→each_ok, each_ok, map, keep, elem, elem-cons, elem-here, elem-there, elem-distinct,
  elem-of_distinct, distinct, has_duplicates, has_duplicates-distinct, length, leb, ok, Bool-cases,
  inl, inr, decide, ◌==◌, ==→eq, String, string_eq, arith,
}
use policyfuzz.Domain.Vocabulary.{EffectDimension, dimension_eq, EffectStatus-discrete}
use policyfuzz.Domain.Rule.{Rule, Effect, EffectValue, effect_value_eq, validate_effect_value}
use policyfuzz.Domain.Drafts.Parts.{IsRule}
use policyfuzz.Evaluation.Resolution.Defs.{
  typed_resolution, values_of, all_values, effective, value_lt, place_value, sorted_values,
  inconclusive, settle, resolve_rules,
}

-- A list with two different elements has two at least.
two_distinct :
    (v w : EffectValue) (ds : List EffectValue)
    → v ≢ w
    → elem ds v ≡ true
    → elem ds w ≡ true
    → leb 2 (length ds) ≡ true
two_distinct v w [] n mv mw = cc
two_distinct v w (d ∷ []) n mv mw = elim (elem-cons d v [] mv) [
  | inr none_left ↦ cc
  | inl first ↦ elim (elem-cons d w [] mw) [
    | inr none_left ↦ cc
    | inl second ↦ absurd (n (sym first ∙ second))
  ]
]
two_distinct v w (d ∷ e ∷ ds) n mv mw = ground arith

module _ (dimension : EffectDimension) where
  abbrev pub IsValued : List EffectValue → Type 0
  IsValued vs = All (λ v. validate_effect_value dimension v ≡ ok tt) vs

  place_value-elem :
      (a v : EffectValue) (vs : List EffectValue)
      → elem (v ∷ vs) a ≡ true
      → elem (place_value dimension v vs) a ≡ true
  place_value-elem a v [] h = h
  place_value-elem a v (w ∷ ws) h = elim (Bool-cases (value_lt dimension w v)) [
    | inr first ↦ rw first h
    | inl later ↦ rw later (elim (elem-cons v a (w ∷ ws) h) [
      | inl same ↦
          elem-there w a (place_value dimension v ws)
            (place_value-elem a v ws (rw same (elem-here a ws)))
      | inr there ↦ elim (elem-cons w a ws there) [
        | inl same ↦ rw same (elem-here a (place_value dimension v ws))
        | inr rest ↦
            elem-there w a (place_value dimension v ws)
              (place_value-elem a v ws (elem-there v a ws rest))
      ]
    ])
  ]

  sorted_values-elem :
      (a : EffectValue) (vs : List EffectValue)
      → elem vs a ≡ true
      → elem (sorted_values dimension vs) a ≡ true
  sorted_values-elem a [] h = h
  sorted_values-elem a (v ∷ vs) h =
      place_value-elem a v (sorted_values dimension vs) (elim (elem-cons v a vs h) [
        | inl same ↦ rw same (elem-here a (sorted_values dimension vs))
        | inr there ↦ elem-there v a (sorted_values dimension vs) (sorted_values-elem a vs there)
      ])

  place_value-IsValued :
      (v : EffectValue) (vs : List EffectValue)
      → IsValued (v ∷ vs)
      → IsValued (place_value dimension v vs)
  place_value-IsValued v [] h = h
  place_value-IsValued v (w ∷ ws) (hv, (hw, hs)) = elim (Bool-cases (value_lt dimension w v)) [
    | inr first ↦ rw first (hv, (hw, hs))
    | inl later ↦ rw later (hw, place_value-IsValued v ws (hv, hs))
  ]

  sorted_values-IsValued :
      (vs : List EffectValue) → IsValued vs → IsValued (sorted_values dimension vs)
  sorted_values-IsValued [] h = tt
  sorted_values-IsValued (v ∷ vs) h =
      place_value-IsValued v (sorted_values dimension vs) (h.0, sorted_values-IsValued vs h.1)

  -- Without values, with one and with several different ones.
  settle-typed :
      (required : List EffectDimension) (rules : List Rule) (ds : List EffectValue)
      → has_duplicates ds ≡ false
      → IsValued ds
      → typed_resolution (settle dimension required rules ds) ≡ ok tt
  unfolding settle typed_resolution EffectStatus-discrete decide
  settle-typed required rules [] u h = elim (Bool-cases (elem required dimension)) [
    | inl needed ↦ rw needed refl
    | inr optional ↦ rw optional refl
  ]
  settle-typed required rules (v ∷ []) u h = rw h.0 refl
  settle-typed required rules (v ∷ w ∷ ds) u h =
      let vs = sorted_values dimension (v ∷ w ∷ ds) in
      let each : each_ok (validate_effect_value dimension) vs ≡ ok tt =
        All→each_ok (validate_effect_value dimension) vs (sorted_values-IsValued (v ∷ w ∷ ds) h) in
      let apart : v ≢ w =
        λ same. let m : elem (w ∷ ds) v ≡ true = (rw same (elem-here w ds)) in cc (rw m at u) in
      let several : leb 2 (length (distinct vs)) ≡ true =
        two_distinct v w (distinct vs) apart
          (elem-distinct v vs (sorted_values-elem v (v ∷ w ∷ ds) (elem-here v (w ∷ ds))))
          (elem-distinct w vs
            (sorted_values-elem w (v ∷ w ∷ ds) (elem-there v w (w ∷ ds) (elem-here w ds)))) in
      rw (each, several) refl

  append-IsValued : (xs ys : List EffectValue) → IsValued xs → IsValued ys → IsValued (xs ++ ys)
  append-IsValued [] ys hx hy = hy
  append-IsValued (x ∷ xs) ys hx hy = (hx.0, append-IsValued xs ys hx.1 hy)

  effects-IsValued :
      (es : List Effect)
      → All (λ e. validate_effect_value e.dimension e.value ≡ ok tt) es
      → IsValued (map (λ e. e.value) (keep (λ e. e.dimension == dimension) es))
  effects-IsValued [] h = tt
  effects-IsValued (e ∷ es) h = elim (Bool-cases (e.dimension == dimension)) [
    | inl same ↦ rw same (rw (==→eq e.dimension dimension same) at h.0, effects-IsValued es h.1)
    | inr other ↦ rw other (effects-IsValued es h.1)
  ]

  values-IsValued :
      (p : Rule → Bool) (rules : List Rule)
      → All IsRule rules
      → IsValued (all_values dimension (keep p rules))
  values-IsValued p [] h = tt
  values-IsValued p (r ∷ rs) (v, vs) = elim (Bool-cases (p r)) [
    | inl kept ↦ rw kept (
        append-IsValued (values_of dimension r) (all_values dimension (keep p rs))
          (effects-IsValued r.effects v.valued) (values-IsValued p rs vs))
    | inr dropped ↦ rw dropped (values-IsValued p rs vs)
  ]

  distinct-IsValued : (vs : List EffectValue) → IsValued vs → IsValued (distinct vs)
  distinct-IsValued vs h = All-of_elem _ (distinct vs) (λ v m.
      All-elem (λ w. validate_effect_value dimension w ≡ ok tt) vs h v (elem-of_distinct v vs m))

  pub resolve_rules-typed :
      (required : List EffectDimension) (rules : List Rule)
      → All IsRule rules
      → typed_resolution (resolve_rules dimension required rules) ≡ ok tt
  unfolding resolve_rules
  resolve_rules-typed required rules h =
      settle-typed required rules (distinct (effective dimension rules))
        (has_duplicates-distinct (effective dimension rules))
        (distinct-IsValued (effective dimension rules) (values-IsValued _ rules h))

  pub inconclusive-typed :
      (ids : List String) → typed_resolution (inconclusive dimension ids) ≡ ok tt
  unfolding typed_resolution EffectStatus-discrete decide
  inconclusive-typed ids = refl
