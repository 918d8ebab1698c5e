-- ===== src/Evaluation/Resolution/Outcomes.antt =====
-- The status of a dimension against the values that survive.
use policyfuzz.Prelude.{
  ◌≡◌, ◌≢◌, ◌⊎◌, inl, inr, refl, true, false, List, [], ◌∷◌, All, elem, elem-cons, elem-here,
  elem-there, elem-distinct, elem-of_distinct, distinct, has_duplicates, has_duplicates-distinct,
  All-of_elem, none, some, if◌then◌else◌,
}
use policyfuzz.Domain.Vocabulary.{EffectDimension, dimension_eq, EffectStatus}
use policyfuzz.Domain.Rule.{Rule, EffectValue, effect_value_eq}
use policyfuzz.Evaluation.Resolution.Defs.{DimensionResult, effective, settle, resolve_rules}

module _ (dimension : EffectDimension) (required : List EffectDimension) where
  -- What a result says of the surviving values: none is left, all agree on the resolved one, or two
  -- of them differ.
  abbrev pub IsSettled : List EffectValue → DimensionResult → Type 0
  IsSettled vs r =
      ((vs ≡ [])
        × (r.status
            ≡ (if elem required dimension then EffectStatus.gap else EffectStatus.not_applicable))
        × (r.value ≡ none))
      ⊎ (((v : EffectValue) × (elem vs v ≡ true)
            × All (λ w. v ≡ w) vs
            × (r.status ≡ EffectStatus.value)
            × (r.value ≡ some v))
          ⊎ ((v : EffectValue) × (w : EffectValue) × (elem vs v ≡ true)
              × (elem vs w ≡ true)
              × (v ≢ w)
              × (r.status ≡ EffectStatus.conflict)
              × (r.value ≡ none)))

  nil-of_distinct : (vs : List EffectValue) → distinct vs ≡ [] → vs ≡ []
  nil-of_distinct [] e = refl
  nil-of_distinct (v ∷ vs) e =
      let m : elem (distinct (v ∷ vs)) v ≡ true = elem-distinct v (v ∷ vs) (elem-here v vs) in
      cc (rw e at m)

  settle-IsSettled :
      (rules : List Rule) (vs ds : List EffectValue)
      → distinct vs ≡ ds
      → IsSettled vs (settle dimension required rules ds)
  unfolding settle
  settle-IsSettled rules vs [] e = inl (nil-of_distinct vs e, refl, refl)
  settle-IsSettled rules vs (v ∷ []) e = inr (
      inl (
        v,
        member v (elem-here v []),
        All-of_elem (λ w. v ≡ w) vs (λ w m. only w (rw e at (elem-distinct w vs m))),
        refl,
        refl,
      ))
    where
      member : (w : EffectValue) → elem (v ∷ []) w ≡ true → elem vs w ≡ true
      member w m = elem-of_distinct w vs (rw e m)

      only : (w : EffectValue) → elem (v ∷ []) w ≡ true → v ≡ w
      only w m = elim (elem-cons v w [] m) [ inl same ↦ same | inr none_left ↦ cc ]
  settle-IsSettled rules vs (v ∷ w ∷ ds) e = inr (
      inr (
        v,
        w,
        member v (elem-here v (w ∷ ds)),
        member w (elem-there v w (w ∷ ds) (elem-here w ds)),
        (λ same. apart same),
        refl,
        refl,
      ))
    where
      member : (u : EffectValue) → elem (v ∷ w ∷ ds) u ≡ true → elem vs u ≡ true
      member u m = elem-of_distinct u vs (rw e m)

      unique : has_duplicates (v ∷ w ∷ ds) ≡ false
      unique = rw e at (has_duplicates-distinct vs)

      apart : v ≡ w → ⊥
      apart same =
          let m : elem (w ∷ ds) v ≡ true = (rw same (elem-here w ds)) in cc (rw m at unique)

  -- The status and the value that the rules give are decided by the surviving values alone.
  pub resolve_rules-IsSettled :
      (rules : List Rule)
      → IsSettled (effective dimension rules) (resolve_rules dimension required rules)
  unfolding resolve_rules
  resolve_rules-IsSettled rules =
      settle-IsSettled rules (effective dimension rules) (distinct (effective dimension rules)) refl
