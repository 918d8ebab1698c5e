-- ===== src/Domain/Drafts/Parts.antt =====
-- Well-formed rules and unsupported clauses, and the validators of their texts, spans and
-- provenance.
use Prim.Native.String.{count}
use policyfuzz.Prelude.{
  String, ◌≡◌, ◌≢◌, ◌↔◌, ◌≤◌, ◌<◌, refl, Bool, true, false, not, List, [], ◌∷◌, All, All-map, elem,
  has_duplicates, is_empty, leb, ltb, leb→le, le→leb, ltb→lt, string_eq, Outcome, ok, raised,
  require, each_ok, each_ok→All, All→each_ok, ◌>>◌, Option, none, some, arith, ℕ, and_left,
  and_right,
}
use policyfuzz.Domain.Vocabulary.{dimension_eq, field_eq, daily_category_total_minor}
use policyfuzz.Domain.Predicate.{Predicate, typed_predicate}
use policyfuzz.Domain.Digest.{sha256, IsDigest, sha256-IsDigest}
use policyfuzz.Domain.Rule.{
  Rule, SourceSpan, RuleProvenance, text_citation, session_revision, dimensions, repeats,
  UnsupportedClause, validate_effect_value,
}
use policyfuzz.Domain.Drafts.{
  identifier, nonempty_text, optional_text, validate_span, validate_provenance, percentage,
  reason_codes,
}

-- A text of 1 to 200 characters
abbrev pub IsIdentifier : String → Type 0
IsIdentifier s = (1 ≤ count s) × (count s ≤ 200)

pub record IsSpan (s : SourceSpan) : Type 0 where
  pub paged : 1 ≤ s.page
  pub quoted : 1 ≤ count s.quote
  pub hashed : IsDigest s.quote_sha256
  pub titled : (t : String) → s.section ≡ some t → 1 ≤ count t
  pub ordered : s.start < s.end

abbrev pub IsProvenance : RuleProvenance → Type 0
IsProvenance (text_citation citation_id span) = IsIdentifier citation_id × IsSpan span
IsProvenance (session_revision proposal_id operation_index confirmed_at citation_ids) =
    IsIdentifier proposal_id
    × (operation_index ≤ 2)
    × All IsIdentifier citation_ids
    × (citation_ids ≢ [])

abbrev pub IsStored : Predicate → Type 0
IsStored p = (typed_predicate p ≡ ok tt) × (p.field ≢ daily_category_total_minor)

-- A rule with effects of its own dimensions, each once, conditions on stored facts and overrides in
-- the dimensions that it supplies
pub record IsRule (r : Rule) : Type 0 where
  pub described : 1 ≤ count r.description
  pub conditions : All IsStored r.when
  pub effective : r.effects ≢ []
  pub valued : All (λ e. validate_effect_value e.dimension e.value ≡ ok tt) r.effects
  pub single : has_duplicates (dimensions r.effects) ≡ false
  pub targeted : All (λ e. IsIdentifier e.target_rule_id) r.overrides
  pub supplied : All (λ e. elem (dimensions r.effects) e.dimension ≡ true) r.overrides
  pub unrepeated : repeats r.overrides ≡ false
  pub cited : IsProvenance r.provenance
  pub confident : (n : ℕ) → r.confidence_percent ≡ some n → n ≤ 100
  pub named : IsIdentifier r.rule_id

pub record IsClause (c : UnsupportedClause) : Type 0 where
  pub named : IsIdentifier c.clause_id
  pub located : IsSpan c.span
  pub reasoned : elem reason_codes c.reason_code ≡ true
  pub affecting : c.affected_dimensions ≢ []
  pub hinted : (hint : List Predicate) → c.when_hint ≡ some hint → All IsStored hint

pub both : (a b : Outcome (Unit {0})) → (a >> b) ≡ ok tt → (a ≡ ok tt) × (b ≡ ok tt)
both (ok tt) b h = (refl, h)
both (raised e) b h = cc

pub required : (b : Bool) (message : String) → require b message ≡ ok tt → b ≡ true
required true message h = refl
required false message h = cc

pub cleared : (b : Bool) → not b ≡ true → b ≡ false
cleared true h = cc
cleared false h = refl

pub nonempty_iff {ℓ} : {A : Type ℓ} (xs : List A) → (not (is_empty xs) ≡ true) ↔ (xs ≢ [])
nonempty_iff [] = (λ h e. cc, λ n. absurd (n refl))
nonempty_iff (x ∷ xs) = (λ h e. cc, λ n. refl)

pub nonempty_text_iff : (s : String) → (nonempty_text s ≡ ok tt) ↔ (1 ≤ count s)
nonempty_text_iff s = (λ h. leb→le 1 (count s) (required _ _ h), λ h. rw (le→leb 1 (count s) h))

pub identifier_iff : (s : String) → (identifier s ≡ ok tt) ↔ IsIdentifier s
identifier_iff s = (
  λ h.
      let e = required _ _ h in
      (
        leb→le 1 (count s) (and_left (leb 1 (count s)) (leb (count s) 200) e),
        leb→le (count s) 200 (and_right (leb 1 (count s)) (leb (count s) 200) e),
      ),
  λ (low, high). rw (le→leb 1 (count s) low, le→leb (count s) 200 high),
)

pub optional_text_iff :
    (o : Option String) → (optional_text o ≡ ok tt) ↔ ((t : String) → o ≡ some t → 1 ≤ count t)
optional_text_iff none = (λ h t e. cc, λ h. refl)
optional_text_iff (some s) = (
  λ h t e. let n = (nonempty_text_iff s).0 h in ground arith,
  λ h. (nonempty_text_iff s).1 (h s refl),
)

pub percentage_iff : (o : Option ℕ) → (percentage o ≡ ok tt) ↔ ((n : ℕ) → o ≡ some n → n ≤ 100)
percentage_iff none = (λ h n e. cc, λ h. refl)
percentage_iff (some k) = (
  λ h n e. let l = leb→le k 100 (required _ _ h) in ground arith,
  λ h. rw (le→leb k 100 (h k refl)),
)

pub validate_span-exact : (s : SourceSpan) → (validate_span s ≡ ok tt) ↔ IsSpan s
unfolding validate_span
validate_span-exact s = (
  λ h.
      let (paged, h1) = both (require (leb 1 s.page) _) _ h in
      let (quoted, h2) = both (nonempty_text s.quote) _ h1 in
      let (hashed, h3) = both (sha256 s.quote_sha256) _ h2 in
      let (titled, h4) = both (optional_text s.section) _ h3 in
      record {
        paged = leb→le 1 s.page (required _ _ paged);
        quoted = (nonempty_text_iff s.quote).0 quoted;
        hashed = (sha256-IsDigest s.quote_sha256).0 hashed;
        titled = (optional_text_iff s.section).0 titled;
        ordered = ltb→lt s.start s.end (required _ _ h4);
      },
  λ v.
      rw
        (
          le→leb 1 s.page v.paged,
          (nonempty_text_iff s.quote).1 v.quoted,
          (sha256-IsDigest s.quote_sha256).1 v.hashed,
          (optional_text_iff s.section).1 v.titled,
          lt→ltb s.start s.end v.ordered,
        )
        refl,
)
  where
    lt→ltb : (a b : ℕ) → a < b → ltb a b ≡ true
    lt→ltb a b h = ground arith

pub each_iff {κ ℓ} :
    {A : Type ℓ} {P : A → Type κ} (f : A → Outcome (Unit {0}))
    → ((x : A) → (f x ≡ ok tt) ↔ P x)
    → (xs : List A) → (each_ok f xs ≡ ok tt) ↔ All P xs
each_iff f h xs = (
  λ e. All-map (λ x. (h x).0) xs (each_ok→All f xs e),
  λ a. All→each_ok f xs (All-map (λ x. (h x).1) xs a),
)

pub validate_provenance-exact :
    (p : RuleProvenance) → (validate_provenance p ≡ ok tt) ↔ IsProvenance p
unfolding validate_provenance
validate_provenance-exact (text_citation c span) = (
  λ h.
      let (named, h1) = both (identifier c) _ h in
      ((identifier_iff c).0 named, (validate_span-exact span).0 h1),
  λ (named, located). rw ((identifier_iff c).1 named, (validate_span-exact span).1 located) refl,
)
validate_provenance-exact (session_revision p i t cs) = (
  λ h.
      let (named, h1) = both (identifier p) _ h in
      let (indexed, h2) = both (require (leb i 2) _) _ h1 in
      let (cited, h3) = both (each_ok identifier cs) _ h2 in
      (
        (identifier_iff p).0 named,
        leb→le i 2 (required _ _ indexed),
        (each_iff identifier identifier_iff cs).0 cited,
        (nonempty_iff cs).0 (required _ _ h3),
      ),
  λ (named, indexed, cited, some_citation).
      rw
        (
          (identifier_iff p).1 named,
          le→leb i 2 indexed,
          (each_iff identifier identifier_iff cs).1 cited,
          (nonempty_iff cs).1 some_citation,
        )
        refl,
)
