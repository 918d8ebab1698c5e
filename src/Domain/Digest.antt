-- ===== src/Domain/Digest.antt =====
-- `Sha256` of backend/app/domain/models/common.py: a text of 64 hexadecimal digits in lower case.
use Prim.Native.Char.{Char, code}
use Prim.Native.String.{String, [], ◌∷◌, count}
use policyfuzz.Prelude.{
  ℕ, ◌≡◌, ◌≤◌, ◌↔◌, ◌⊎◌, inl, inr, refl, Bool, true, false, ◌&&◌, ◌||◌, leb, leb→le, le→leb,
  and_left, and_right, and_intro, or_cases, or_left, or_right, eqb, eqb→eq, eqb_iff, Outcome, ok,
  require,
}

-- The code of the character lies between two bounds.
abbrev pub between : ℕ → ℕ → Char → Bool
between low high c = leb low (code c) && leb (code c) high

-- `[0-9a-f]`
abbrev pub is_hex : Char → Bool
is_hex c = between 48 57 c || between 97 102 c

unfoldable pub hex_text : String → Bool
hex_text [] = true
hex_text (c ∷ s) = is_hex c && hex_text s

abbrev pub sha256 : String → Outcome (Unit {0})
sha256 s = require (eqb (count s) 64 && hex_text s) "string should match the pattern of a digest"

abbrev pub IsHexDigit : Char → Type 0
IsHexDigit c = ((48 ≤ code c) × (code c ≤ 57)) ⊎ ((97 ≤ code c) × (code c ≤ 102))

abbrev pub AllHexDigits : String → Type 0
AllHexDigits [] = Unit
AllHexDigits (c ∷ s) = IsHexDigit c × AllHexDigits s

abbrev pub IsDigest : String → Type 0
IsDigest s = (count s ≡ 64) × AllHexDigits s

between_iff :
    (low high : ℕ) (c : Char) → (between low high c ≡ true) ↔ ((low ≤ code c) × (code c ≤ high))
between_iff low high c = (
  λ h. (
    leb→le low (code c) (and_left (leb low (code c)) (leb (code c) high) h),
    leb→le (code c) high (and_right (leb low (code c)) (leb (code c) high) h),
  ),
  λ (l, u). and_intro _ _ (le→leb low (code c) l) (le→leb (code c) high u),
)

is_hex-IsHexDigit : (c : Char) → (is_hex c ≡ true) ↔ IsHexDigit c
is_hex-IsHexDigit c = (
  λ h. elim (or_cases (between 48 57 c) (between 97 102 c) h) [
    | inl digit ↦ inl ((between_iff 48 57 c).0 digit)
    | inr letter ↦ inr ((between_iff 97 102 c).0 letter)
  ],
  λ h. elim h [
    | inl digit ↦ or_left (between 48 57 c) (between 97 102 c) ((between_iff 48 57 c).1 digit)
    | inr letter ↦ or_right (between 48 57 c) (between 97 102 c) ((between_iff 97 102 c).1 letter)
  ],
)

hex_text-AllHexDigits : (s : String) → (hex_text s ≡ true) ↔ AllHexDigits s
unfolding hex_text
hex_text-AllHexDigits [] = (λ h. tt, λ h. refl)
hex_text-AllHexDigits (c ∷ s) =
    let one = is_hex-IsHexDigit c in
    let rest = hex_text-AllHexDigits s in
    (
      λ h. (
        one.0 (and_left (is_hex c) (hex_text s) h),
        rest.0 (and_right (is_hex c) (hex_text s) h),
      ),
      λ (h, hs). and_intro _ _ (one.1 h) (rest.1 hs),
    )

required : (b : Bool) (message : String) → require b message ≡ ok tt → b ≡ true
required true message h = refl
required false message h = cc

pub sha256-IsDigest : (s : String) → (sha256 s ≡ ok tt) ↔ IsDigest s
sha256-IsDigest s = (
  λ h.
      let e = required (eqb (count s) 64 && hex_text s) _ h in
      (
        eqb→eq (count s) 64 (and_left (eqb (count s) 64) (hex_text s) e),
        (hex_text-AllHexDigits s).0 (and_right (eqb (count s) 64) (hex_text s) e),
      ),
  λ (n, h). rw ((eqb_iff (count s) 64).1 n, (hex_text-AllHexDigits s).1 h) refl,
)
