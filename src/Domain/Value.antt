-- ===== src/Domain/Value.antt =====
-- The Python values that predicates, effects and assertions compare, and the operator table of
-- backend/app/features/evaluation/predicates.py over them.
use text.Mathlib.Text.{find?}
use policyfuzz.Prelude.{
  String, text_lt, Bool, true, false, not, ◌&&◌, List, [], ◌∷◌, any, subset, ◌==◌, string_eq, ℤ,
  pos, ltb_ℤ, leb_ℤ, eqb_ℤ, Outcome, ok, raised, type_error, ◌>>=◌, none, some, if◌then◌else◌,
}
use policyfuzz.Domain.Vocabulary.{
  PredicateOperator, eq, neq, is_in, not_in, lt, lte, gt, gte, contains,
}

-- `str`, `int`, `bool`, a tuple of strings, and a frozenset of strings
pub data Value : Type 0 where
  str : String → Value
  int : ℤ → Value
  bool : Bool → Value
  tuple : List String → Value
  frozenset : List String → Value

-- `bool` is a subclass of `int`: False is 0 and True is 1.
abbrev bool_int : Bool → ℤ
bool_int true = pos 1
bool_int false = pos 0

abbrev list_eq : List String → List String → Bool
list_eq [] [] = true
list_eq (x ∷ xs) (y ∷ ys) = x == y && list_eq xs ys
list_eq _ _ = false

-- `a == b`
abbrev pub py_eq : Value → Value → Bool
py_eq (str a) (str b) = a == b
py_eq (int a) (int b) = eqb_ℤ a b
py_eq (int a) (bool b) = eqb_ℤ a (bool_int b)
py_eq (bool a) (int b) = eqb_ℤ (bool_int a) b
py_eq (bool a) (bool b) = eqb_ℤ (bool_int a) (bool_int b)
py_eq (tuple a) (tuple b) = list_eq a b
py_eq (frozenset a) (frozenset b) = subset a b && subset b a
py_eq _ _ = false

-- Tuples are compared at the first place where they differ.
abbrev list_lt : List String → List String → Bool
list_lt [] [] = false
list_lt [] (y ∷ ys) = true
list_lt (x ∷ xs) [] = false
list_lt (x ∷ xs) (y ∷ ys) = if x == y then list_lt xs ys else text_lt x y

-- `a < b`: on sets it is the proper subset; unlike types raise TypeError.
abbrev pub py_lt : Value → Value → Outcome Bool
py_lt (str a) (str b) = ok (text_lt a b)
py_lt (int a) (int b) = ok (ltb_ℤ a b)
py_lt (int a) (bool b) = ok (ltb_ℤ a (bool_int b))
py_lt (bool a) (int b) = ok (ltb_ℤ (bool_int a) b)
py_lt (bool a) (bool b) = ok (ltb_ℤ (bool_int a) (bool_int b))
py_lt (tuple a) (tuple b) = ok (list_lt a b)
py_lt (frozenset a) (frozenset b) = ok (subset a b && not (subset b a))
py_lt _ _ = raised type_error

-- `a <= b`
abbrev pub py_le : Value → Value → Outcome Bool
py_le (str a) (str b) = ok (not (text_lt b a))
py_le (int a) (int b) = ok (leb_ℤ a b)
py_le (int a) (bool b) = ok (leb_ℤ a (bool_int b))
py_le (bool a) (int b) = ok (leb_ℤ (bool_int a) b)
py_le (bool a) (bool b) = ok (leb_ℤ (bool_int a) (bool_int b))
py_le (tuple a) (tuple b) = ok (not (list_lt b a))
py_le (frozenset a) (frozenset b) = ok (subset a b)
py_le _ _ = raised type_error

abbrev is_str : Value → String → Bool
is_str (str a) b = a == b
is_str _ b = false

-- `item in container`: on a string it is the search for a part, and no number is a container.
abbrev pub py_in : Value → Value → Outcome Bool
py_in (str a) (str b) = ok (elim (find? b a) [ none ↦ false | some i ↦ true ])
py_in a (tuple bs) = ok (any (is_str a) bs)
py_in a (frozenset bs) = ok (any (is_str a) bs)
py_in _ _ = raised type_error

abbrev negated : Outcome Bool → Outcome Bool
negated m = m >>= λ b. ok (not b)

-- `_OPERATORS[operator](actual, expected)`
abbrev pub apply_operator : PredicateOperator → Value → Value → Outcome Bool
apply_operator eq actual expected = ok (py_eq actual expected)
apply_operator neq actual expected = ok (not (py_eq actual expected))
apply_operator lt actual expected = py_lt actual expected
apply_operator lte actual expected = py_le actual expected
apply_operator gt actual expected = py_lt expected actual
apply_operator gte actual expected = py_le expected actual
apply_operator is_in actual expected = py_in actual expected
apply_operator not_in actual expected = negated (py_in actual expected)
apply_operator contains actual expected = py_in expected actual
