-- ===== src/Datastore/Values.antt =====
-- crates/pahoa-datastore/src/pyvalue.rs: Python's `==` and `<` across JSON's types.
use Prim.Native.Nat.{compare, Ordering}
use Prim.Native.String.{compare as compare_text}
use pahoa.Prelude.{Bool, true, false, ◌&&◌, ◌||◌, Option, none, some, List, [], ◌∷◌, length, eqb}
use pahoa.Prelude.Int.{ℤ, pos}
use pahoa.Prelude.Equality.{◌==◌, int_eq, string_eq}
use pahoa.Prelude.Dict.{lookup}
use pahoa.Json.{
  Value, null, bool, int, real, text, array, object, Items, nil, cons, Fields, end, field,
  items_list, fields_dict,
}
use pahoa.Datastore.Numbers.{Floats, PyNum, int_num, float_num, cmp_nums, cmp_ℤ, to_i64}

abbrev pub is_equal : Option Ordering → Bool
is_equal (some Ordering.eq) = true
is_equal _ = false

abbrev pub bool_int : Bool → ℤ
bool_int true = pos 1
bool_int false = pos 0

abbrev pub pair_of {ℓ} : {A : Type ℓ} → Option A → Option A → Option (A × A)
pair_of (some a) (some b) = some (a, b)
pair_of _ _ = none

abbrev pub is_some_and {ℓ} : {A : Type ℓ} → (A → Bool) → Option A → Bool
is_some_and test none = false
is_some_and test (some a) = test a

module _ {T : Type 0} (fs : Floats T) where
  -- Two ordinary integers, which are compared without building a bignum.
  unfoldable pub small_ints : Value T → Value T → Option (ℤ × ℤ)
  unfolding to_i64
  small_ints (int a) (int b) = pair_of (to_i64 a) (to_i64 b)
  small_ints _ _ = none

  abbrev pub float_of : Option (Floats.Float fs) → Option (PyNum fs)
  float_of none = none
  float_of (some f) = some (float_num f)

  -- A Boolean is an integer.
  unfoldable pub as_num : Value T → Option (PyNum fs)
  as_num (bool b) = some (int_num (bool_int b))
  as_num (int i) = some (int_num i)
  as_num (real t) = float_of (Floats.read fs t)
  as_num _ = none

  -- Where no argument is a list or a dictionary.
  abbrev pub eq_plain : Value T → Value T → Bool
  eq_plain (text a) (text b) = a == b
  eq_plain null null = true
  eq_plain _ _ = false

  abbrev pub eq_by_nums : Option (PyNum fs) → Option (PyNum fs) → Value T → Value T → Bool
  eq_by_nums (some x) (some y) a b = is_equal (cmp_nums fs x y)
  eq_by_nums none none a b = eq_plain a b
  eq_by_nums _ _ a b = false

  abbrev pub eq_by_ints : Option (ℤ × ℤ) → Value T → Value T → Bool
  eq_by_ints (some (x, y)) a b = x == y
  eq_by_ints none a b = eq_by_nums (as_num a) (as_num b) a b

  -- A list and a dictionary are no numbers, so that they are told apart first here.
  unfoldable mutual
    unfolding small_ints as_num cmp_nums items_list fields_dict lookup

    pub py_eq : Value T → Value T → Bool
    py_eq (array xs) (array ys) =
        eqb (length (items_list xs)) (length (items_list ys)) && eq_items xs ys
    py_eq (object xs) (object ys) =
        eqb (length (fields_dict xs)) (length (fields_dict ys)) && eq_fields xs ys
    py_eq a b = eq_by_ints (small_ints a b) a b

    -- The pairs of a `zip`.
    pub eq_items : Items T → Items T → Bool
    eq_items nil ys = true
    eq_items (cons x xs) nil = true
    eq_items (cons x xs) (cons y ys) = py_eq x y && eq_items xs ys

    pub eq_fields : Fields T → Fields T → Bool
    eq_fields end ys = true
    eq_fields (field k v xs) ys =
        is_some_and (py_eq v) (lookup k (fields_dict ys)) && eq_fields xs ys

  abbrev pub cmp_plain : Value T → Value T → Option Ordering
  cmp_plain (text a) (text b) = some (compare_text a b)
  cmp_plain _ _ = none

  abbrev pub cmp_by_nums :
      Option (PyNum fs) → Option (PyNum fs) → Value T → Value T → Option Ordering
  cmp_by_nums (some x) (some y) a b = cmp_nums fs x y
  cmp_by_nums _ _ a b = cmp_plain a b

  abbrev pub cmp_by_ints : Option (ℤ × ℤ) → Value T → Value T → Option Ordering
  cmp_by_ints (some (x, y)) a b = some (cmp_ℤ x y)
  cmp_by_ints none a b = cmp_by_nums (as_num a) (as_num b) a b

  -- The first pair that is not equal decides, and the lengths where there is none.
  abbrev pub or_next : Option Ordering → Option Ordering → Option Ordering
  or_next none next = none
  or_next (some Ordering.eq) next = next
  or_next (some other) next = some other

  unfoldable mutual
    unfolding small_ints as_num cmp_nums cmp_ℤ items_list

    pub py_cmp : Value T → Value T → Option Ordering
    py_cmp (array xs) (array ys) =
        cmp_items xs ys (compare (length (items_list xs)) (length (items_list ys)))
    py_cmp a b = cmp_by_ints (small_ints a b) a b

    pub cmp_items : Items T → Items T → Ordering → Option Ordering
    cmp_items nil ys lengths = some lengths
    cmp_items (cons x xs) nil lengths = some lengths
    cmp_items (cons x xs) (cons y ys) lengths = or_next (py_cmp x y) (cmp_items xs ys lengths)

  unfoldable pub py_contains : List (Value T) → Value T → Bool
  unfolding py_eq
  py_contains [] needle = false
  py_contains (v ∷ vs) needle = py_eq v needle || py_contains vs needle

abbrev pub is_hashable : {T : Type 0} → Value T → Bool
is_hashable (array xs) = false
is_hashable (object fs) = false
is_hashable _ = true
