-- ===== src/Datastore/Tests.antt =====
-- The operations of the data storage at a few values, with whole numbers for floats.
use Prim.Native.Nat.{bit_and, bit_or, bit_xor}
use Prim.Native.String.{String}
use pahoa.Prelude.{ℕ, ◌≤◌, true, false, some, List, [], ◌∷◌, ◌++◌, ◌≡◌, refl, arith}
use pahoa.Prelude.Int.{ℤ, pos, negsuc, ◌+ℤ◌, ◌-ℤ◌, ◌*ℤ◌, eqb_ℤ, ltb_ℤ}
use pahoa.Prelude.Result.{ok, err}
use pahoa.Json.{
  Value, null, bool, int, real, text, array_of, object_of, items_list, list_items, fields_dict,
  dict_fields,
}
use pahoa.Datastore.Numbers.{Floats, cmp_ℤ, bits, floor_mod_big, rem_ℤ, to_i64}
use pahoa.Datastore.Values.{py_eq, py_contains, as_num}
use pahoa.Datastore.Arith.{
  OpError, type_error, integer_too_wide, max_int_bits, int_value, need_nums,
}
use pahoa.Datastore.Ops.{Bitwise, apply, apply_each, apply_all}
use pahoa.Datastore.Containers.{update}
use pahoa.Datastore.Width.{apply-bits}
use pahoa.Datastore.Sequence.{FailsAt, apply_all-FailsAt}
use pahoa.Datastore.Update.{missing_from, update-array}
use pahoa.Datastore.FloorMod.{IsRemainder, floor_mod_big-IsRemainder}
use pahoa.Datastore.Shortcut.{plain_eq, py_eq-plain_eq}

abbrev whole_floats : Floats ℤ
whole_floats = record {
  Float = ℤ;
  read = λ t. some t;
  write = λ f. some f;
  of_int = λ i. some i;
  whole = λ f. some f;
  is_finite = λ f. true;
  is_nan = λ f. false;
  infinity = pos 1000;
  neg_infinity = negsuc 1000;
  zero_float = pos 0;
  eq_float = eqb_ℤ;
  lt_float = ltb_ℤ;
  partial_cmp = λ a b. some (cmp_ℤ a b);
  trunc = λ f. f;
  floor = λ f. f;
  ceil = λ f. f;
  add_float = ◌+ℤ◌;
  sub_float = ◌-ℤ◌;
  mul_float = ◌*ℤ◌;
  rem_float = rem_ℤ;
  pow_float = λ a b. a;
  copysign = λ a b. a;
}

abbrev small_bits : (ℕ → ℕ → ℕ) → ℤ → ℤ → ℤ
small_bits f (pos a) (pos b) = pos (f a b)
small_bits f _ _ = pos 0

abbrev bit_ops : Bitwise
bit_ops = record {
  xor_big = small_bits bit_xor;
  or_big = small_bits bit_or;
  and_big = small_bits bit_and;
}

abbrev Json : Type 0
Json = Value ℤ

-- A power of two that is too wide is refused before it is built, and a negative index out of range.
pow_refused :
    apply whole_floats bit_ops "pow" (int (pos 2)) (int (pos 70000)) ≡ err integer_too_wide
unfolding apply bits as_num need_nums
pow_refused = refl

-- What is no pair is named by its own type.
update_by_numbers :
    apply whole_floats bit_ops "update" (object_of []) (array_of (int (pos 1) ∷ []))
    ≡ err (type_error "update" "dict" "number")
unfolding apply items_list list_items fields_dict dict_fields
update_by_numbers = refl

pop_last :
    apply whole_floats bit_ops "pop" (array_of (int (pos 1) ∷ int (pos 2) ∷ [])) (int (negsuc 0))
    ≡ ok (array_of (int (pos 1) ∷ []))
unfolding apply as_num to_i64 items_list list_items
pop_last = refl

abbrev steps : List (String × Json)
steps = ("add", int (pos 3)) ∷ ("pop", int (pos 0)) ∷ ("default", null) ∷ []

abbrev popped_number : OpError
popped_number = type_error "pop" "number" "number"

-- The second of three operations fails: a number has nothing to pop.
steps_fail : apply_all whole_floats bit_ops (int (pos 4)) steps ≡ err (1, popped_number)
unfolding apply_all apply_each bits as_num need_nums int_value ◌+ℤ◌
steps_fail = refl

apply_all-FailsAt_example : FailsAt whole_floats bit_ops (int (pos 4)) steps 1 popped_number
apply_all-FailsAt_example =
    apply_all-FailsAt whole_floats bit_ops (int (pos 4)) steps 1 popped_number steps_fail

add_seven : apply whole_floats bit_ops "add" (int (pos 3)) (int (pos 4)) ≡ ok (int (pos 7))
unfolding apply bits as_num need_nums int_value ◌+ℤ◌
add_seven = refl

apply-bits_example : bits (pos 7) ≤ max_int_bits
apply-bits_example =
    apply-bits whole_floats bit_ops "add" (int (pos 3)) (int (pos 4)) (pos 7) refl add_seven

-- `-7 % 3`
negative_seven : floor_mod_big (negsuc 6) (pos 3) ≡ some (pos 2)
unfolding floor_mod_big
negative_seven = refl

floor_mod_big-IsRemainder_example : IsRemainder (negsuc 6) (pos 3) (pos 2)
floor_mod_big-IsRemainder_example =
    floor_mod_big-IsRemainder (negsuc 6) (pos 3) (pos 2) negative_seven

abbrev ones : List Json
ones = int (pos 1) ∷ text "a" ∷ []

abbrev twos : List Json
twos = int (pos 2) ∷ real (pos 1) ∷ bool true ∷ int (pos 2) ∷ []

-- What equals a one that is there is left out, and a two that is not there comes twice.
update-array_example :
    update whole_floats (array_of ones) (array_of twos)
    ≡ ok (array_of (ones ++ missing_from whole_floats ones twos))
update-array_example = update-array whole_floats ones twos refl refl (omega arith)

missing_twos : missing_from whole_floats ones twos ≡ int (pos 2) ∷ int (pos 2) ∷ []
unfolding missing_from py_contains ◌-ℤ◌
missing_twos = refl

py_eq-plain_eq_example :
    py_eq whole_floats (array_of ones) (array_of twos)
    ≡ plain_eq whole_floats (array_of ones) (array_of twos)
py_eq-plain_eq_example = py_eq-plain_eq whole_floats (array_of ones) (array_of twos)
