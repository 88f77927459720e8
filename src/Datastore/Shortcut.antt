-- ===== src/Datastore/Shortcut.antt =====
-- crates/pahoa-datastore/src/pyvalue.rs: comparing small integers without a bignum changes no answer.
use pahoa.Prelude.{Bool, true, ◌&&◌, Option, none, some, length, eqb, ◌≡◌, refl, arith}
use pahoa.Prelude.Int.{ℤ, pos, negsuc}
use pahoa.Prelude.Dict.{lookup}
use pahoa.Prelude.Equality.{◌==◌, int_eq, string_eq}
use pahoa.Json.{
  Value, null, bool, int, real, text, array, object, Items, nil, cons, Fields, end, field,
  items_list, fields_dict,
}
use pahoa.Datastore.Numbers.{Floats, cmp_nums, cmp_ℤ, to_i64}
use pahoa.Datastore.Values.{
  as_num, small_ints, pair_of, eq_by_ints, eq_by_nums, is_equal, py_eq, eq_items, eq_fields,
  is_some_and,
}

to_i64-some : (a x : ℤ) → to_i64 a ≡ some x → x ≡ a
unfolding to_i64
to_i64-some (pos n) x h = ground arith
to_i64-some (negsuc n) x h = ground arith

is_equal-cmp : (a b : ℤ) → is_equal (some (cmp_ℤ a b)) ≡ (a == b)
unfolding cmp_ℤ
is_equal-cmp (pos a) (pos b) = ground arith
is_equal-cmp (pos a) (negsuc b) = ground arith
is_equal-cmp (negsuc a) (pos b) = ground arith
is_equal-cmp (negsuc a) (negsuc b) = ground arith

module _ {T : Type 0} (fs : Floats T) where
  eq_ints-nums :
      (a b : ℤ) (o p : Option ℤ)
      → to_i64 a ≡ o
      → to_i64 b ≡ p
      → eq_by_ints fs (pair_of o p) (int a) (int b) ≡ is_equal (some (cmp_ℤ a b))
  unfolding as_num cmp_nums
  eq_ints-nums a b (some x) (some y) h k =
      ground (arith, to_i64-some a x, to_i64-some b y, is_equal-cmp a b)
  eq_ints-nums a b (some x) none h k = refl
  eq_ints-nums a b none p h k = refl

  eq_by-nums :
      (a b : Value T)
      → eq_by_ints fs (small_ints fs a b) a b ≡ eq_by_nums fs (as_num fs a) (as_num fs b) a b
  unfolding small_ints as_num cmp_nums
  eq_by-nums (int a) (int b) = eq_ints-nums a b (to_i64 a) (to_i64 b) refl refl
  eq_by-nums (int a) null = refl
  eq_by-nums (int a) (bool y) = refl
  eq_by-nums (int a) (real y) = refl
  eq_by-nums (int a) (text y) = refl
  eq_by-nums (int a) (array y) = refl
  eq_by-nums (int a) (object y) = refl
  eq_by-nums null b = refl
  eq_by-nums (bool x) b = refl
  eq_by-nums (real x) b = refl
  eq_by-nums (text x) b = refl
  eq_by-nums (array x) b = refl
  eq_by-nums (object x) b = refl

  -- Python's equality, with every number compared as a number.
  mutual
    unfolding as_num cmp_nums items_list fields_dict lookup

    pub plain_eq : Value T → Value T → Bool
    plain_eq (array xs) (array ys) =
        eqb (length (items_list xs)) (length (items_list ys)) && plain_items xs ys
    plain_eq (object xs) (object ys) =
        eqb (length (fields_dict xs)) (length (fields_dict ys)) && plain_fields xs ys
    plain_eq a b = eq_by_nums fs (as_num fs a) (as_num fs b) a b

    pub plain_items : Items T → Items T → Bool
    plain_items nil ys = true
    plain_items (cons x xs) nil = true
    plain_items (cons x xs) (cons y ys) = plain_eq x y && plain_items xs ys

    pub plain_fields : Fields T → Fields T → Bool
    plain_fields end ys = true
    plain_fields (field k v xs) ys =
        is_some_and (plain_eq v) (lookup k (fields_dict ys)) && plain_fields xs ys

  some_and-eq :
      (p q : Value T → Bool) (o : Option (Value T))
      → ((w : Value T) → p w ≡ q w)
      → is_some_and p o ≡ is_some_and q o
  some_and-eq p q none h = refl
  some_and-eq p q (some w) h = h w

  and-eq : {a b c d : Bool} → a ≡ b → c ≡ d → (a && c) ≡ (b && d)
  and-eq h k = rw (h, k)

  mutual
    unfolding py_eq plain_eq

    eq-plain : (a b : Value T) → py_eq fs a b ≡ plain_eq a b
    eq-plain (array xs) (array ys) = and-eq refl (items-plain xs ys)
    eq-plain (array xs) null = refl
    eq-plain (array xs) (bool b) = refl
    eq-plain (array xs) (int b) = refl
    eq-plain (array xs) (real b) = refl
    eq-plain (array xs) (text b) = refl
    eq-plain (array xs) (object b) = refl
    eq-plain (object xs) (object ys) = and-eq refl (fields-plain xs ys)
    eq-plain (object xs) null = refl
    eq-plain (object xs) (bool b) = refl
    eq-plain (object xs) (int b) = refl
    eq-plain (object xs) (real b) = refl
    eq-plain (object xs) (text b) = refl
    eq-plain (object xs) (array b) = refl
    eq-plain null b = eq_by-nums null b
    eq-plain (bool x) b = eq_by-nums (bool x) b
    eq-plain (int x) b = eq_by-nums (int x) b
    eq-plain (real x) b = eq_by-nums (real x) b
    eq-plain (text x) b = eq_by-nums (text x) b

    items-plain : (xs ys : Items T) → eq_items fs xs ys ≡ plain_items xs ys
    items-plain nil ys = refl
    items-plain (cons x xs) nil = refl
    items-plain (cons x xs) (cons y ys) = and-eq (eq-plain x y) (items-plain xs ys)

    fields-plain : (xs ys : Fields T) → eq_fields fs xs ys ≡ plain_fields xs ys
    fields-plain end ys = refl
    fields-plain (field k v xs) ys =
        and-eq
          (some_and-eq (py_eq fs v) (plain_eq v) (lookup k (fields_dict ys)) (λ w. eq-plain v w))
          (fields-plain xs ys)

  -- The shortcut for two integers that fit a machine's word changes no answer, at any depth.
  pub py_eq-plain_eq : (a b : Value T) → py_eq fs a b ≡ plain_eq a b
  py_eq-plain_eq a b = eq-plain a b
