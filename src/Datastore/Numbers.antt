-- ===== src/Datastore/Numbers.antt =====
-- crates/pahoa-datastore/src/pyvalue.rs: Python's numbers. An arbitrary-precision integer is an integer
-- of the model; the `f64` of the machine, with its operations, is a parameter.
use Prim.Native.Nat.{compare}
use Prim.Native.Nat.{Ordering}
use pahoa.Prelude.{
  ℕ, zero, suc, ◌+◌, ◌/◌, ◌%◌, ◌^◌, Bool, true, false, not, ◌&&◌, Option, none, some, ltb, eqb,
  if◌then◌else◌,
}
use pahoa.Prelude.Int.{ℤ, pos, negsuc, pos_part, neg_part, ◌+ℤ◌, sub_ℕ}
use pahoa.Prelude.Equality.{◌==◌, int_eq, bool_eq}

-- What the code uses of `f64` and of its conversions: `read` and `write` are between the text of a
-- number and the float, with CPython's spelling, and `whole` is `BigInt::from_f64`.
pub record Floats (T : Type 0) : Type 1 where
  pub Float : Type 0
  pub read : T → Option Float
  pub write : Float → Option T
  pub of_int : ℤ → Option Float
  pub whole : Float → Option ℤ
  pub is_finite : Float → Bool
  pub is_nan : Float → Bool
  pub infinity : Float
  pub neg_infinity : Float
  pub zero_float : Float
  pub eq_float : Float → Float → Bool
  pub lt_float : Float → Float → Bool
  pub partial_cmp : Float → Float → Option Ordering
  pub trunc : Float → Float
  pub floor : Float → Float
  pub ceil : Float → Float
  pub add_float : Float → Float → Float
  pub sub_float : Float → Float → Float
  pub mul_float : Float → Float → Float
  pub rem_float : Float → Float → Float
  pub pow_float : Float → Float → Float
  pub copysign : Float → Float → Float

-- `BigInt`: the order, the width of the magnitude and what fits a machine's word.
unfoldable pub cmp_ℤ : ℤ → ℤ → Ordering
cmp_ℤ a b = compare (pos_part a + neg_part b) (pos_part b + neg_part a)

abbrev pub magnitude : ℤ → ℕ
magnitude (pos n) = n
magnitude (negsuc n) = suc n

abbrev pub is_negative : ℤ → Bool
is_negative (pos n) = false
is_negative (negsuc n) = true

abbrev pub is_zero : ℤ → Bool
is_zero a = a == pos 0

-- A number has no more digits than its value.
unfoldable pub bit_count : ℕ → ℕ → ℕ
bit_count zero n = 0
bit_count (suc fuel) n = let half = bit_count fuel (n / 2) in if eqb n 0 then 0 else suc half

unfoldable pub bits : ℤ → ℕ
unfolding bit_count
bits a = bit_count (magnitude a) (magnitude a)

unfoldable pub to_i64 : ℤ → Option ℤ
to_i64 (pos n) = if ltb n (2 ^ 63) then some (pos n) else none
to_i64 (negsuc n) = if ltb n (2 ^ 63) then some (negsuc n) else none

abbrev pub to_unsigned : ℕ → ℤ → Option ℕ
to_unsigned width (pos n) = if ltb n (2 ^ width) then some n else none
to_unsigned width (negsuc n) = none

-- `%` of Rust, which has the sign of the dividend.
unfoldable pub rem_ℤ : ℤ → ℤ → ℤ
rem_ℤ (pos n) b = pos (n % magnitude b)
rem_ℤ (negsuc n) b = sub_ℕ 0 (suc n % magnitude b)

-- The remainder takes the sign of the divisor.
abbrev pub to_divisor : ℤ → ℤ → ℤ
to_divisor m b = if not (is_zero m) && not (is_negative m == is_negative b) then m +ℤ b else m

unfoldable pub floor_mod_big : ℤ → ℤ → Option ℤ
unfolding rem_ℤ ◌+ℤ◌
floor_mod_big a b = if is_zero b then none else some (to_divisor (rem_ℤ a b) b)

abbrev pub reverse_order : Ordering → Ordering
reverse_order Ordering.lt = Ordering.gt
reverse_order Ordering.eq = Ordering.eq
reverse_order Ordering.gt = Ordering.lt

module _ {T : Type 0} (fs : Floats T) where
  open fs use {
    Float, of_int, whole, is_finite, is_nan, infinity, neg_infinity, zero_float, eq_float, lt_float,
    partial_cmp, trunc, sub_float, add_float, rem_float, copysign,
  }

  pub data PyNum : Type 0 where
    int_num : ℤ → PyNum
    float_num : Float → PyNum

  abbrev pub finite : Option Float → Option Float
  finite none = none
  finite (some f) = if is_finite f then some f else none

  unfoldable pub as_f64 : PyNum → Option Float
  as_f64 (int_num i) = finite (of_int i)
  as_f64 (float_num f) = some f

  -- Where the parts before the point are equal, the rest of the float decides.
  abbrev pub by_fraction : Ordering → Float → Ordering
  by_fraction Ordering.eq f =
      let fraction = sub_float f (trunc f) in
      if lt_float zero_float fraction
      then Ordering.lt
      else if lt_float fraction zero_float
      then Ordering.gt
      else Ordering.eq
  by_fraction other f = other

  abbrev pub cmp_whole : ℤ → Float → Option ℤ → Option Ordering
  cmp_whole a f none = none
  cmp_whole a f (some w) = some (by_fraction (cmp_ℤ a w) f)

  unfoldable pub cmp_int_f64 : ℤ → Float → Option Ordering
  unfolding cmp_ℤ
  cmp_int_f64 a f =
      if is_nan f
      then none
      else if eq_float f infinity
      then some Ordering.lt
      else if eq_float f neg_infinity
      then some Ordering.gt
      else cmp_whole a f (whole (trunc f))

  abbrev pub map_reverse : Option Ordering → Option Ordering
  map_reverse none = none
  map_reverse (some o) = some (reverse_order o)

  unfoldable pub cmp_nums : PyNum → PyNum → Option Ordering
  unfolding cmp_int_f64
  cmp_nums (int_num a) (int_num b) = some (cmp_ℤ a b)
  cmp_nums (float_num a) (float_num b) = partial_cmp a b
  cmp_nums (int_num a) (float_num f) = cmp_int_f64 a f
  cmp_nums (float_num f) (int_num b) = map_reverse (cmp_int_f64 b f)

  abbrev pub both : Option Float → Option Float → Option (Float × Float)
  both (some a) (some b) = some (a, b)
  both _ _ = none

  unfoldable pub as_floats : PyNum → PyNum → Option (Float × Float)
  unfolding as_f64
  as_floats x y = both (as_f64 x) (as_f64 y)

  unfoldable pub floor_mod_f64 : Float → Float → Option Float
  floor_mod_f64 a b =
      let m = rem_float a b in
      if eq_float b zero_float
      then none
      else if eq_float m zero_float
      then some (copysign zero_float b)
      else if not (lt_float m zero_float == lt_float b zero_float)
      then some (add_float m b)
      else some m
