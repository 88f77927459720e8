-- ===== src/Datastore/Arith.antt =====
-- crates/pahoa-datastore/src/ops.rs: the operations on numbers, of which some also take texts and lists.
use Prim.Native.Nat.{Ordering, min}
use Prim.Native.String.{String, len, ◌++◌ as append_text}
use pahoa.Prelude.{
  ℕ, zero, suc, ◌+◌, ◌*◌, ◌/◌, ◌%◌, ◌^◌, ◌-◌, Bool, true, false, not, ◌&&◌, ◌||◌, Option, none,
  some, List, [], ◌++◌, length, ltb, leb, eqb, if◌then◌else◌,
}
use pahoa.Prelude.Int.{ℤ, pos, negsuc, ◌+ℤ◌, ◌*ℤ◌, sub_ℕ}
use pahoa.Prelude.Result.{Result, ok, err, ◌>>=◌}
use pahoa.Json.{Value, null, bool, int, real, text, array, object, items_list, array_of}
use pahoa.Datastore.Numbers.{
  Floats, PyNum, int_num, float_num, bits, magnitude, is_negative, is_zero, to_i64, to_unsigned,
  floor_mod_big, floor_mod_f64, as_floats,
}
use pahoa.Datastore.Values.{as_num, bool_int, py_cmp}

-- `MAX_RESULT_LEN` and `MAX_INT_BITS`
abbrev pub max_result_len : ℕ
max_result_len = 16777216

abbrev pub max_int_bits : ℕ
max_int_bits = 65536

pub data OpError : Type 0 where
  type_error : (op left right : String) → OpError
  value_error : String → OpError
  index_error key_error zero_division unhashable : OpError
  unknown_operation : String → OpError
  overflow integer_too_wide result_too_large not_finite string_formatting : OpError

abbrev pub type_name : {T : Type 0} → Value T → String
type_name null = "None"
type_name (bool b) = "bool"
type_name (int i) = "number"
type_name (real t) = "number"
type_name (text s) = "str"
type_name (array xs) = "list"
type_name (object fs) = "dict"

abbrev pub OpResult : Type 0 → Type 0
OpResult T = Result {0, 0} OpError (Value T)

-- `saturating_mul` and `saturating_add` of 64 bits.
abbrev pub saturate : ℕ → ℕ
saturate n = min n (2 ^ 64 - 1)

abbrev pub ok_or {ℓ} : {A : Type ℓ} → OpError → Option A → Result {0, ℓ} OpError A
ok_or e none = err e
ok_or e (some a) = ok a

unfoldable pub int_value : {T : Type 0} → ℤ → OpResult T
int_value v = if ltb max_int_bits (bits v) then err integer_too_wide else ok (int v)

-- `BigInt`'s powers and shifts; the right shift rounds down.
abbrev pub signed : Bool → ℕ → ℤ
signed false n = pos n
signed true n = sub_ℕ 0 n

abbrev pub is_odd : ℕ → Bool
is_odd n = eqb (n % 2) 1

unfoldable pub pow_ℤ : ℤ → ℕ → ℤ
pow_ℤ a n = signed (is_negative a && is_odd n) (magnitude a ^ n)

unfoldable pub shl_ℤ : ℤ → ℕ → ℤ
shl_ℤ a n = signed (is_negative a) (magnitude a * 2 ^ n)

unfoldable pub shr_ℤ : ℤ → ℕ → ℤ
shr_ℤ (pos m) n = pos (m / 2 ^ n)
shr_ℤ (negsuc m) n = negsuc (m / 2 ^ n)

unfoldable pub repeat_text : ℕ → String → String
repeat_text zero s = ""
repeat_text (suc n) s = append_text s (repeat_text n s)

unfoldable pub repeat_list {ℓ} : {A : Type ℓ} → ℕ → List A → List A
repeat_list zero xs = []
repeat_list (suc n) xs = xs ++ repeat_list n xs

-- `n.max(0) as usize`
abbrev pub to_count : ℤ → ℕ
to_count (pos n) = n
to_count (negsuc n) = 0

-- A text or a list a number of times; `none` is no sequence.
unfoldable pub repeat_seq : {T : Type 0} → Value T → ℕ → Option (OpResult T)
repeat_seq (text s) n = some (
    if ltb max_result_len (saturate (len s * n))
    then err result_too_large
    else ok (text (repeat_text n s)))
repeat_seq (array xs) n =
    let total = saturate (length (items_list xs) * n) in
    some (
      if ltb max_result_len total
      then err result_too_large
      else if eqb total 0
      then ok (array_of [])
      else ok (array_of (repeat_list n (items_list xs))))
repeat_seq _ n = none

module _ {T : Type 0} (fs : Floats T) where
  open fs use {Float, is_finite, write, whole, floor, ceil, add_float, mul_float, pow_float}

  abbrev pub float_value_of : Float → OpResult T
  float_value_of f = if is_finite f then ok_or not_finite (real_of (write f)) else err not_finite
    where
      real_of : Option T → Option (Value T)
      real_of none = none
      real_of (some t) = some (real t)

  unfoldable pub num_value : PyNum fs → OpResult T
  num_value (int_num i) = ok (int i)
  num_value (float_num f) = float_value_of f

  unfoldable pub float_value : PyNum fs → PyNum fs → (Float → Float → Float) → OpResult T
  unfolding num_value
  float_value x y f = do (a, b) ← ok_or overflow (as_floats fs x y); num_value (float_num (f a b))

  abbrev pub is_wide : PyNum fs → Bool
  is_wide (int_num i) = ltb max_int_bits (bits i)
  is_wide (float_num f) = false

  abbrev pub both_nums :
      String
      → Value T
      → Value T
      → Option (PyNum fs)
      → Option (PyNum fs)
      → Result {0, 0} OpError (PyNum fs × PyNum fs)
  both_nums op a b (some x) (some y) =
      if is_wide x || is_wide y then err integer_too_wide else ok (x, y)
  both_nums op a b _ _ = err (type_error op (type_name a) (type_name b))

  unfoldable pub need_nums :
      String → Value T → Value T → Result {0, 0} OpError (PyNum fs × PyNum fs)
  need_nums op a b = both_nums op a b (as_num fs a) (as_num fs b)

  abbrev pub add_nums : PyNum fs → PyNum fs → OpResult T
  add_nums (int_num a) (int_num b) = int_value (a +ℤ b)
  add_nums x y = float_value x y add_float

  unfoldable pub add : Value T → Value T → OpResult T
  add (text a) (text b) =
      if ltb max_result_len (len a + len b)
      then err result_too_large
      else ok (text (append_text a b))
  add (array xs) (array ys) =
      if ltb max_result_len (length (items_list xs) + length (items_list ys))
      then err result_too_large
      else ok (array_of (items_list xs ++ items_list ys))
  add current arg = do (x, y) ← need_nums "+" current arg; add_nums x y

  abbrev pub repeat_by : Value T → Option (PyNum fs) → Option (OpResult T)
  repeat_by seq (some (int_num n)) = elim (to_i64 n) [
    | none ↦ some (err overflow)
    | some m ↦ repeat_seq seq (to_count m)
  ]
  repeat_by seq _ = none

  -- `None` where the value is no sequence, or the count no integer.
  abbrev pub repeat : Value T → Value T → Option (OpResult T)
  repeat (text s) count = repeat_by (text s) (as_num fs count)
  repeat (array xs) count = repeat_by (array xs) (as_num fs count)
  repeat _ count = none

  abbrev pub mul_nums : PyNum fs → PyNum fs → OpResult T
  mul_nums (int_num a) (int_num b) =
      if ltb max_int_bits (saturate (bits a + bits b))
      then err integer_too_wide
      else int_value (a *ℤ b)
  mul_nums x y = float_value x y mul_float

  unfoldable pub mul : Value T → Value T → OpResult T
  mul current arg = elim (repeat current arg) [
    | some r ↦ r
    | none ↦ elim (repeat arg current) [
      | some r ↦ r
      | none ↦ do (x, y) ← need_nums "*" current arg; mul_nums x y
    ]
  ]

  -- An exponent that no word of 32 bits holds.
  abbrev pub pow_huge : ℤ → ℕ → OpResult T
  pow_huge a exp =
      if eqb (bits a) 0
      then int_value (pos 0)
      else if eqb (bits a) 1
      then (if is_negative a && is_odd exp then int_value (negsuc 0) else int_value (pos 1))
      else err integer_too_wide

  abbrev pub pow_nums : PyNum fs → PyNum fs → OpResult T
  pow_nums (int_num a) (int_num (pos exp)) =
      let projected = if leb (bits a) 1 then 1 else saturate (bits a * exp) in
      if ltb exp (2 ^ 32)
      then (if ltb max_int_bits projected then err integer_too_wide else int_value (pow_ℤ a exp))
      else pow_huge a exp
  pow_nums x y = float_value x y pow_float

  unfoldable pub pow : Value T → Value T → OpResult T
  pow current arg = do (x, y) ← need_nums "**" current arg; pow_nums x y

  abbrev pub mod_nums : PyNum fs → PyNum fs → OpResult T
  mod_nums (int_num a) (int_num b) = do m ← ok_or zero_division (floor_mod_big a b); int_value m
  mod_nums x y = do
    (a, b) ← ok_or overflow (as_floats fs x y)
    m ← ok_or zero_division (floor_mod_f64 fs a b)
    num_value (float_num m)

  unfoldable pub modulo : Value T → Value T → OpResult T
  modulo (text s) arg = err string_formatting
  modulo current arg = do (x, y) ← need_nums "%" current arg; mod_nums x y

  abbrev pub round_num : String → Option (PyNum fs) → (Float → Float) → OpResult T
  round_num name none f = err (type_error "floor/ceil" name "None")
  round_num name (some (int_num i)) f = int_value i
  round_num name (some (float_num x)) f =
      if is_finite (f x)
      then (do i ← ok_or not_finite (whole (f x)); int_value i)
      else err not_finite

  unfoldable pub round : Value T → (Float → Float) → OpResult T
  round current f = round_num (type_name current) (as_num fs current) f

  abbrev pub eqb_order : Ordering → Ordering → Bool
  eqb_order Ordering.lt Ordering.lt = true
  eqb_order Ordering.eq Ordering.eq = true
  eqb_order Ordering.gt Ordering.gt = true
  eqb_order _ _ = false

  unfoldable pub pick : String → Value T → Value T → Ordering → OpResult T
  pick op current arg worse = elim (py_cmp fs current arg) [
    | some o ↦ if eqb_order o worse then ok arg else ok current
    | none ↦ err (type_error op (type_name current) (type_name arg))
  ]

  abbrev pub bit_nums : String → Value T → Value T → (ℤ → ℤ → ℤ) → PyNum fs → PyNum fs → OpResult T
  bit_nums op current arg f (int_num a) (int_num b) = int_value (f a b)
  bit_nums op current arg f _ _ = err (type_error op (type_name current) (type_name arg))

  unfoldable pub bitwise : String → Value T → Value T → (ℤ → ℤ → ℤ) → OpResult T
  bitwise op (bool a) (bool b) f = ok (bool (not (is_zero (f (bool_int a) (bool_int b)))))
  bitwise op current arg f = do (x, y) ← need_nums op current arg; bit_nums op current arg f x y

  abbrev pub shift_by : Bool → ℤ → Option ℕ → OpResult T
  shift_by true a none = err integer_too_wide
  shift_by true a (some count) =
      if ltb max_int_bits (saturate (bits a + count))
      then err integer_too_wide
      else int_value (shl_ℤ a count)
  shift_by false a none = int_value (if is_negative a then negsuc 0 else pos 0)
  shift_by false a (some count) = int_value (shr_ℤ a count)

  abbrev pub shift_nums : Bool → String → Value T → Value T → PyNum fs → PyNum fs → OpResult T
  shift_nums left op current arg (int_num a) (int_num b) =
      if is_negative b
      then err (value_error "negative shift count")
      else shift_by left a (to_unsigned 64 b)
  shift_nums left op current arg _ _ = err (type_error op (type_name current) (type_name arg))

  unfoldable pub shift : Value T → Value T → Bool → OpResult T
  shift current arg left =
      let op = if left then "<<" else ">>" in
      do (x, y) ← need_nums op current arg; shift_nums left op current arg x y
