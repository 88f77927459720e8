-- ===== src/Datastore/Width/Integers.antt =====
-- crates/pahoa-datastore/src/ops.rs: the integers that arithmetic, bits and shifts answer.
use Prim.Native.String.{String}
use pahoa.Prelude.{
  ℕ, ◌≤◌, Bool, true, false, Option, none, some, ◌≡◌, refl, arith, if◌then◌else◌, Bool-cases, inl,
  inr,
}
use pahoa.Prelude.Int.{ℤ, pos, negsuc, ◌+ℤ◌, ◌*ℤ◌}
use pahoa.Prelude.Result.{Result, ok, err, ◌>>=◌}
use pahoa.Prelude.Equality.{string_eq}
use pahoa.Json.{Value, null, bool, int, real, text, array, object}
use pahoa.Datastore.Numbers.{
  Floats, PyNum, int_num, float_num, bits, is_negative, as_floats, to_i64, to_unsigned,
  floor_mod_big, floor_mod_f64,
}
use pahoa.Datastore.Values.{as_num}
use pahoa.Datastore.Arith.{
  OpError, OpResult, overflow, max_int_bits, int_value, float_value, num_value, need_nums, add,
  add_nums, mul, mul_nums, repeat, repeat_seq, repeat_by, pow, pow_nums, pow_huge, modulo, mod_nums,
  round, round_num, bitwise, bit_nums, shift, shift_nums, shift_by, ok_or, to_count, pow_ℤ, shl_ℤ,
  shr_ℤ, zero_division, not_finite, type_name,
}

module _ (T : Type 0) where
  pub int_value-bits : (v n : ℤ) → int_value {T = T} v ≡ ok (int n) → bits n ≤ max_int_bits
  unfolding int_value
  int_value-bits v n e = ground arith

  repeat_seq-int :
      (v : Value T) (k : ℕ) (r : OpResult T) (n : ℤ) → repeat_seq v k ≡ some r → r ≡ ok (int n) → ⊥
  unfolding repeat_seq
  repeat_seq-int (text s) k r n h e = ground arith
  repeat_seq-int (array xs) k r n h e = ground arith
  repeat_seq-int null k r n h e = ground arith
  repeat_seq-int (bool b) k r n h e = ground arith
  repeat_seq-int (int i) k r n h e = ground arith
  repeat_seq-int (real t) k r n h e = ground arith
  repeat_seq-int (object d) k r n h e = ground arith

module _ {T : Type 0} (fs : Floats T) where
  pub num_value-float : (f : Floats.Float fs) (n : ℤ) → num_value fs (float_num f) ≡ ok (int n) → ⊥
  unfolding num_value
  num_value-float f n e = ground arith

  pub float_value-int :
      (x y : PyNum fs) (f : Floats.Float fs → Floats.Float fs → Floats.Float fs) (n : ℤ)
      → float_value fs x y f ≡ ok (int n)
      → ⊥
  unfolding float_value
  float_value-int x y f n e = both (ok_or overflow (as_floats fs x y)) e
    where
      both :
          (r : Result {0, 0} OpError (Floats.Float fs × Floats.Float fs))
          → (r >>= λ p. num_value fs (float_num (f p.0 p.1))) ≡ ok (int n)
          → ⊥
      both (ok p) h = num_value-float (f p.0 p.1) n h
      both (err o) h = cc

  -- An operation on two numbers has no wide result if what it does to them has none.
  pub nums_bits :
      (op : String) (c a : Value T) (f : PyNum fs → PyNum fs → OpResult T)
      → ((x y : PyNum fs) (n : ℤ) → f x y ≡ ok (int n) → bits n ≤ max_int_bits)
      → (n : ℤ) → (need_nums fs op c a >>= λ q. f q.0 q.1) ≡ ok (int n)
      → bits n ≤ max_int_bits
  nums_bits op c a f h n e = both (need_nums fs op c a) e
    where
      both :
          (r : Result {0, 0} OpError (PyNum fs × PyNum fs))
          → (r >>= λ q. f q.0 q.1) ≡ ok (int n)
          → bits n ≤ max_int_bits
      both (ok q) k = h q.0 q.1 n k
      both (err o) k = absurd (cc)

  add_nums-bits : (x y : PyNum fs) (n : ℤ) → add_nums fs x y ≡ ok (int n) → bits n ≤ max_int_bits
  add_nums-bits (int_num a) (int_num b) n e = int_value-bits T (a +ℤ b) n e
  add_nums-bits (int_num a) (float_num g) n e = absurd (float_value-int _ _ _ n e)
  add_nums-bits (float_num f) y n e = absurd (float_value-int _ _ _ n e)

  pub add-bits : (c a : Value T) (n : ℤ) → add fs c a ≡ ok (int n) → bits n ≤ max_int_bits
  unfolding add
  add-bits c a n e = ground (arith, nums_bits "+" c a (add_nums fs) add_nums-bits n)

  mul_nums-bits : (x y : PyNum fs) (n : ℤ) → mul_nums fs x y ≡ ok (int n) → bits n ≤ max_int_bits
  mul_nums-bits (int_num a) (int_num b) n e = ground (arith, int_value-bits T (a *ℤ b) n)
  mul_nums-bits (int_num a) (float_num g) n e = absurd (float_value-int _ _ _ n e)
  mul_nums-bits (float_num f) y n e = absurd (float_value-int _ _ _ n e)

  repeat_by-int :
      (seq : Value T) (o : Option (PyNum fs)) (r : OpResult T) (n : ℤ)
      → repeat_by fs seq o ≡ some r
      → r ≡ ok (int n)
      → ⊥
  repeat_by-int seq none r n h e = cc
  repeat_by-int seq (some (float_num f)) r n h e = cc
  repeat_by-int seq (some (int_num i)) r n h e = by_word (to_i64 i) h
    where
      by_word :
          (o : Option ℤ)
          → elim o [ none ↦ some (err overflow) | some m ↦ repeat_seq seq (to_count m) ] ≡ some r
          → ⊥
      by_word none k = cc
      by_word (some m) k = repeat_seq-int T seq (to_count m) r n k e

  repeat-int :
      (seq count : Value T) (r : OpResult T) (n : ℤ)
      → repeat fs seq count ≡ some r
      → r ≡ ok (int n)
      → ⊥
  repeat-int (text s) count r n h e = repeat_by-int (text s) (as_num fs count) r n h e
  repeat-int (array xs) count r n h e = repeat_by-int (array xs) (as_num fs count) r n h e
  repeat-int null count r n h e = cc
  repeat-int (bool b) count r n h e = cc
  repeat-int (int i) count r n h e = cc
  repeat-int (real t) count r n h e = cc
  repeat-int (object d) count r n h e = cc

  pub mul-bits : (c a : Value T) (n : ℤ) → mul fs c a ≡ ok (int n) → bits n ≤ max_int_bits
  unfolding mul
  mul-bits c a n e = sequence (repeat fs c a) (repeat fs a c) (repeat-int c a) (repeat-int a c) e
    where
      sequence :
          (o p : Option (OpResult T))
          → ((r : OpResult T) (n : ℤ) → o ≡ some r → r ≡ ok (int n) → ⊥)
          → ((r : OpResult T) (n : ℤ) → p ≡ some r → r ≡ ok (int n) → ⊥)
          → elim o [
            | some r ↦ r
            | none ↦ elim p [
              | some r ↦ r
              | none ↦ need_nums fs "*" c a >>= λ q. mul_nums fs q.0 q.1
            ]
          ]
            ≡ ok (int n)
          → bits n ≤ max_int_bits
      sequence (some r) p f g h = absurd (f r n refl h)
      sequence none (some r) f g h = absurd (g r n refl h)
      sequence none none f g h = nums_bits "*" c a (mul_nums fs) mul_nums-bits n h

  pow_huge-bits : (a : ℤ) (exp : ℕ) (n : ℤ) → pow_huge fs a exp ≡ ok (int n) → bits n ≤ max_int_bits
  pow_huge-bits a exp n e =
      ground (
        arith,
        int_value-bits T (pos 0) n,
        int_value-bits T (negsuc 0) n,
        int_value-bits T (pos 1) n,
      )

  pow_nums-bits : (x y : PyNum fs) (n : ℤ) → pow_nums fs x y ≡ ok (int n) → bits n ≤ max_int_bits
  pow_nums-bits (int_num a) (int_num (pos exp)) n e =
      ground (arith, int_value-bits T (pow_ℤ a exp) n, pow_huge-bits a exp n)
  pow_nums-bits (int_num a) (int_num (negsuc m)) n e = absurd (float_value-int _ _ _ n e)
  pow_nums-bits (int_num a) (float_num g) n e = absurd (float_value-int _ _ _ n e)
  pow_nums-bits (float_num f) y n e = absurd (float_value-int _ _ _ n e)

  pub pow-bits : (c a : Value T) (n : ℤ) → pow fs c a ≡ ok (int n) → bits n ≤ max_int_bits
  unfolding pow
  pow-bits c a n e = nums_bits "**" c a (pow_nums fs) pow_nums-bits n e

  float_mod-int :
      (x y : PyNum fs) (n : ℤ)
      → (ok_or overflow (as_floats fs x y) >>= λ p.
          ok_or zero_division (floor_mod_f64 fs p.0 p.1) >>= λ m. num_value fs (float_num m))
        ≡ ok (int n)
      → ⊥
  float_mod-int x y n e = both (as_floats fs x y) e
    where
      left :
          (o : Option (Floats.Float fs))
          → (ok_or zero_division o >>= λ m. num_value fs (float_num m)) ≡ ok (int n)
          → ⊥
      left none h = cc
      left (some m) h = num_value-float m n h

      both :
          (o : Option (Floats.Float fs × Floats.Float fs))
          → (ok_or overflow o >>= λ p.
              ok_or zero_division (floor_mod_f64 fs p.0 p.1) >>= λ m. num_value fs (float_num m))
            ≡ ok (int n)
          → ⊥
      both none h = cc
      both (some p) h = left (floor_mod_f64 fs p.0 p.1) h

  pub ok_or-bits :
      (why : OpError) (o : Option ℤ) (n : ℤ)
      → (ok_or why o >>= int_value {T = T}) ≡ ok (int n)
      → bits n ≤ max_int_bits
  ok_or-bits why none n h = absurd (cc)
  ok_or-bits why (some m) n h = int_value-bits T m n h

  mod_nums-bits : (x y : PyNum fs) (n : ℤ) → mod_nums fs x y ≡ ok (int n) → bits n ≤ max_int_bits
  mod_nums-bits (int_num a) (int_num b) n e = ok_or-bits zero_division (floor_mod_big a b) n e
  mod_nums-bits (int_num a) (float_num g) n e = absurd (float_mod-int _ _ n e)
  mod_nums-bits (float_num f) y n e = absurd (float_mod-int _ _ n e)

  pub modulo-bits : (c a : Value T) (n : ℤ) → modulo fs c a ≡ ok (int n) → bits n ≤ max_int_bits
  unfolding modulo
  modulo-bits c a n e = ground (arith, nums_bits "%" c a (mod_nums fs) mod_nums-bits n)

  pub round-bits :
      (c : Value T) (f : Floats.Float fs → Floats.Float fs) (n : ℤ)
      → round fs c f ≡ ok (int n)
      → bits n ≤ max_int_bits
  unfolding round
  round-bits c f n e = by_num (as_num fs c) e
    where
      by_num :
          (o : Option (PyNum fs))
          → round_num fs (type_name c) o f ≡ ok (int n)
          → bits n ≤ max_int_bits
      by_num none h = absurd (cc)
      by_num (some (int_num i)) h = int_value-bits T i n h
      by_num (some (float_num x)) h = elim (Bool-cases (Floats.is_finite fs (f x))) [
        | inl b ↦ ok_or-bits not_finite (Floats.whole fs (f x)) n (rw b at h)
        | inr b ↦ absurd (ground arith)
      ]

  pub bitwise-bits :
      (op : String) (c a : Value T) (f : ℤ → ℤ → ℤ) (n : ℤ)
      → bitwise fs op c a f ≡ ok (int n)
      → bits n ≤ max_int_bits
  unfolding bitwise
  bitwise-bits op c a f n e =
      ground (arith, nums_bits op c a (bit_nums fs op c a f) bit_nums-bits n)
    where
      bit_nums-bits :
          (x y : PyNum fs) (n : ℤ) → bit_nums fs op c a f x y ≡ ok (int n) → bits n ≤ max_int_bits
      bit_nums-bits (int_num x) (int_num y) n h = int_value-bits T (f x y) n h
      bit_nums-bits (int_num x) (float_num y) n h = absurd (cc)
      bit_nums-bits (float_num x) y n h = absurd (cc)

  shift_by-bits :
      (left : Bool) (a : ℤ) (o : Option ℕ) (n : ℤ)
      → shift_by fs left a o ≡ ok (int n)
      → bits n ≤ max_int_bits
  shift_by-bits true a none n e = absurd (cc)
  shift_by-bits true a (some k) n e = ground (arith, int_value-bits T (shl_ℤ a k) n)
  shift_by-bits false a none n e = int_value-bits T (if is_negative a then negsuc 0 else pos 0) n e
  shift_by-bits false a (some k) n e = int_value-bits T (shr_ℤ a k) n e

  pub shift-bits :
      (c a : Value T) (left : Bool) (n : ℤ) → shift fs c a left ≡ ok (int n) → bits n ≤ max_int_bits
  unfolding shift
  shift-bits c a left n e =
      let op = if left then "<<" else ">>" in
      nums_bits op c a (shift_nums fs left op c a) (shift_nums-bits op) n e
    where
      shift_nums-bits :
          (op : String) (x y : PyNum fs) (n : ℤ)
          → shift_nums fs left op c a x y ≡ ok (int n)
          → bits n ≤ max_int_bits
      shift_nums-bits op (int_num x) (int_num y) n h =
          ground (arith, shift_by-bits left x (to_unsigned 64 y) n)
      shift_nums-bits op (int_num x) (float_num y) n h = absurd (cc)
      shift_nums-bits op (float_num x) y n h = absurd (cc)
