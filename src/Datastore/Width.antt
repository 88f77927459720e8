-- ===== src/Datastore/Width.antt =====
-- crates/pahoa-datastore/src/ops.rs: no operation builds an integer that is wider than the bound.
pub mod Integers
use Prim.Native.String.{String}
use pahoa.Prelude.{
  ℕ, ◌≤◌, Bool, true, false, ◌||◌, Option, none, some, ◌≡◌, refl, arith, if◌then◌else◌, Bool-cases,
  inl, inr,
}
use pahoa.Prelude.Int.{ℤ, pos, negsuc, ◌+ℤ◌, ◌*ℤ◌}
use pahoa.Prelude.Result.{Result, ok, err, ◌>>=◌}
use pahoa.Prelude.Equality.{◌==◌, string_eq}
use pahoa.Json.{Value, null, bool, int, real, text, array, object}
use pahoa.Datastore.Numbers.{
  Floats, PyNum, int_num, float_num, bits, is_negative, as_floats, to_i64, to_unsigned,
  floor_mod_big, floor_mod_f64,
}
use pahoa.Datastore.Values.{as_num}
use pahoa.Datastore.Arith.{
  OpError, OpResult, overflow, max_int_bits, int_value, float_value, num_value, need_nums, add,
  add_nums, mul, mul_nums, repeat, repeat_seq, repeat_by, pow, pow_nums, pow_huge, modulo, mod_nums,
  round, round_num, bitwise, bit_nums, shift, shift_nums, shift_by, ok_or, to_count, pow_ℤ, shl_ℤ,
  shr_ℤ, zero_division, not_finite, type_name,
}
use pahoa.Datastore.Containers.{remove, pop, update, update_dict}
use pahoa.Prelude.Dict.{Dict}
use pahoa.Datastore.Ops.{Bitwise, or, apply}
use pahoa.Datastore.Width.Integers.{
  int_value-bits, num_value-float, float_value-int, nums_bits, add-bits, mul-bits, pow-bits,
  ok_or-bits, modulo-bits, round-bits, bitwise-bits, shift-bits,
}

module _ {T : Type 0} (fs : Floats T) where
  remove-int : (c a : Value T) (n : ℤ) → remove fs c a ≡ ok (int n) → ⊥
  unfolding remove
  remove-int c a n e = ground arith

  pop-int : (c a : Value T) (n : ℤ) → pop fs c a ≡ ok (int n) → ⊥
  unfolding pop
  pop-int c a n e = ground arith

  update_dict-int :
      (d : Dict String (Value T)) (a : Value T) (n : ℤ) → update_dict d a ≡ ok (int n) → ⊥
  unfolding update_dict
  update_dict-int d a n e = ground arith

  update-int : (c a : Value T) (n : ℤ) → update fs c a ≡ ok (int n) → ⊥
  unfolding update
  update-int c a n e = ground arith

-- The operations that answer with a value as it was given.
abbrev pub is_verbatim : String → Bool
is_verbatim op = op == "replace" || op == "default" || op == "max" || op == "min"

module _ {T : Type 0} (fs : Floats T) (bs : Bitwise) where
  or-bits : (c a : Value T) (n : ℤ) → or fs bs c a ≡ ok (int n) → bits n ≤ max_int_bits
  unfolding or
  or-bits c a n e = ground (arith, bitwise-bits fs "|" c a (Bitwise.or_big bs) n)

  -- An integer that an operation other than replace, default, max and min answers has no more bits
  -- than the bound, whatever it is applied to.
  pub apply-bits :
      (op : String) (c a : Value T) (n : ℤ)
      → is_verbatim op ≡ false
      → apply fs bs op c a ≡ ok (int n)
      → bits n ≤ max_int_bits
  unfolding apply
  apply-bits op c a n computed =
      unless (op == "replace") (λ t. λ e. absurd (ground (arith, t)))
        (λ f.
          unless (op == "default") (λ t. λ e. absurd (ground (arith, t)))
            (λ f.
              unless (op == "add") (λ t. add-bits fs c a n)
                (λ f.
                  unless (op == "mul") (λ t. mul-bits fs c a n)
                    (λ f.
                      unless (op == "pow") (λ t. pow-bits fs c a n)
                        (λ f.
                          unless (op == "mod") (λ t. modulo-bits fs c a n)
                            (λ f.
                              unless (op == "floor") (λ t. round-bits fs c (Floats.floor fs) n)
                                (λ f.
                                  unless (op == "ceil") (λ t. round-bits fs c (Floats.ceil fs) n)
                                    (λ f.
                                      unless (op == "max") (λ t. λ e. absurd (ground (arith, t)))
                                        (λ f.
                                          unless (op == "min")
                                            (λ t. λ e. absurd (ground (arith, t)))
                                            (λ f.
                                              unless (op == "xor")
                                                (λ t.
                                                  bitwise-bits fs "^" c a (Bitwise.xor_big bs) n)
                                                (λ f.
                                                  unless (op == "or") (λ t. or-bits c a n)
                                                    (λ f.
                                                      unless (op == "and")
                                                        (λ t.
                                                          bitwise-bits fs "&" c a
                                                            (Bitwise.and_big bs) n)
                                                        (λ f.
                                                          unless (op == "left_shift")
                                                            (λ t. shift-bits fs c a true n)
                                                            (λ f.
                                                            unless (op == "right_shift")
                                                            (λ t. shift-bits fs c a false n)
                                                            (λ f.
                                                            unless (op == "remove")
                                                            (λ t.
                                                            λ e. absurd (remove-int fs c a n e))
                                                            (λ f.
                                                            unless (op == "pop")
                                                            (λ t. λ e. absurd (pop-int fs c a n e))
                                                            (λ f.
                                                            unless (op == "update")
                                                            (λ t.
                                                            λ e. absurd (update-int fs c a n e))
                                                            (λ f. λ e. absurd (cc)))))))))))))))))))
    where
      unless :
          (b : Bool) {x y : OpResult T}
          → (b ≡ true → x ≡ ok (int n) → bits n ≤ max_int_bits)
          → (b ≡ false → y ≡ ok (int n) → bits n ≤ max_int_bits)
          → (if b then x else y) ≡ ok (int n)
          → bits n ≤ max_int_bits
      unless true h k = h refl
      unless false h k = k refl
