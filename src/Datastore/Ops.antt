-- ===== src/Datastore/Ops.antt =====
-- crates/pahoa-datastore/src/ops.rs: one operation by its name, and a sequence of them.
use Prim.Native.Nat.{Ordering}
use Prim.Native.String.{String}
use pahoa.Prelude.{ℕ, suc, true, false, List, [], ◌∷◌, if◌then◌else◌}
use pahoa.Prelude.Int.{ℤ}
use pahoa.Prelude.Result.{Result, ok, err}
use pahoa.Prelude.Equality.{◌==◌, string_eq}
use pahoa.Json.{Value, object, fields_dict, object_of}
use pahoa.Datastore.Numbers.{Floats}
use pahoa.Datastore.Arith.{
  OpError, unknown_operation, OpResult, add, mul, pow, modulo, round, pick, bitwise, shift,
}
use pahoa.Datastore.Containers.{insert_all, remove, pop, update}

-- The bitwise operations of `BigInt`, on two's complement.
pub record Bitwise : Type 0 where
  pub xor_big : ℤ → ℤ → ℤ
  pub or_big : ℤ → ℤ → ℤ
  pub and_big : ℤ → ℤ → ℤ

module _ {T : Type 0} (fs : Floats T) (bs : Bitwise) where
  unfoldable pub or : Value T → Value T → OpResult T
  unfolding insert_all bitwise
  or (object a) (object b) = ok (object_of (insert_all (fields_dict b) (fields_dict a)))
  or current arg = bitwise fs "|" current arg (Bitwise.or_big bs)

  unfoldable pub apply : String → Value T → Value T → OpResult T
  unfolding add mul pow modulo round pick bitwise shift or remove pop update
  apply op current arg =
      if op == "replace"
      then ok arg
      else if op == "default"
      then ok current
      else if op == "add"
      then add fs current arg
      else if op == "mul"
      then mul fs current arg
      else if op == "pow"
      then pow fs current arg
      else if op == "mod"
      then modulo fs current arg
      else if op == "floor"
      then round fs current (Floats.floor fs)
      else if op == "ceil"
      then round fs current (Floats.ceil fs)
      else if op == "max"
      then pick fs "max" current arg Ordering.lt
      else if op == "min"
      then pick fs "min" current arg Ordering.gt
      else if op == "xor"
      then bitwise fs "^" current arg (Bitwise.xor_big bs)
      else if op == "or"
      then or current arg
      else if op == "and"
      then bitwise fs "&" current arg (Bitwise.and_big bs)
      else if op == "left_shift"
      then shift fs current arg true
      else if op == "right_shift"
      then shift fs current arg false
      else if op == "remove"
      then remove fs current arg
      else if op == "pop"
      then pop fs current arg
      else if op == "update"
      then update fs current arg
      else err (unknown_operation op)

  -- The first operation that fails ends the sequence, with its position.
  unfoldable pub apply_each :
      ℕ → Value T → List (String × Value T) → Result {0, 0} (ℕ × OpError) (Value T)
  unfolding apply
  apply_each index value [] = ok value
  apply_each index value ((op, arg) ∷ operations) = elim (apply op value arg) [
    | ok next ↦ apply_each (suc index) next operations
    | err e ↦ err (index, e)
  ]

  -- Without the clock and the counters of metrics.rs.
  unfoldable pub apply_all :
      Value T → List (String × Value T) → Result {0, 0} (ℕ × OpError) (Value T)
  unfolding apply_each
  apply_all value operations = apply_each 0 value operations
