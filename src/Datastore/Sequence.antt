-- ===== src/Datastore/Sequence.antt =====
-- crates/pahoa-datastore/src/ops.rs: where a sequence of operations ends.
use Prim.Native.String.{String}
use pahoa.Prelude.{
  ℕ, zero, suc, ◌+◌, some, List, [], ◌∷◌, take, get_elem?, ◌≡◌, refl, arith, subst, ◌↔◌,
}
use pahoa.Prelude.Result.{ok, err, ◌>>=◌}
use pahoa.Json.{Value}
use pahoa.Datastore.Numbers.{Floats}
use pahoa.Datastore.Arith.{OpError, OpResult}
use pahoa.Datastore.Ops.{Bitwise, apply, apply_each, apply_all}

module _ {T : Type 0} (fs : Floats T) (bs : Bitwise) where
  abbrev Sequence : Type 0
  Sequence = List (String × Value T)

  -- The operations one after the other, without their positions.
  unfoldable pub one_by_one : Value T → Sequence → OpResult T
  one_by_one value [] = ok value
  one_by_one value ((op, arg) ∷ operations) = do
    next ← apply fs bs op value arg
    one_by_one next operations

  -- The operations before a position give a value, on which the one there fails.
  abbrev pub FailsAt : Value T → Sequence → ℕ → OpError → Type 0
  FailsAt value operations i e =
      (reached : Value T) × (op : String × Value T) × (one_by_one value (take i operations)
        ≡ ok reached)
      × (get_elem? operations i ≡ some op)
      × (apply fs bs op.0 reached op.1 ≡ err e)

  apply_each-FailsAt :
      (start : ℕ) (value : Value T) (operations : Sequence) (i : ℕ) (e : OpError)
      → apply_each fs bs start value operations ≡ err (i, e)
      → (k : ℕ) × ((i ≡ start + k) × FailsAt value operations k e)
  unfolding apply_each one_by_one
  apply_each-FailsAt start value [] i e h = absurd (cc)
  apply_each-FailsAt start value ((op, arg) ∷ operations) i e h =
      by_first (apply fs bs op value arg) refl h
        (λ next j f. apply_each-FailsAt (suc start) next operations j f)
    where
      by_first :
          (r : OpResult T)
          → apply fs bs op value arg ≡ r
          → elim r [
            | ok next ↦ apply_each fs bs (suc start) next operations
            | err f ↦ err (start, f)
          ]
            ≡ err (i, e)
          → ((next : Value T) (i : ℕ) (e : OpError)
              → apply_each fs bs (suc start) next operations ≡ err (i, e)
              → (k : ℕ) × ((i ≡ suc start + k) × FailsAt next operations k e))
          → (k : ℕ) × ((i ≡ start + k) × FailsAt value ((op, arg) ∷ operations) k e)
      by_first (err f) p q ih =
          (zero, (ground (arith, q), (value, (op, arg), refl, refl, ground (arith, p, q))))
      by_first (ok next) p q ih =
          let (k, (at, found)) = ih next i e q in
          (suc k, (omega (arith, at), (found.0, found.1, rw p found.2, found.3, found.4)))

  apply_each-ok :
      (start : ℕ) (value : Value T) (operations : Sequence) (v : Value T)
      → (apply_each fs bs start value operations ≡ ok v) ↔ (one_by_one value operations ≡ ok v)
  unfolding apply_each one_by_one
  apply_each-ok start value [] v = (λ h. cc, λ h. cc)
  apply_each-ok start value ((op, arg) ∷ operations) v =
      by_first (apply fs bs op value arg) (λ next. apply_each-ok (suc start) next operations v)
    where
      by_first :
          (r : OpResult T)
          → ((next : Value T)
              → (apply_each fs bs (suc start) next operations ≡ ok v)
                ↔ (one_by_one next operations ≡ ok v))
          → (elim r [
            | ok next ↦ apply_each fs bs (suc start) next operations
            | err f ↦ err (start, f)
          ]
              ≡ ok v)
            ↔ ((r >>= λ next. one_by_one next operations) ≡ ok v)
      by_first (ok next) ih = ih next
      by_first (err f) ih = (λ h. absurd (cc), λ h. absurd (cc))

  pub apply_all-ok :
      (value : Value T) (operations : Sequence) (v : Value T)
      → (apply_all fs bs value operations ≡ ok v) ↔ (one_by_one value operations ≡ ok v)
  unfolding apply_all
  apply_all-ok value operations v = apply_each-ok 0 value operations v

  -- A sequence that fails names the position at which it does: the operations before give a value
  -- one after the other, and on that the one at the position fails with the error that is given.
  pub apply_all-FailsAt :
      (value : Value T) (operations : Sequence) (i : ℕ) (e : OpError)
      → apply_all fs bs value operations ≡ err (i, e)
      → FailsAt value operations i e
  unfolding apply_all
  apply_all-FailsAt value operations i e h = at (apply_each-FailsAt 0 value operations i e h)
    where
      at : (k : ℕ) × ((i ≡ 0 + k) × FailsAt value operations k e) → FailsAt value operations i e
      at (k, (p, f)) = subst (λ j. FailsAt value operations j e) (omega (arith, p)) f
