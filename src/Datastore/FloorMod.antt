-- ===== src/Datastore/FloorMod.antt =====
-- crates/pahoa-datastore/src/pyvalue.rs: the remainder of Python.
use pahoa.Prelude.{
  ℕ, zero, suc, ◌+◌, ◌-◌, ◌*◌, ◌/◌, ◌%◌, ◌<◌, some, ◌≡◌, arith, ◌⊎◌, inl, inr, subst, sym, ◌∙◌,
}
use pahoa.Prelude.Int.{ℤ, pos, negsuc, pos_part, neg_part, ◌+ℤ◌, ◌*ℤ◌, ◌≤ℤ◌, ◌<ℤ◌, sub_ℕ, int_laws}
use native.Mathlib.Nat.{div-add-mod'}
use pahoa.Prelude.Equality.{int_eq, bool_eq}
use pahoa.Datastore.Numbers.{floor_mod_big, to_divisor, rem_ℤ}

-- What is left of a number by a divisor: it differs from it by a multiple of the divisor, and stands
-- between zero and the divisor, which it is not.
abbrev pub IsRemainder : ℤ → ℤ → ℤ → Type 0
IsRemainder a b m =
    ((q : ℤ) × (a ≡ q *ℤ b +ℤ m)) × (((pos 0 ≤ℤ m) × (m <ℤ b)) ⊎ ((m ≤ℤ pos 0) × (b <ℤ m)))

*ℤ_parts :
    (a b : ℤ)
    → pos_part (a *ℤ b) + (pos_part a * neg_part b + neg_part a * pos_part b)
      ≡ neg_part (a *ℤ b) + (pos_part a * pos_part b + neg_part a * neg_part b)
unfolding ◌*ℤ◌
*ℤ_parts a b = ground arith

-- A rest that is not zero moves to the side of the divisor, here `y` and `-(k + 1)`.
abbrev up_rest : ℕ → ℕ → ℤ
up_rest y zero = pos 0
up_rest y (suc r) = pos (y - suc r)

abbrev down_rest : ℕ → ℕ → ℤ
down_rest k zero = pos 0
down_rest k (suc r) = negsuc (k - suc r)

abbrev minus : ℕ → ℤ
minus zero = pos 0
minus (suc n) = negsuc n

-- The four signs, of a number of the magnitude `q * y + r`.
pos-pos : (n q y r : ℕ) → n ≡ q * y + r → r < y → IsRemainder (pos n) (pos y) (pos r)
pos-pos n q y r h lt =
    ((pos q, omega (int_laws, h, *ℤ_parts (pos q) (pos y))), inl (omega arith, omega arith))

neg-pos : (n q y r : ℕ) → suc n ≡ q * y + r → r < y → IsRemainder (negsuc n) (pos y) (up_rest y r)
neg-pos n zero y zero h lt = absurd (omega (arith, h))
neg-pos n (suc q) y zero h lt =
    ((negsuc q, omega (int_laws, h, *ℤ_parts (negsuc q) (pos y))), inl (omega arith, omega arith))
neg-pos n q y (suc r) h lt =
    ((negsuc q, omega (int_laws, h, *ℤ_parts (negsuc q) (pos y))), inl (omega arith, omega arith))

pos-neg :
    (n q k r : ℕ) → n ≡ q * suc k + r → r < suc k → IsRemainder (pos n) (negsuc k) (down_rest k r)
pos-neg n zero k zero h lt =
    ((pos 0, omega (int_laws, h, *ℤ_parts (pos 0) (negsuc k))), inr (omega arith, omega arith))
pos-neg n (suc q) k zero h lt = (
  (negsuc q, omega (int_laws, h, *ℤ_parts (negsuc q) (negsuc k))),
  inr (omega arith, omega arith),
)
pos-neg n q k (suc r) h lt = (
  (negsuc q, omega (int_laws, h, *ℤ_parts (negsuc q) (negsuc k))),
  inr (omega arith, omega arith),
)

neg-neg :
    (n q k r : ℕ) → suc n ≡ q * suc k + r → r < suc k → IsRemainder (negsuc n) (negsuc k) (minus r)
neg-neg n q k zero h lt =
    ((pos q, omega (int_laws, h, *ℤ_parts (pos q) (negsuc k))), inr (omega arith, omega arith))
neg-neg n q k (suc r) h lt =
    ((pos q, omega (int_laws, h, *ℤ_parts (pos q) (negsuc k))), inr (omega arith, omega arith))

-- What the code makes of a remainder of the dividend's sign.
divisor-kept : (k r : ℕ) → to_divisor (pos r) (pos (suc k)) ≡ pos r
divisor-kept k r = ground arith

divisor-up : (k r : ℕ) → r < suc k → to_divisor (sub_ℕ 0 r) (pos (suc k)) ≡ up_rest (suc k) r
unfolding ◌+ℤ◌
divisor-up k zero lt = ground arith
divisor-up k (suc r) lt = ground arith

divisor-down : (k r : ℕ) → r < suc k → to_divisor (pos r) (negsuc k) ≡ down_rest k r
unfolding ◌+ℤ◌
divisor-down k zero lt = ground arith
divisor-down k (suc r) lt = ground arith

divisor-same : (k r : ℕ) → to_divisor (sub_ℕ 0 r) (negsuc k) ≡ minus r
divisor-same k zero = ground arith
divisor-same k (suc r) = ground arith

nonzero : (a b m : ℤ) → floor_mod_big a b ≡ some m → m ≡ to_divisor (rem_ℤ a b) b
unfolding floor_mod_big
nonzero a b m h = ground arith

-- By a divisor that is not zero, what is left is a remainder in Python's sense: it differs from the
-- number by a multiple of the divisor, and is zero or of the divisor's sign and closer to zero.
pub floor_mod_big-IsRemainder : (a b m : ℤ) → floor_mod_big a b ≡ some m → IsRemainder a b m
unfolding floor_mod_big rem_ℤ
floor_mod_big-IsRemainder a (pos zero) m h = absurd (ground arith)
floor_mod_big-IsRemainder (pos n) (pos (suc k)) m h =
    subst (IsRemainder (pos n) (pos (suc k)))
      (sym (nonzero (pos n) (pos (suc k)) m h ∙ divisor-kept k (n % suc k)))
      (pos-pos n (n / suc k) (suc k) (n % suc k) (omega (arith, div-add-mod' n (suc k)))
        (grind arith))
floor_mod_big-IsRemainder (negsuc n) (pos (suc k)) m h =
    subst (IsRemainder (negsuc n) (pos (suc k)))
      (sym (nonzero (negsuc n) (pos (suc k)) m h ∙ divisor-up k (suc n % suc k) (grind arith)))
      (neg-pos n (suc n / suc k) (suc k) (suc n % suc k)
        (omega (arith, div-add-mod' (suc n) (suc k))) (grind arith))
floor_mod_big-IsRemainder (pos n) (negsuc k) m h =
    subst (IsRemainder (pos n) (negsuc k))
      (sym (nonzero (pos n) (negsuc k) m h ∙ divisor-down k (n % suc k) (grind arith)))
      (pos-neg n (n / suc k) k (n % suc k) (omega (arith, div-add-mod' n (suc k))) (grind arith))
floor_mod_big-IsRemainder (negsuc n) (negsuc k) m h =
    subst (IsRemainder (negsuc n) (negsuc k))
      (sym (nonzero (negsuc n) (negsuc k) m h ∙ divisor-same k (suc n % suc k)))
      (neg-neg n (suc n / suc k) k (suc n % suc k) (omega (arith, div-add-mod' (suc n) (suc k)))
        (grind arith))
