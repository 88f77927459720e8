-- ===== src/Room/Hints/Economy.antt =====
-- crates/pahoa-room/src/hints.rs: `points` and `budget`, what a player can afford.
use pahoa.Prelude.{ℕ, zero, suc, ◌*◌, ◌/◌, ◌≤◌, ◌<◌, true, ◌≡◌, ◌↔◌, arith}
use pahoa.Prelude.Int.{ℤ, pos, negsuc, ◌≤ℤ◌}
use pahoa.Room.Hints.{budget, affords}

le_mul : (a q : ℕ) → 0 < q → a ≤ a * q
le_mul a zero h = omega arith
le_mul a (suc q) h = omega arith

affords_iff : (c : ℕ) (p : ℤ) → (affords p (pos (suc c)) ≡ true) ↔ (pos (suc c) ≤ℤ p)
affords_iff c (pos p) = ground (arith, le_mul (suc c) (p / suc c))
affords_iff c (negsuc p) = ground arith

-- With a price above zero and a hint for a location not yet checked, one hint is granted if the points
-- reach the price, and none otherwise.
pub budget-affords :
    (c : ℕ) (p : ℤ)
    → ((budget (pos (suc c)) p true ≡ 1) ↔ (pos (suc c) ≤ℤ p)) × (budget (pos (suc c)) p true ≤ 1)
unfolding budget
budget-affords c p = ground (arith, affords_iff c p)
