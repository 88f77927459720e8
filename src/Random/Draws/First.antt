-- ===== src/Random/Draws/First.antt =====
-- crates/pahoa-pyrandom/src/lib.rs: which draw the rejection loop of `randbelow` returns.
use pahoa.Prelude.{
  ℕ, zero, suc, ◌≤◌, ◌<◌, some, true, false, ltb, eqb, ◌≡◌, refl, arith, if_both, ltb→lt,
}
use pahoa.Random.Twister.{Mt19937}
use pahoa.Random.Draws.{getrandbits_u64, draw_below, bit_length, randbelow}

-- The generator behind some draws of so many bits.
unfoldable pub after : ℕ → ℕ → Mt19937 → Mt19937
after k zero mt = mt
after k (suc j) mt = after k j (getrandbits_u64 k mt).1

-- The draw behind some others.
abbrev pub nth_draw : ℕ → ℕ → Mt19937 → ℕ
nth_draw k j mt = (getrandbits_u64 k (after k j mt)).0

le_not_lt : {a b : ℕ} → a ≤ b → b < a → ⊥
le_not_lt h k = omega arith

zero_not_pos : (n : ℕ) → eqb n 0 ≡ true → 0 < n → ⊥
zero_not_pos n e pos = ground arith

ltb_false→le : (a b : ℕ) → ltb a b ≡ false → b ≤ a
ltb_false→le a b h = ground arith

draw_below-first :
    (n k j fuel : ℕ) (mt : Mt19937)
    → j < fuel
    → ((i : ℕ) → i < j → n ≤ nth_draw k i mt)
    → nth_draw k j mt < n
    → draw_below fuel n k mt ≡ some (nth_draw k j mt, after k (suc j) mt)
unfolding draw_below after
draw_below-first n k j zero mt enough rejected taken = absurd (omega arith)
draw_below-first n k zero (suc fuel) mt enough rejected taken =
    if_both (λ o. o ≡ some (nth_draw k zero mt, after k (suc zero) mt))
      (ltb (getrandbits_u64 k mt).0 n) (λ e. refl)
      (λ e. absurd (le_not_lt (ltb_false→le (getrandbits_u64 k mt).0 n e) taken))
draw_below-first n k (suc j) (suc fuel) mt enough rejected taken =
    if_both (λ o. o ≡ some (nth_draw k (suc j) mt, after k (suc (suc j)) mt))
      (ltb (getrandbits_u64 k mt).0 n)
      (λ e. absurd (le_not_lt (rejected 0 (omega arith)) (ltb→lt (getrandbits_u64 k mt).0 n e)))
      (λ e.
        draw_below-first n k j fuel (getrandbits_u64 k mt).1 (omega arith)
          (λ i lt. rejected (suc i) (omega arith)) taken)

-- For a bound above zero, where some draws of as many bits as the bound has are at or above it and the
-- next is below, more rounds than there are such draws return the next, with the generator behind it.
pub randbelow-first :
    (n j fuel : ℕ) (mt : Mt19937)
    → 0 < n
    → j < fuel
    → ((i : ℕ) → i < j → n ≤ nth_draw (bit_length n) i mt)
    → nth_draw (bit_length n) j mt < n
    → randbelow fuel n mt ≡ some (nth_draw (bit_length n) j mt, after (bit_length n) (suc j) mt)
unfolding randbelow
randbelow-first n j fuel mt pos enough rejected taken =
    if_both (λ o. o ≡ some (nth_draw (bit_length n) j mt, after (bit_length n) (suc j) mt))
      (eqb n 0) (λ e. absurd (zero_not_pos n e pos))
      (λ e. draw_below-first n (bit_length n) j fuel mt enough rejected taken)
