-- ===== src/Random/Tests.antt =====
-- The twister seeded by a concrete key.
use pahoa.Prelude.{ℕ, zero, suc, ◌<◌, ◌≤◌, some, List, [], ◌∷◌, ◌-◌, replicate, ◌≡◌, refl, arith}
use pahoa.Random.Draws.{bit_length, getrandbits_u64, randbelow}
use pahoa.Random.Draws.First.{nth_draw, after, randbelow-first}
use pahoa.Random.Twister.{Mt19937, n_words, temper}

abbrev some_key : List ℕ
some_key = 0x123 ∷ 0x234 ∷ 0x345 ∷ 0x456 ∷ []

temper_one : temper 1 ≡ 0x400091
unfolding temper
temper_one = refl

-- Drawn in three bits, the first word gives 6, which is not below 5, and the second, a zero, gives 0.
abbrev ready : Mt19937
ready = record { state = 0xc0000000 ∷ replicate (n_words - 1) 0; index = 0 }

first_rejected : (i : ℕ) → i < 1 → 5 ≤ nth_draw (bit_length 5) i ready
unfolding after getrandbits_u64 bit_length
first_rejected zero lt = omega arith
first_rejected (suc i) lt = absurd (omega arith)

randbelow-first_example :
    randbelow 9 5 ready ≡ some (nth_draw (bit_length 5) 1 ready, after (bit_length 5) 2 ready)
unfolding after getrandbits_u64 bit_length
randbelow-first_example =
    randbelow-first 5 1 9 ready (omega arith) (omega arith) first_rejected (omega arith)
