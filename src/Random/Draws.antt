-- ===== src/Random/Draws.antt =====
-- crates/pahoa-pyrandom/src/lib.rs: what CPython's `random.Random` makes of the twister's words.
pub mod First
pub mod Shuffled
use Prim.Native.Nat.{bit_or}
use pahoa.Prelude.{
  ℕ, zero, suc, ◌+◌, ◌-◌, ◌*◌, ◌/◌, ◌%◌, ◌^◌, Bool, true, false, Option, none, some, List, [], ◌∷◌,
  ◌++◌, length, take, drop, get_elem?, set, ltb, leb, eqb, if◌then◌else◌,
}
use pahoa.Random.Twister.{Mt19937, next_u32, from_key, word}

-- `while le.last() == Some(&0) { le.pop(); }`
abbrev pub strip_with : ℕ → List ℕ → List ℕ
strip_with b [] = if eqb b 0 then [] else b ∷ []
strip_with b (c ∷ cs) = b ∷ c ∷ cs

unfoldable pub strip_zeros : List ℕ → List ℕ
strip_zeros [] = []
strip_zeros (b ∷ bs) = strip_with b (strip_zeros bs)

unfoldable pub reverse_onto : List ℕ → List ℕ → List ℕ
reverse_onto [] acc = acc
reverse_onto (b ∷ bs) acc = reverse_onto bs (b ∷ acc)

-- `u32::from_le_bytes`, of up to four bytes at the front.
abbrev pub le_word : List ℕ → ℕ
le_word bs = word bs 0 + word bs 1 * 2 ^ 8 + word bs 2 * 2 ^ 16 + word bs 3 * 2 ^ 24

-- `chunks(4)`, of which there are no more than there are bytes.
unfoldable pub le_words : ℕ → List ℕ → List ℕ
le_words zero bs = []
le_words (suc fuel) [] = []
le_words (suc fuel) (b ∷ bs) = le_word (b ∷ bs) ∷ le_words fuel (drop 4 (b ∷ bs))

abbrev pub or_zero_word : List ℕ → List ℕ
or_zero_word [] = 0 ∷ []
or_zero_word (w ∷ ws) = w ∷ ws

unfoldable pub seed_be_bytes : List ℕ → Mt19937
unfolding strip_zeros reverse_onto le_words
seed_be_bytes be =
    let le = strip_zeros (reverse_onto be []) in from_key (or_zero_word (le_words (length le) le))

-- `sha512` is that of the sha2 crate, and a string is its bytes.
module _ (sha512 : List ℕ → List ℕ) where
  unfoldable pub seed_str : List ℕ → Mt19937
  unfolding seed_be_bytes
  seed_str bytes = seed_be_bytes (bytes ++ sha512 bytes)

-- The top bits of a word: `w >> (32 - k)`.
abbrev pub top_bits : ℕ → ℕ → ℕ
top_bits w k = if ltb k 32 then w / 2 ^ (32 - k) else w

-- The words still to draw, the least significant first.
unfoldable pub draw_words : ℕ → ℕ → Mt19937 → List ℕ × Mt19937
unfolding next_u32
draw_words zero remaining mt = ([], mt)
draw_words (suc words) remaining mt =
    let (w, mt') = next_u32 mt in
    let (ws, mt'') = draw_words words (remaining - 32) mt' in (top_bits w remaining ∷ ws, mt'')

unfoldable pub getrandbits_words : ℕ → Mt19937 → List ℕ × Mt19937
unfolding draw_words
getrandbits_words k mt =
    if eqb k 0
    then (0 ∷ [], mt)
    else if leb k 32
    then (let (w, mt') = next_u32 mt in (top_bits w k ∷ [], mt'))
    else draw_words ((k - 1) / 32 + 1) k mt

-- For up to 64 bits; the source panics for more.
unfoldable pub getrandbits_u64 : ℕ → Mt19937 → ℕ × Mt19937
unfolding getrandbits_words
getrandbits_u64 k mt =
    let (words, mt') = getrandbits_words k mt in
    (bit_or (word words 1 * 2 ^ 32) (word words 0), mt')

-- `64 - n.leading_zeros()`
unfoldable pub bit_length_below : ℕ → ℕ → ℕ
bit_length_below zero n = 0
bit_length_below (suc fuel) n =
    let half = bit_length_below fuel (n / 2) in if eqb n 0 then 0 else suc half

unfoldable pub bit_length : ℕ → ℕ
unfolding bit_length_below
bit_length n = bit_length_below 64 n

-- The loop draws until a number is below the bound. How often it does is open, so the rounds are
-- fuel, and `none` stands for a loop that has not ended within them.
unfoldable pub draw_below : ℕ → ℕ → ℕ → Mt19937 → Option (ℕ × Mt19937)
unfolding getrandbits_u64
draw_below zero n k mt = none
draw_below (suc fuel) n k mt =
    let (r, mt') = getrandbits_u64 k mt in
    let later = draw_below fuel n k mt' in if ltb r n then some (r, mt') else later

unfoldable pub randbelow : ℕ → ℕ → Mt19937 → Option (ℕ × Mt19937)
unfolding draw_below bit_length
randbelow fuel n mt = if eqb n 0 then some (0, mt) else draw_below fuel n (bit_length n) mt

module _ {ℓ} {A : Type ℓ} where
  -- Both indices are within the slice.
  abbrev pub swap_at : List A → ℕ → ℕ → Option A → Option A → List A
  swap_at xs i j (some a) (some b) = set (set xs i b) j a
  swap_at xs i j _ _ = xs

  abbrev pub swap : List A → ℕ → ℕ → List A
  swap xs i j = swap_at xs i j (get_elem? xs i) (get_elem? xs j)

  -- `for i in (1..x.len()).rev()`, from the index `i` down.
  unfoldable pub shuffle_from : ℕ → ℕ → List A → Mt19937 → Option (List A × Mt19937)
  unfolding randbelow
  shuffle_from fuel zero xs mt = some (xs, mt)
  shuffle_from fuel (suc i) xs mt = elim (randbelow fuel (suc i + 1) mt) [
    | none ↦ none
    | some (j, mt') ↦ shuffle_from fuel i (swap xs (suc i) j) mt'
  ]

  unfoldable pub shuffle : ℕ → List A → Mt19937 → Option (List A × Mt19937)
  unfolding shuffle_from
  shuffle fuel xs mt =
      if ltb (length xs) 2 then some (xs, mt) else shuffle_from fuel (length xs - 1) xs mt
