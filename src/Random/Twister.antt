-- ===== src/Random/Twister.antt =====
-- crates/pahoa-pyrandom/src/mt19937.rs: the Mersenne Twister. Words are numbers below 2^32.
pub mod State
use Prim.Native.Nat.{bit_and, bit_or, bit_xor, max}
use pahoa.Prelude.{
  ℕ, zero, suc, ◌+◌, ◌-◌, ◌*◌, ◌/◌, ◌%◌, ◌^◌, ◌≤◌, Bool, true, false, not, ◌||◌, Option, none, some,
  List, [], ◌∷◌, ◌++◌, length, take, drop, get_elem?, set, replicate, ltb, leb, eqb, ◌≡◌, refl, ap,
  arith, length-set, length-append, length-replicate, take-append, drop-append, if◌then◌else◌,
}

abbrev pub n_words : ℕ
n_words = 624

abbrev pub m_words : ℕ
m_words = 397

pub record Mt19937 : Type 0 where
  pub state : List ℕ
  pub index : ℕ

-- Reading a word; the indices that are read are in range.
abbrev pub word? : Option ℕ → ℕ
word? none = 0
word? (some w) = w

abbrev pub word : List ℕ → ℕ → ℕ
word state i = word? (get_elem? state i)

abbrev pub scramble : ℕ → ℕ
scramble prev = bit_xor prev (prev / 2 ^ 30)

-- `for i in 1..N`, with the number of rounds to go.
unfoldable pub seed_from : ℕ → ℕ → List ℕ → List ℕ
seed_from zero i state = state
seed_from (suc rounds) i state =
    seed_from rounds (suc i)
      (set state i ((1812433253 * scramble (word state (i - 1)) + i) % 2 ^ 32))

unfoldable pub from_u32 : ℕ → Mt19937
unfolding seed_from
from_u32 seed = record {
  state = seed_from (n_words - 1) 1 (set (replicate n_words 0) 0 seed);
  index = n_words;
}

-- `if i >= N`, with the state and the index behind it.
abbrev pub wrap_first : Bool → List ℕ → ℕ → List ℕ × ℕ
wrap_first true state i = (set state 0 (word state (n_words - 1)), 1)
wrap_first false state i = (state, i)

unfoldable pub mix_key : ℕ → List ℕ → ℕ → ℕ → List ℕ → List ℕ × ℕ
mix_key zero key i j state = (state, i)
mix_key (suc k) key i j state =
    let mixed =
      (bit_xor (word state i) (scramble (word state (i - 1)) * 1664525 % 2 ^ 32) + word key j + j)
      % 2 ^ 32 in
    let (state', i') = wrap_first (leb n_words (suc i)) (set state i mixed) (suc i) in
    mix_key k key i' (if leb (length key) (suc j) then 0 else suc j) state'

unfoldable pub mix_index : ℕ → ℕ → List ℕ → List ℕ
mix_index zero i state = state
mix_index (suc k) i state =
    let mixed =
      (bit_xor (word state i) (scramble (word state (i - 1)) * 1566083941 % 2 ^ 32) + 2 ^ 32 - i)
      % 2 ^ 32 in
    let (state', i') = wrap_first (leb n_words (suc i)) (set state i mixed) (suc i) in
    mix_index k i' state'

abbrev pub or_zero : List ℕ → List ℕ
or_zero [] = 0 ∷ []
or_zero key = key

unfoldable pub from_key : List ℕ → Mt19937
unfolding from_u32 mix_key mix_index
from_key given =
    let key = or_zero given in
    let (state, i) = mix_key (max n_words (length key)) key 1 0 (from_u32 19650218).state in
    record { state = set (mix_index (n_words - 1) i state) 0 0x80000000; index = n_words }

unfoldable pub regenerate_from : ℕ → ℕ → List ℕ → List ℕ
regenerate_from zero i state = state
regenerate_from (suc rounds) i state =
    let y =
      bit_or (bit_and (word state i) 0x80000000)
        (bit_and (word state ((i + 1) % n_words)) 0x7fffffff) in
    let next = bit_xor (word state ((i + m_words) % n_words)) (y / 2) in
    let next' = if eqb (bit_and y 1) 0 then next else bit_xor next 0x9908b0df in
    regenerate_from rounds (suc i) (set state i next')

unfoldable pub regenerate : Mt19937 → Mt19937
unfolding regenerate_from
regenerate mt = record { state = regenerate_from n_words 0 mt.state; index = 0 }

unfoldable pub temper : ℕ → ℕ
temper w =
    let y1 = bit_xor w (w / 2 ^ 11) in
    let y2 = bit_xor y1 (bit_and (y1 * 2 ^ 7 % 2 ^ 32) 0x9d2c5680) in
    let y3 = bit_xor y2 (bit_and (y2 * 2 ^ 15 % 2 ^ 32) 0xefc60000) in bit_xor y3 (y3 / 2 ^ 18)

unfoldable pub draw : Mt19937 → ℕ × Mt19937
unfolding temper
draw mt = (temper (word mt.state mt.index), record mt { index = mt.index + 1 })

unfoldable pub next_u32 : Mt19937 → ℕ × Mt19937
unfolding regenerate draw
next_u32 mt = if leb n_words mt.index then draw (regenerate mt) else draw mt

unfoldable pub to_state : Mt19937 → List ℕ
to_state mt = take n_words mt.state ++ mt.index % 2 ^ 32 ∷ []

unfoldable pub from_state : List ℕ → Option Mt19937
from_state words =
    if not (eqb (length words) (n_words + 1))
    then none
    else if ltb n_words (word words n_words)
    then none
    else some (record { state = take n_words words; index = word words n_words })
