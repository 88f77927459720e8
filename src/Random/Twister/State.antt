-- ===== src/Random/Twister/State.antt =====
-- crates/pahoa-pyrandom/src/mt19937.rs: the shape of the generator's state, and saving it.
use Prim.Native.Nat.{max}
use pahoa.Prelude.{
  none, eqb_iff, ℕ, zero, suc, ◌+◌, ◌-◌, ◌%◌, ◌^◌, ◌≤◌, ◌<◌, Bool, true, false, not, some, List, [],
  ◌∷◌, ◌++◌, length, take, set, replicate, ltb, leb, eqb, ◌≡◌, refl, ap, sym, ◌∙◌, arith,
  length-set, length-append, if_both, length-replicate, take-append, if◌then◌else◌,
}
use pahoa.Random.Twister.{
  n_words, Mt19937, word, wrap_first, seed_from, from_u32, mix_key, mix_index, from_key, or_zero,
  regenerate_from, regenerate, draw, next_u32, to_state, from_state,
}

-- The state has all its words, and the index is within them or at their end.
unfoldable pub IsReady : Mt19937 → Type 0
IsReady mt = (length mt.state ≡ n_words) × (mt.index ≤ n_words)

length-seed_from :
    (rounds i : ℕ) (state : List ℕ) → length (seed_from rounds i state) ≡ length state
unfolding seed_from
length-seed_from zero i state = refl
length-seed_from (suc rounds) i state =
    length-seed_from rounds (suc i) (set state i _) ∙ length-set state i _

length-wrap_first :
    (b : Bool) (state : List ℕ) (i : ℕ) → length (wrap_first b state i).0 ≡ length state
length-wrap_first true state i = length-set state 0 _
length-wrap_first false state i = refl

length-mix_key :
    (k : ℕ) (key : List ℕ) (i j : ℕ) (state : List ℕ)
    → length (mix_key k key i j state).0 ≡ length state
unfolding mix_key
length-mix_key zero key i j state = refl
length-mix_key (suc k) key i j state =
    length-mix_key k key _ _ _
    ∙ length-wrap_first (leb n_words (suc i)) (set state i _) (suc i)
    ∙ length-set state i _

length-mix_index : (k i : ℕ) (state : List ℕ) → length (mix_index k i state) ≡ length state
unfolding mix_index
length-mix_index zero i state = refl
length-mix_index (suc k) i state =
    length-mix_index k _ _
    ∙ length-wrap_first (leb n_words (suc i)) (set state i _) (suc i)
    ∙ length-set state i _

length-regenerate_from :
    (rounds i : ℕ) (state : List ℕ) → length (regenerate_from rounds i state) ≡ length state
unfolding regenerate_from
length-regenerate_from zero i state = refl
length-regenerate_from (suc rounds) i state =
    length-regenerate_from rounds (suc i) _ ∙ length-set state i _

length-from_u32 : (seed : ℕ) → length (from_u32 seed).state ≡ n_words
unfolding from_u32
length-from_u32 seed =
    length-seed_from (n_words - 1) 1 (set (replicate n_words 0) 0 seed)
    ∙ length-set (replicate {A = ℕ} n_words 0) 0 seed
    ∙ length-replicate {A = ℕ} n_words 0

-- A generator that is seeded by any key is ready.
pub from_key-IsReady : (key : List ℕ) → IsReady (from_key key)
unfolding from_key IsReady
from_key-IsReady key =
    let given = or_zero key in
    let mixed : List ℕ × ℕ =
      mix_key (max n_words (length given)) given 1 0 (from_u32 19650218).state in
    (
      length-set (mix_index (n_words - 1) mixed.1 mixed.0) 0 0x80000000
          ∙ length-mix_index (n_words - 1) mixed.1 mixed.0
          ∙ length-mix_key (max n_words (length given)) given 1 0 (from_u32 19650218).state
          ∙ length-from_u32 19650218,
      omega arith,
    )

draw-IsReady : (mt : Mt19937) → length mt.state ≡ n_words → mt.index < n_words → IsReady (draw mt).1
unfolding draw IsReady
draw-IsReady mt l i = (l, omega arith)

-- Drawing a word from a generator that is ready leaves it ready.
pub next_u32-IsReady : (mt : Mt19937) → IsReady mt → IsReady (next_u32 mt).1
unfolding next_u32 IsReady regenerate
next_u32-IsReady mt r =
    if_both (λ (d : ℕ × Mt19937). IsReady d.1) (leb n_words mt.index)
      (λ e.
        draw-IsReady (regenerate mt) (length-regenerate_from n_words 0 mt.state ∙ r.0)
          (omega arith))
      (λ e. draw-IsReady mt r.0 (below n_words mt.index e))
  where
    below : (n i : ℕ) → leb n i ≡ false → i < n
    below n i e = ground arith

take-all : (n : ℕ) (xs : List ℕ) → length xs ≡ n → take n xs ≡ xs
take-all zero [] h = refl
take-all zero (x ∷ xs) h = absurd (omega arith)
take-all (suc n) [] h = refl
take-all (suc n) (x ∷ xs) h = ap (λ l. x ∷ l) (take-all n xs (omega arith))

word-append : (n : ℕ) (xs : List ℕ) (w : ℕ) → length xs ≡ n → word (xs ++ w ∷ []) n ≡ w
word-append zero [] w h = refl
word-append zero (x ∷ xs) w h = absurd (omega arith)
word-append (suc n) [] w h = absurd (omega arith)
word-append (suc n) (x ∷ xs) w h = word-append n xs w (omega arith)

take_back : (n : ℕ) (xs : List ℕ) (w : ℕ) → length xs ≡ n → take n (xs ++ w ∷ []) ≡ xs
take_back n xs w h = ap (λ k. take k (xs ++ w ∷ [])) (sym h) ∙ take-append xs (w ∷ [])

restore :
    (n : ℕ) (mt : Mt19937) (words : List ℕ)
    → length words ≡ n + 1
    → word words n ≡ mt.index
    → take n words ≡ mt.state
    → mt.index ≤ n
    → (if not (eqb (length words) (n + 1))
        then none
        else if ltb n (word words n)
        then none
        else some (record { state = take n words; index = word words n }))
      ≡ some mt
restore n mt words l w t i =
    rw (w, t, (eqb_iff (length words) (n + 1)).1 l, in_range n mt.index i) refl
  where
    in_range : (n i : ℕ) → i ≤ n → ltb n i ≡ false
    in_range n i h = ground arith

-- A generator that is ready comes back from its saved words as it was.
pub from_state-to_state : (mt : Mt19937) → IsReady mt → from_state (to_state mt) ≡ some mt
unfolding from_state to_state IsReady
from_state-to_state mt r = rw (take-all n_words mt.state r.0) (
    restore n_words mt (mt.state ++ mt.index % 2 ^ 32 ∷ [])
      (length-append mt.state (mt.index % 2 ^ 32 ∷ []) ∙ ap (λ k. k + 1) r.0)
      (word-append n_words mt.state (mt.index % 2 ^ 32) r.0 ∙ small mt.index r.1)
      (take_back n_words mt.state (mt.index % 2 ^ 32) r.0) r.1)
  where
    small : (i : ℕ) → i ≤ 624 → i % 2 ^ 32 ≡ i
    small i h = omega arith
