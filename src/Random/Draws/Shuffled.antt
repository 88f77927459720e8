-- ===== src/Random/Draws/Shuffled.antt =====
-- crates/pahoa-pyrandom/src/lib.rs: numbers below a bound, and shuffles that lose and add nothing.
use pahoa.Prelude.{
  ℕ, zero, suc, ◌+◌, ◌-◌, ◌<◌, Bool, Option, none, some, List, [], ◌∷◌, length, get_elem?, set, ltb,
  ◌≡◌, refl, ◌∙◌, arith, if◌then◌else◌, if_both, ltb→lt,
}
use pahoa.Random.Twister.{Mt19937}
use pahoa.Random.Draws.{
  getrandbits_u64, draw_below, randbelow, swap, swap_at, shuffle_from, shuffle,
}

-- What a loop of draws returns, if it ends within its rounds, is below the bound.
abbrev Below : ℕ → Option (ℕ × Mt19937) → Type 0
Below n none = Unit
Below n (some (r, mt)) = r < n

draw_below-Below : (fuel n k : ℕ) (mt : Mt19937) → Below n (draw_below fuel n k mt)
unfolding draw_below
draw_below-Below zero n k mt = tt
draw_below-Below (suc fuel) n k mt =
    if_both (Below n) (ltb (getrandbits_u64 k mt).0 n) (λ e. ltb→lt (getrandbits_u64 k mt).0 n e)
      (λ e. draw_below-Below fuel n k (getrandbits_u64 k mt).1)

module _ {ℓ} {A : Type ℓ} (f : A → Bool) where
  abbrev pub weight : A → ℕ
  weight a = if f a then 1 else 0

  -- How many elements have a property.
  unfoldable pub count : List A → ℕ
  count [] = 0
  count (x ∷ xs) = weight x + count xs

  count-set :
      (xs : List A) (i : ℕ) (a v : A)
      → get_elem? xs i ≡ some a
      → count (set xs i v) + weight a ≡ count xs + weight v
  unfolding count
  count-set [] i a v h = absurd (ground (arith, h))
  count-set (x ∷ xs) zero a v h = ground (arith, h)
  count-set (x ∷ xs) (suc i) a v h = omega (arith, count-set xs i a v h)

  get_elem-set :
      (xs : List A) (i j : ℕ) (a b : A)
      → get_elem? xs i ≡ some a
      → get_elem? xs j ≡ some b
      → get_elem? (set xs i b) j ≡ some b
  get_elem-set [] i j a b h k = absurd (ground (arith, h))
  get_elem-set (x ∷ xs) zero zero a b h k = refl
  get_elem-set (x ∷ xs) zero (suc j) a b h k = k
  get_elem-set (x ∷ xs) (suc i) zero a b h k = k
  get_elem-set (x ∷ xs) (suc i) (suc j) a b h k = get_elem-set xs i j a b h k

  count-swap_at :
      (xs : List A) (i j : ℕ) (o p : Option A)
      → get_elem? xs i ≡ o
      → get_elem? xs j ≡ p
      → count (swap_at xs i j o p) ≡ count xs
  count-swap_at xs i j none p h k = refl
  count-swap_at xs i j (some a) none h k = refl
  count-swap_at xs i j (some a) (some b) h k =
      omega
        (arith, count-set xs i a b h, count-set (set xs i b) j b a (get_elem-set xs i j a b h k))

  abbrev SameCount : List A → Option (List A × Mt19937) → Type 0
  SameCount xs none = Unit
  SameCount xs (some (ys, mt)) = count ys ≡ count xs

  SameCount-trans :
      (xs ys : List A)
      → count ys ≡ count xs
      → (o : Option (List A × Mt19937)) → SameCount ys o
      → SameCount xs o
  SameCount-trans xs ys h none s = tt
  SameCount-trans xs ys h (some (zs, mt)) s = s ∙ h

  shuffle_from-SameCount :
      (fuel i : ℕ) (xs : List A) (mt : Mt19937) → SameCount xs (shuffle_from fuel i xs mt)
  unfolding shuffle_from
  shuffle_from-SameCount fuel zero xs mt = refl
  shuffle_from-SameCount fuel (suc i) xs mt = by_draw (randbelow fuel (suc i + 1) mt) (λ j mt'.
      SameCount-trans xs (swap xs (suc i) j)
        (count-swap_at xs (suc i) j (get_elem? xs (suc i)) (get_elem? xs j) refl refl)
        (shuffle_from fuel i (swap xs (suc i) j) mt')
        (shuffle_from-SameCount fuel i (swap xs (suc i) j) mt'))
    where
      by_draw :
          (o : Option (ℕ × Mt19937))
          → ((j : ℕ) (mt' : Mt19937) → SameCount xs (shuffle_from fuel i (swap xs (suc i) j) mt'))
          → SameCount xs
              (elim o [ none ↦ none | some (j, mt') ↦ shuffle_from fuel i (swap xs (suc i) j) mt' ])
      by_draw none g = tt
      by_draw (some (j, mt')) g = g j mt'

  -- Whatever numbers are drawn, a shuffle has each element as often as the list had it.
  pub shuffle-SameCount :
      (fuel : ℕ) (xs : List A) (mt : Mt19937) → SameCount xs (shuffle fuel xs mt)
  unfolding shuffle
  shuffle-SameCount fuel xs mt =
      if_both (SameCount xs) (ltb (length xs) 2) (λ e. refl)
        (λ e. shuffle_from-SameCount fuel (length xs - 1) xs mt)
