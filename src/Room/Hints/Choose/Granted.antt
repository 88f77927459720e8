-- ===== src/Room/Hints/Choose/Granted.antt =====
-- crates/pahoa-room/src/hints.rs: how many hints are granted, and that none is lost.
use pahoa.Prelude.{
  ℕ, zero, suc, ◌+◌, ◌≤◌, Bool, Option, none, some, List, [], ◌∷◌, length, ◌≡◌, refl, ap, ◌∙◌,
  arith, ◌⊎◌, inl, inr, if_both,
}
use pahoa.Prelude.Int.{ℤ}
use pahoa.Prelude.Sorting.{insert_sorted, sort_by}
use pahoa.Multidata.Types.{Hint}
use pahoa.Random.Draws.Shuffled.{count, weight}
use pahoa.Room.Hints.Choose.{pop, pop_behind, take_popped, take_last, local_leb, later_leb, grant}

module _ {ℓ} {A : Type ℓ} (f : A → Bool) where
  count-insert_sorted :
      (leb' : A → A → Bool) (x : A) (ys : List A)
      → count f (insert_sorted leb' x ys) ≡ weight f x + count f ys
  unfolding insert_sorted count
  count-insert_sorted leb' x [] = refl
  count-insert_sorted leb' x (y ∷ ys) =
      if_both (λ zs. count f zs ≡ weight f x + (weight f y + count f ys)) (leb' x y) (λ e. refl)
        (λ e. omega (arith, count-insert_sorted leb' x ys))

  count-sort_by : (leb' : A → A → Bool) (xs : List A) → count f (sort_by leb' xs) ≡ count f xs
  unfolding sort_by count
  count-sort_by leb' [] = refl
  count-sort_by leb' (x ∷ xs) =
      count-insert_sorted leb' x (sort_by leb' xs)
      ∙ ap (λ n. weight f x + n) (count-sort_by leb' xs)

  abbrev Weighs : ℕ → Option (A × List A) → Type 0
  Weighs n none = 0 ≡ n
  Weighs n (some (last, rest)) = weight f last + count f rest ≡ n

  pop-Weighs : (xs : List A) → Weighs (count f xs) (pop xs)
  unfolding pop count
  pop-Weighs [] = refl
  pop-Weighs (x ∷ xs) = behind (pop xs) (pop-Weighs xs)
    where
      behind :
          (o : Option (A × List A))
          → Weighs (count f xs) o
          → Weighs (weight f x + count f xs) (pop_behind x o)
      behind none k = omega (arith, k)
      behind (some (last, rest)) k = omega (arith, k)

  take_last-count :
      (budget : ℕ) (xs : List A)
      → count f (take_last budget xs).0 + count f (take_last budget xs).1 ≡ count f xs
  unfolding take_last count
  take_last-count zero xs = omega arith
  take_last-count (suc budget) xs = round (pop xs) (pop-Weighs xs) (take_last-count budget)
    where
      round :
          (o : Option (A × List A))
          → Weighs (count f xs) o
          → ((ys : List A)
              → count f (take_last budget ys).0 + count f (take_last budget ys).1 ≡ count f ys)
          → count f (take_popped xs (take_last budget) o).0
              + count f (take_popped xs (take_last budget) o).1
            ≡ count f xs
      round none k g = omega arith
      round (some (last, rest)) k g = omega (arith, k, g rest)

module _ {ℓ} {A : Type ℓ} where
  -- As many as the budget, or all.
  abbrev pub IsWithin : ℕ → List A × List A → Type ℓ
  IsWithin budget (granted, remaining) =
      length granted ≤ budget × ((length granted ≡ budget) ⊎ (remaining ≡ []))

  take_last-IsWithin : (budget : ℕ) (xs : List A) → IsWithin budget (take_last budget xs)
  unfolding take_last pop
  take_last-IsWithin zero xs = (omega arith, inl refl)
  take_last-IsWithin (suc budget) [] = (omega arith, inr refl)
  take_last-IsWithin (suc budget) (x ∷ xs) = round (pop xs) (take_last-IsWithin budget)
    where
      wider :
          (last : A) (o : List A × List A)
          → IsWithin budget o
          → IsWithin (suc budget) (last ∷ o.0, o.1)
      wider last o (le, inl e) = (omega (arith, le), inl (ap suc e))
      wider last o (le, inr e) = (omega (arith, le), inr e)

      round :
          (o : Option (A × List A))
          → ((ys : List A) → IsWithin budget (take_last budget ys))
          → IsWithin (suc budget) (take_popped (x ∷ xs) (take_last budget) (pop_behind x o))
      round none g = wider x (take_last budget []) (g [])
      round (some (last, rest)) g = wider last (take_last budget (x ∷ rest)) (g (x ∷ rest))

-- Of the candidates, as many are granted as the budget says, or fewer and then none remains; and of
-- those with any property, as many are granted or remain as there were.
pub grant-IsWithin :
    (sphere_of : ℕ → ℤ → ℕ) (budget : ℕ) (candidates : List Hint)
    → IsWithin budget (grant sphere_of budget candidates)
      × ((f : Hint → Bool)
          → count f (grant sphere_of budget candidates).0
              + count f (grant sphere_of budget candidates).1
            ≡ count f candidates)
unfolding grant
grant-IsWithin sphere_of budget candidates =
    let first = sort_by local_leb candidates in
    let second = sort_by (later_leb sphere_of) first in
    (
      take_last-IsWithin budget second,
      λ f.
          take_last-count f budget second
          ∙ count-sort_by f (later_leb sphere_of) first
          ∙ count-sort_by f local_leb candidates,
    )
