-- ===== src/Prelude/Sorting.antt =====
-- `sort_unstable` and `dedup`, for any type with a test of order, and inserting into a hash set.
use mathlib.Core.Path.{◌≡◌, refl}
use mathlib.Core.Bool.{Bool, false, ◌||◌}
use mathlib.Core.List.{List, [], ◌∷◌, ◌++◌}
use native.Mathlib.Omega.{arith}
use mathlib.Core.Path.{subst}
use mathlib.Core.Logic.{inl, inr}
use pahoa.Prelude.Tests.{if◌then◌else◌, Bool-cases}
use pahoa.Prelude.Lists.{All}
use pahoa.Prelude.Equality.{Eq, ◌==◌, contains, contains-append}

module _ {ℓ} {A : Type ℓ} (leb : A → A → Bool) where
  unfoldable pub insert_sorted : A → List A → List A
  insert_sorted x [] = x ∷ []
  insert_sorted x (y ∷ ys) = if leb x y then x ∷ y ∷ ys else y ∷ insert_sorted x ys

  unfoldable pub sort_by : List A → List A
  unfolding insert_sorted
  sort_by [] = []
  sort_by (x ∷ xs) = insert_sorted x (sort_by xs)

  insert_sorted-All {κ} :
      (P : A → Type κ) (x : A) (ys : List A) → All P (insert_sorted x ys) → P x × All P ys
  unfolding insert_sorted
  insert_sorted-All P x [] a = (a.0, tt)
  insert_sorted-All P x (y ∷ ys) a = elim (Bool-cases (leb x y)) [
    | inl b ↦ subst (λ c. All P (if c then x ∷ y ∷ ys else y ∷ insert_sorted x ys)) b a
    | inr b ↦
        later (subst (λ c. All P (if c then x ∷ y ∷ ys else y ∷ insert_sorted x ys)) b a)
          (insert_sorted-All P x ys)
  ]
    where
      later :
          P y × All P (insert_sorted x ys)
          → (All P (insert_sorted x ys) → P x × All P ys)
          → P x × (P y × All P ys)
      later h f = let r = f h.1 in (r.0, (h.0, r.1))

  -- What holds of all of a sorted list holds of all of the list.
  pub All-sort_by {κ} : (P : A → Type κ) (xs : List A) → All P (sort_by xs) → All P xs
  unfolding sort_by
  All-sort_by P [] a = tt
  All-sort_by P (x ∷ xs) a =
      let s = insert_sorted-All P x (sort_by xs) a in (s.0, All-sort_by P xs s.1)

module _ {ℓ} {A : Type ℓ} ⦃e : Eq A⦄ where
  -- Equal neighbours become one.
  unfoldable pub dedup_sorted : List A → List A
  dedup_sorted [] = []
  dedup_sorted (x ∷ []) = x ∷ []
  dedup_sorted (x ∷ y ∷ ys) = let rest = dedup_sorted (y ∷ ys) in if x == y then rest else x ∷ rest

  -- A set is a list without repeats, in the order of insertion.
  unfoldable pub insert_set : List A → A → List A
  unfolding contains
  insert_set s x = if contains s x then s else s ++ x ∷ []

  unfoldable pub extend_set : List A → List A → List A
  unfolding insert_set
  extend_set s [] = s
  extend_set s (x ∷ xs) = extend_set (insert_set s x) xs

  unfoldable pub remove_set : List A → A → List A
  remove_set [] x = []
  remove_set (y ∷ s) x = let rest = remove_set s x in if y == x then rest else y ∷ rest

  pub contains-insert_sorted :
      (leb : A → A → Bool) (x : A) (ys : List A) (a : A)
      → contains (insert_sorted leb x ys) a ≡ (x == a || contains ys a)
  unfolding insert_sorted contains
  contains-insert_sorted leb x [] a = refl
  contains-insert_sorted leb x (y ∷ ys) a = ground (arith, contains-insert_sorted leb x ys a)

  pub contains-sort_by :
      (leb : A → A → Bool) (xs : List A) (a : A) → contains (sort_by leb xs) a ≡ contains xs a
  unfolding sort_by contains
  contains-sort_by leb [] a = refl
  contains-sort_by leb (x ∷ xs) a =
      ground (arith, contains-insert_sorted leb x (sort_by leb xs) a, contains-sort_by leb xs a)

  pub contains-dedup_sorted : (xs : List A) (a : A) → contains (dedup_sorted xs) a ≡ contains xs a
  unfolding dedup_sorted contains
  contains-dedup_sorted [] a = refl
  contains-dedup_sorted (x ∷ []) a = refl
  contains-dedup_sorted (x ∷ y ∷ ys) a =
      ground (arith, e.beq_iff x y, contains-dedup_sorted (y ∷ ys) a)

  pub contains-insert_set :
      (s : List A) (x a : A) → contains (insert_set s x) a ≡ (contains s a || x == a)
  unfolding insert_set contains
  contains-insert_set s x a = ground (arith, e.beq_iff x a, contains-append s (x ∷ []) a)

  pub contains-extend_set :
      (xs s : List A) (a : A) → contains (extend_set s xs) a ≡ (contains s a || contains xs a)
  unfolding extend_set contains
  contains-extend_set [] s a = ground arith
  contains-extend_set (x ∷ xs) s a =
      ground (arith, contains-extend_set xs (insert_set s x) a, contains-insert_set s x a)

  -- No element twice.
  unfoldable pub IsSetList : List A → Type 0
  IsSetList [] = Unit
  IsSetList (x ∷ xs) = (contains xs x ≡ false) × IsSetList xs

  IsSetList-append :
      (s : List A) (x : A) → contains s x ≡ false → IsSetList s → IsSetList (s ++ x ∷ [])
  unfolding IsSetList contains
  IsSetList-append [] x h m = (refl, tt)
  IsSetList-append (y ∷ s) x h m = (
    ground (arith, e.beq_iff x y, e.beq_iff y x, contains-append s (x ∷ []) y, m.0),
    IsSetList-append s x (ground arith) m.1,
  )

  pub insert_set-IsSetList : (s : List A) (x : A) → IsSetList s → IsSetList (insert_set s x)
  unfolding insert_set
  insert_set-IsSetList s x m = ground (arith, IsSetList-append s x)

  pub extend_set-IsSetList : (xs s : List A) → IsSetList s → IsSetList (extend_set s xs)
  unfolding extend_set
  extend_set-IsSetList [] s m = m
  extend_set-IsSetList (x ∷ xs) s m =
      extend_set-IsSetList xs (insert_set s x) (insert_set-IsSetList s x m)
