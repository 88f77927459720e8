-- ===== src/Prelude/Ordered.antt =====
-- Lists in an order, and sorting into it.
use mathlib.Core.Path.{◌≡◌}
use mathlib.Core.Bool.{Bool, true, false}
use mathlib.Core.List.{List, [], ◌∷◌}
use pahoa.Prelude.Tests.{if_both}
use pahoa.Prelude.Lists.{All}
use pahoa.Prelude.Sorting.{insert_sorted, sort_by}

module _ {ℓ} {A : Type ℓ} where
  -- Each element stands so to each behind it.
  abbrev pub IsOrdered : (A → A → Type 0) → List A → Type 0
  IsOrdered R [] = Unit
  IsOrdered R (x ∷ xs) = All (R x) xs × IsOrdered R xs

  pub All-map : (P Q : A → Type 0) (f : (a : A) → P a → Q a) (xs : List A) → All P xs → All Q xs
  All-map P Q f [] h = tt
  All-map P Q f (x ∷ xs) h = (f x h.0, All-map P Q f xs h.1)

  pub All-of : (P : A → Type 0) (f : (a : A) → P a) (xs : List A) → All P xs
  All-of P f [] = tt
  All-of P f (x ∷ xs) = (f x, All-of P f xs)

  pub IsOrdered-map :
      (R S : A → A → Type 0) (f : (a b : A) → R a b → S a b) (xs : List A)
      → IsOrdered R xs
      → IsOrdered S xs
  IsOrdered-map R S f [] h = tt
  IsOrdered-map R S f (x ∷ xs) h = (All-map (R x) (S x) (f x) xs h.0, IsOrdered-map R S f xs h.1)

  pub IsOrdered-of : (R : A → A → Type 0) (f : (a b : A) → R a b) (xs : List A) → IsOrdered R xs
  IsOrdered-of R f [] = tt
  IsOrdered-of R f (x ∷ xs) = (All-of (R x) (f x) xs, IsOrdered-of R f xs)

  -- Where a test is right for a pair that stands in this order.
  abbrev pub Decides : (A → A → Bool) → (A → A → Type 0) → A → A → Type 0
  Decides leb' R a b = (leb' a b ≡ true → R a b) × (leb' a b ≡ false → R b a)

module _ {ℓ} {A : Type ℓ} (leb' : A → A → Bool) (R : A → A → Type 0)
    (R-trans : (a b c : A) → R a b → R b c → R a c) where
  insert_sorted-keeps :
      (P : A → Type 0) (x : A) (ys : List A) → P x → All P ys → All P (insert_sorted leb' x ys)
  unfolding insert_sorted
  insert_sorted-keeps P x [] p h = (p, tt)
  insert_sorted-keeps P x (y ∷ ys) p h =
      if_both (All P) (leb' x y) (λ e. (p, h)) (λ e. (h.0, insert_sorted-keeps P x ys p h.1))

  pub sort_by-keeps : (P : A → Type 0) (xs : List A) → All P xs → All P (sort_by leb' xs)
  unfolding sort_by
  sort_by-keeps P [] h = tt
  sort_by-keeps P (x ∷ xs) h =
      insert_sorted-keeps P x (sort_by leb' xs) h.0 (sort_by-keeps P xs h.1)

  insert_sorted-IsOrdered :
      (x : A) (ys : List A)
      → All (Decides leb' R x) ys
      → IsOrdered R ys
      → IsOrdered R (insert_sorted leb' x ys)
  unfolding insert_sorted
  insert_sorted-IsOrdered x [] d h = (tt, tt)
  insert_sorted-IsOrdered x (y ∷ ys) d h =
      if_both (IsOrdered R) (leb' x y)
        (λ e. ((d.0.0 e, All-map (R y) (R x) (λ b. R-trans x y b (d.0.0 e)) ys h.0), h))
        (λ e. (insert_sorted-keeps (R y) x ys (d.0.1 e) h.0, insert_sorted-IsOrdered x ys d.1 h.1))

  -- A sort that keeps the order of what it does not tell apart.
  pub sort_by-IsOrdered :
      (xs : List A) → IsOrdered (Decides leb' R) xs → IsOrdered R (sort_by leb' xs)
  unfolding sort_by
  sort_by-IsOrdered [] h = tt
  sort_by-IsOrdered (x ∷ xs) h =
      insert_sorted-IsOrdered x (sort_by leb' xs) (sort_by-keeps (Decides leb' R x) xs h.0)
        (sort_by-IsOrdered xs h.1)
