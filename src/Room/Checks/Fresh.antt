-- ===== src/Room/Checks/Fresh.antt =====
-- crates/pahoa-room/src/room.rs: which of the locations that a client sends are new.
use pahoa.Prelude.{ℕ, Bool, true, not, ◌&&◌, ◌||◌, List, [], ◌∷◌, ◌≡◌, refl, ◌∙◌, arith}
use pahoa.Prelude.Int.{ℤ}
use pahoa.Prelude.Equality.{int_eq, contains}
use pahoa.Prelude.Sorting.{sort_by, contains-sort_by, contains-dedup_sorted}
use pahoa.Multidata.Locations.{contains as has_location}
use pahoa.Room.Hints.Collect.{MultiData}
use pahoa.Room.Checks.{split_fresh, sorted_fresh, int_leb}

pub contains-sorted_fresh : (ls : List ℤ) (l : ℤ) → contains (sorted_fresh ls) l ≡ contains ls l
unfolding sorted_fresh
contains-sorted_fresh ls l =
    contains-dedup_sorted (sort_by int_leb ls) l ∙ contains-sort_by int_leb ls l

module _ (seed : MultiData) (slot : ℕ) (already : List ℤ) where
  pub contains-split_fresh :
      (ls : List ℤ) (l : ℤ)
      → contains (split_fresh seed slot already ls).0 l
        ≡ (contains ls l && has_location seed.locations slot l && not (contains already l))
  unfolding split_fresh contains
  contains-split_fresh [] l = refl
  contains-split_fresh (k ∷ ls) l = ground (arith, int_eq.beq_iff k l, contains-split_fresh ls l)

  -- Where nothing is new, nothing is left after the split.
  unfoldable pub all_old : List ℤ → Bool
  all_old [] = true
  all_old (l ∷ ls) = (not (has_location seed.locations slot l) || contains already l) && all_old ls

  pub split_fresh-all_old :
      (ls : List ℤ) → all_old ls ≡ true → (split_fresh seed slot already ls).0 ≡ []
  unfolding split_fresh all_old
  split_fresh-all_old [] h = refl
  split_fresh-all_old (l ∷ ls) h = ground (arith, split_fresh-all_old ls)
