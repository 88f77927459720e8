-- ===== src/Room/ChooseTests.antt =====
-- The choice among hints, at those of the source's own test.
use pahoa.Prelude.{ℕ, ◌+◌, Bool, true, false, List, [], ◌∷◌, ◌≡◌, refl, map}
use pahoa.Prelude.Int.{ℤ, pos}
use pahoa.Prelude.Equality.{◌==◌, int_eq}
use pahoa.Multidata.Types.{Hint, priority}
use pahoa.Random.Draws.Shuffled.{count}
use pahoa.Room.Hints.Choose.{grant}
use pahoa.Room.Hints.Choose.Earliest.{Yields, IsBefore, grant-IsBefore}
use pahoa.Room.Hints.Choose.Granted.{IsWithin, grant-IsWithin}

abbrev hint_of : ℕ → ℤ → Hint
hint_of receiver location = record {
  receiving_player = receiver;
  finding_player = 1;
  location = location;
  item = pos 1;
  found = false;
  entrance = "";
  item_flags = 0;
  status = priority;
}

abbrev candidates : List Hint
candidates = hint_of 1 (pos 10) ∷ hint_of 2 (pos 20) ∷ hint_of 1 (pos 30) ∷ hint_of 2 (pos 40) ∷ []

abbrev spheres : ℕ → ℤ → ℕ
spheres player location = elim (location == pos 10) [
  | true ↦ 3
  | false ↦ elim (location == pos 20) [ true ↦ 3 | false ↦ 0 ]
]

-- The remote hint of the earliest sphere is granted first, then the local one, then the next sphere.
grant_three : map (λ h. h.location) (grant spheres 3 candidates).0 ≡ pos 40 ∷ pos 30 ∷ pos 20 ∷ []
unfolding grant
grant_three = refl

grant-IsBefore_example : IsBefore (Yields spheres) (grant spheres 3 candidates)
grant-IsBefore_example = grant-IsBefore spheres 3 candidates

grant-IsWithin_example :
    IsWithin 3 (grant spheres 3 candidates)
    × ((f : Hint → Bool)
        → count f (grant spheres 3 candidates).0 + count f (grant spheres 3 candidates).1
          ≡ count f candidates)
grant-IsWithin_example = grant-IsWithin spheres 3 candidates
