-- ===== src/Room/Checks/Again.antt =====
-- crates/pahoa-room/src/room.rs: checks that are sent again.
use pahoa.Prelude.{ℕ, true, List, [], ◌∷◌, ◌≡◌, refl, ap, ◌∙◌, arith}
use pahoa.Prelude.Int.{ℤ}
use pahoa.Prelude.Equality.{nat_eq, int_eq, pair_eq, contains, beq_refl}
use pahoa.Prelude.Dict.{Dict, insert-lookup}
use pahoa.Prelude.Sorting.{dedup_sorted, sort_by}
use pahoa.Multidata.Locations.{contains as has_location}
use pahoa.Room.Hints.{SlotKey}
use pahoa.Room.Hints.Collect.{MultiData}
use pahoa.Room.State.{World, checks_of, is_checked, count_redundant, location_check}
use pahoa.Room.Checks.{
  split_fresh, sorted_fresh, touch_checks, apply_fresh, register_location_checks,
}
use pahoa.Room.Checks.Fresh.{all_old, split_fresh-all_old}
use pahoa.Room.Checks.Registered.{
  is_checked-register_location_checks, register_location_checks-seed, HasChecks,
  register_location_checks-HasChecks,
}

touch_checks-HasChecks : (key : SlotKey) (w : World) → HasChecks key w.room → touch_checks key w ≡ w
unfolding touch_checks
touch_checks-HasChecks key w h =
    ap (λ (d : Dict SlotKey (List ℤ)). with_checks d)
      (insert-lookup key (checks_of w.room key) w.room.location_checks h)
  where
    with_checks : Dict SlotKey (List ℤ) → World
    with_checks d = record w { room = record w.room { location_checks = d } }

all_old-intro :
    (w : World) (key : SlotKey) (ls : List ℤ)
    → ((l : ℤ)
        → contains ls l ≡ true
        → has_location w.room.seed.locations key.1 l ≡ true
        → is_checked w.room key l ≡ true)
    → all_old w.room.seed key.1 (checks_of w.room key) ls ≡ true
unfolding all_old is_checked contains
all_old-intro w key [] h = refl
all_old-intro w key (l ∷ ls) h = ground (
  arith,
  h l (ground (arith, int_eq.beq_iff l l)),
  all_old-intro w key ls (λ k e. h k (ground arith)),
)

module _ (percent : ℕ → ℕ → ℤ) where
  -- A slot that has sent checks before, and now sends only known locations that are checked already
  -- and locations that are not known, changes nothing but the count of its repeats.
  pub register_location_checks-again :
      (key : SlotKey) (ls : List ℤ) (w : World)
      → HasChecks key w.room
      → ((l : ℤ)
          → contains ls l ≡ true
          → has_location w.room.seed.locations key.1 l ≡ true
          → is_checked w.room key l ≡ true)
      → register_location_checks percent key ls w
        ≡ count_redundant key location_check
            (split_fresh w.room.seed key.1 (checks_of w.room key) ls).1
            w
  unfolding register_location_checks sorted_fresh apply_fresh dedup_sorted sort_by
  register_location_checks-again key ls w h old =
      let split = split_fresh w.room.seed key.1 (checks_of w.room key) ls in
      ap
        (λ fresh.
          apply_fresh percent key (sorted_fresh fresh)
            (count_redundant key location_check split.1 (touch_checks key w)))
        (split_fresh-all_old w.room.seed key.1 (checks_of w.room key) ls
          (all_old-intro w key ls old))
      ∙ ap (count_redundant key location_check split.1) (touch_checks-HasChecks key w h)

  -- Sending the same checks a second time changes nothing but the count of repeats.
  pub register_location_checks-register_location_checks :
      (key : SlotKey) (ls : List ℤ) (w : World)
      → let v = register_location_checks percent key ls w in
        register_location_checks percent key ls v
        ≡ count_redundant key location_check
            (split_fresh v.room.seed key.1 (checks_of v.room key) ls).1
            v
  register_location_checks-register_location_checks key ls w =
      register_location_checks-again key ls (register_location_checks percent key ls w)
        (register_location_checks-HasChecks percent key ls w)
        (λ l c h. ground (
          arith,
          is_checked-register_location_checks percent key key ls w l,
          beq_refl key,
          ap (λ (seed : MultiData). has_location seed.locations key.1 l)
              (register_location_checks-seed percent key ls w),
        ))
