-- ===== src/Room/Sweeps/Complete.antt =====
-- crates/pahoa-room/src/room.rs: a release leaves no location of its slot unchecked.
use pahoa.Prelude.{ℕ, Bool, true, ◌||◌, List, [], ◌∷◌, map, All, ◌≡◌, refl, ap, ◌∙◌, arith, subst}
use pahoa.Prelude.Int.{ℤ}
use pahoa.Prelude.Equality.{◌==◌, nat_eq, int_eq, pair_eq, contains, beq_refl}
use pahoa.Multidata.Locations.{LocationEntry, contains as has_location, for_slot}
use pahoa.Multidata.Locations.Known.{KnowsAll}
use pahoa.Room.Hints.{SlotKey}
use pahoa.Room.Hints.Collect.{MultiData}
use pahoa.Room.Effects.{Trigger}
use pahoa.Room.State.{
  World, checks_of, is_checked, unchecked, missing_locations, locations_of, location_of,
}
use pahoa.Room.Checks.{register_location_checks}
use pahoa.Room.Checks.Registered.{
  is_checked-register_location_checks, register_location_checks-seed,
}
use pahoa.Room.Sweeps.{release_player, announce_release, update_checked_locations}

contains-map-All :
    (P : ℤ → Type 0) (es : List LocationEntry)
    → All (λ (e : LocationEntry). P e.location) es
    → (l : ℤ) → contains (map location_of es) l ≡ true
    → P l
unfolding contains
contains-map-All P [] a l h = absurd (ground arith)
contains-map-All P (e ∷ es) a l h =
    if_equal e.location l (contains (map location_of es) l) h (λ same. subst P same a.0)
      (λ later. contains-map-All P es a.1 l later)
  where
    if_equal :
        (k l : ℤ) (rest : Bool)
        → (k == l || rest) ≡ true
        → (k ≡ l → P l)
        → (rest ≡ true → P l)
        → P l
    if_equal k l rest h f g = ground (arith, int_eq.beq_iff k l, f, g)

unchecked-nil :
    (already ls : List ℤ)
    → ((l : ℤ) → contains ls l ≡ true → contains already l ≡ true)
    → unchecked already ls ≡ []
unfolding unchecked contains
unchecked-nil already [] h = refl
unchecked-nil already (l ∷ ls) h = ground (
  arith,
  h l (ground (arith, int_eq.beq_iff l l)),
  unchecked-nil already ls (λ k c. h k (ground arith)),
)

module _ (percent : ℕ → ℕ → ℤ) where
  -- Where a slot's entries in the location table are found under their locations, no location of
  -- the slot is missing after its release, whatever caused it.
  pub missing_locations-release_player :
      (key : SlotKey) (trigger : Trigger) (w : World)
      → KnowsAll w.room.seed.locations
      → missing_locations (release_player percent key trigger w).room key ≡ []
  unfolding missing_locations release_player update_checked_locations is_checked
  missing_locations-release_player key trigger w knows =
      let all = locations_of w.room key.1 in
      let announced = announce_release key trigger w in
      let after = register_location_checks percent key all announced in
      ap
        (λ (seed : MultiData).
          unchecked (checks_of after.room key) (map location_of (for_slot seed.locations key.1)))
        (register_location_checks-seed percent key all announced)
      ∙ unchecked-nil (checks_of after.room key) all (λ l c. ground (
        arith,
        is_checked-register_location_checks percent key key all announced l,
        beq_refl key,
        contains-map-All (λ k. has_location w.room.seed.locations key.1 k ≡ true)
            (for_slot w.room.seed.locations key.1) (knows key.1) l c,
      ))
