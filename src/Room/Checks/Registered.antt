-- ===== src/Room/Checks/Registered.antt =====
-- crates/pahoa-room/src/room.rs: what is checked after a registration.
use pahoa.Prelude.{
  ℕ, ◌&&◌, ◌||◌, List, [], ◌∷◌, ◌≡◌, refl, sym, ap, ◌∙◌, arith, some, if◌then◌else◌, if_both, subst,
}
use pahoa.Prelude.Int.{ℤ}
use pahoa.Prelude.Equality.{◌==◌, nat_eq, int_eq, pair_eq, contains, beq_refl}
use pahoa.Prelude.Dict.{Dict, lookup, insert, get_or, get_or-insert, lookup-insert}
use pahoa.Prelude.Sorting.{extend_set, contains-extend_set}
use pahoa.Multidata.Locations.{contains as has_location}
use pahoa.Room.Hints.{SlotKey}
use pahoa.Room.State.{Room, World, checks_of, is_checked, count_redundant, location_check, Kind}
use pahoa.Room.Checks.{
  split_fresh, sorted_fresh, touch_checks, store_fresh, apply_fresh, register_location_checks,
}
use pahoa.Room.Checks.Fresh.{contains-sorted_fresh, contains-split_fresh}
use pahoa.Room.Checks.Frame.{apply_fresh-SameButDeliveries}

pub count_redundant-room :
    (key : SlotKey) (kind : Kind) (n : ℕ) (w : World) → (count_redundant key kind n w).room ≡ w.room
unfolding count_redundant
count_redundant-room key kind n w =
    if_both (λ (v : World). v.room ≡ w.room) (n == 0) (λ e. refl) (λ e. refl)

same_or :
    (key other : SlotKey) (w : World)
    → (if key == other then checks_of w.room key else checks_of w.room other)
      ≡ checks_of w.room other
same_or key other w =
    if_both (λ (ls : List ℤ). ls ≡ checks_of w.room other) (key == other)
      (λ e. ap (checks_of w.room) ((pair_eq.beq_iff key other).0 e)) (λ e. refl)

checks_of-touch_checks :
    (key other : SlotKey) (w : World)
    → checks_of (touch_checks key w).room other ≡ checks_of w.room other
unfolding touch_checks
checks_of-touch_checks key other w =
    get_or-insert other key (checks_of w.room key) [] w.room.location_checks ∙ same_or key other w

-- The slot has an entry, if an empty one.
abbrev pub HasEntry : SlotKey → Dict SlotKey (List ℤ) → Type 0
HasEntry key d = lookup key d ≡ some (get_or d key [])

abbrev pub HasChecks : SlotKey → Room → Type 0
HasChecks key room = HasEntry key room.location_checks

insert-HasEntry :
    (key : SlotKey) (ls : List ℤ) (d : Dict SlotKey (List ℤ)) → HasEntry key (insert key ls d)
insert-HasEntry key ls d = ground (arith, lookup-insert key key ls d, beq_refl key)

module _ (percent : ℕ → ℕ → ℤ) where
  checks_of-apply_fresh :
      (key other : SlotKey) (fresh : List ℤ) (w : World)
      → checks_of (apply_fresh percent key fresh w).room other
        ≡ (if key == other then extend_set (checks_of w.room key) fresh else checks_of w.room other)
  unfolding apply_fresh extend_set
  checks_of-apply_fresh key other [] w = sym (same_or key other w)
  checks_of-apply_fresh key other (l ∷ ls) w =
      ap (λ (r : Room). checks_of r other) (apply_fresh-SameButDeliveries percent key l ls w)
      ∙ get_or-insert other key (extend_set (checks_of w.room key) (l ∷ ls)) []
          w.room.location_checks

  apply_fresh-seed :
      (key : SlotKey) (fresh : List ℤ) (w : World)
      → (apply_fresh percent key fresh w).room.seed ≡ w.room.seed
  unfolding apply_fresh store_fresh
  apply_fresh-seed key [] w = refl
  apply_fresh-seed key (l ∷ ls) w =
      ap (λ (r : Room). r.seed) (apply_fresh-SameButDeliveries percent key l ls w)

  apply_fresh-HasChecks :
      (key : SlotKey) (fresh : List ℤ) (w : World)
      → HasChecks key w.room
      → HasChecks key (apply_fresh percent key fresh w).room
  unfolding apply_fresh store_fresh
  apply_fresh-HasChecks key [] w h = h
  apply_fresh-HasChecks key (l ∷ ls) w h =
      subst (HasChecks key) (sym (apply_fresh-SameButDeliveries percent key l ls w))
        (insert-HasEntry key (extend_set (checks_of w.room key) (l ∷ ls)) w.room.location_checks)

  pub checks_of-register_location_checks :
      (key other : SlotKey) (locations : List ℤ) (w : World)
      → checks_of (register_location_checks percent key locations w).room other ≡ (
          if key == other
          then extend_set
              (checks_of w.room key)
              (sorted_fresh (split_fresh w.room.seed key.1 (checks_of w.room key) locations).0)
          else checks_of w.room other)
  unfolding register_location_checks
  checks_of-register_location_checks key other locations w =
      let split = split_fresh w.room.seed key.1 (checks_of w.room key) locations in
      let counted = count_redundant key location_check split.1 (touch_checks key w) in
      let before : (k : SlotKey) → checks_of counted.room k ≡ checks_of w.room k = λ k.
        ap (λ (r : Room). checks_of r k)
          (count_redundant-room key location_check split.1 (touch_checks key w))
        ∙ checks_of-touch_checks key k w in
      checks_of-apply_fresh key other (sorted_fresh split.0) counted
      ∙ ap
          (λ (x : List ℤ).
            if key == other
            then extend_set x (sorted_fresh split.0)
            else checks_of counted.room other)
          (before key)
      ∙ ap
          (λ (x : List ℤ).
            if key == other then extend_set (checks_of w.room key) (sorted_fresh split.0) else x)
          (before other)

  -- Registering checks makes the slot's known locations among them checked, besides what was
  -- checked before, and changes what is checked for no other slot.
  pub is_checked-register_location_checks :
      (key other : SlotKey) (locations : List ℤ) (w : World) (l : ℤ)
      → is_checked (register_location_checks percent key locations w).room other l ≡ (
          is_checked w.room other l
          || key == other && contains locations l && has_location w.room.seed.locations key.1 l)
  unfolding register_location_checks is_checked
  is_checked-register_location_checks key other locations w l =
      let fresh = (split_fresh w.room.seed key.1 (checks_of w.room key) locations).0 in
      ground (
        arith,
        checks_of-register_location_checks key other locations w,
        pair_eq.beq_iff key other,
        contains-extend_set (sorted_fresh fresh) (checks_of w.room key) l,
        contains-sorted_fresh fresh l,
        contains-split_fresh w.room.seed key.1 (checks_of w.room key) locations l,
      )

  pub register_location_checks-seed :
      (key : SlotKey) (ls : List ℤ) (w : World)
      → (register_location_checks percent key ls w).room.seed ≡ w.room.seed
  unfolding register_location_checks
  register_location_checks-seed key ls w =
      let split = split_fresh w.room.seed key.1 (checks_of w.room key) ls in
      let counted = count_redundant key location_check split.1 (touch_checks key w) in
      apply_fresh-seed key (sorted_fresh split.0) counted
      ∙ ap (λ (r : Room). r.seed)
          (count_redundant-room key location_check split.1 (touch_checks key w))

  pub register_location_checks-HasChecks :
      (key : SlotKey) (ls : List ℤ) (w : World)
      → HasChecks key (register_location_checks percent key ls w).room
  unfolding register_location_checks
  register_location_checks-HasChecks key ls w =
      let split = split_fresh w.room.seed key.1 (checks_of w.room key) ls in
      apply_fresh-HasChecks key (sorted_fresh split.0)
        (count_redundant key location_check split.1 (touch_checks key w))
        (subst (HasChecks key)
          (sym (count_redundant-room key location_check split.1 (touch_checks key w)))
          (insert-HasEntry key (checks_of w.room key) w.room.location_checks))
