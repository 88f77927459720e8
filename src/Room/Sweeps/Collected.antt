-- ===== src/Room/Sweeps/Collected.antt =====
-- crates/pahoa-room/src/room.rs: a collect checks every location that holds an item for its slot.
use pahoa.Prelude.{
  ℕ, Bool, true, false, ◌&&◌, ◌||◌, List, [], ◌∷◌, All, ◌≡◌, refl, ap, ◌∙◌, arith, subst,
  if◌then◌else◌, if_both, eqb, eqb_iff, Bool-cases, inl, inr,
}
use pahoa.Prelude.Int.{ℤ}
use pahoa.Prelude.Equality.{◌==◌, nat_eq, int_eq, pair_eq, contains, contains-append}
use pahoa.Prelude.Dict.{get_or}
use pahoa.Multidata.Locations.{LocationEntry, contains as has_location}
use pahoa.Room.Hints.{SlotKey}
use pahoa.Room.Hints.Collect.{MultiData}
use pahoa.Room.Effects.{Trigger}
use pahoa.Room.State.{World, is_checked}
use pahoa.Room.Checks.{register_location_checks}
use pahoa.Room.Checks.Registered.{
  is_checked-register_location_checks, register_location_checks-seed,
}
use pahoa.Room.Sweeps.{
  push_source, by_source, sources_of, register_sources, update_checked_locations, collect_sweep,
  announce_collect, note_collected, collect_groups, collect_inner, collect_player, member_groups,
  all_in,
}

unfoldable in_sources : ℕ → ℤ → List (ℕ × List ℤ) → Bool
unfolding contains
in_sources s l [] = false
in_sources s l ((t, ls) ∷ rest) = t == s && contains ls l || in_sources s l rest

in_sources-push_source :
    (s : ℕ) (l : ℤ) (t : ℕ) (k : ℤ) (sources : List (ℕ × List ℤ))
    → in_sources s l (push_source t k sources) ≡ ((t == s && k == l) || in_sources s l sources)
unfolding in_sources push_source contains
in_sources-push_source s l t k [] = ground arith
in_sources-push_source s l t k ((u, ls) ∷ rest) =
    ground (
      arith,
      contains-append ls (k ∷ []) l,
      int_eq.beq_iff k l,
      in_sources-push_source s l t k rest,
    )

-- Whether an entry for the slot lies with the sender at the location.
unfoldable pub held : ℕ → ℕ → ℤ → List LocationEntry → Bool
held slot s l [] = false
held slot s l (e ∷ es) =
    eqb e.receiver slot && (e.sender == s && e.location == l) || held slot s l es

in_sources-by_source :
    (slot s : ℕ) (l : ℤ) (es : List LocationEntry) (sources : List (ℕ × List ℤ))
    → in_sources s l (by_source slot es sources) ≡ (held slot s l es || in_sources s l sources)
unfolding by_source held
in_sources-by_source slot s l [] sources = refl
in_sources-by_source slot s l (e ∷ es) sources = ground (
  arith,
  in_sources-by_source slot s l es sources,
  in_sources-by_source slot s l es (push_source e.sender e.location sources),
  in_sources-push_source s l e.sender e.location sources,
)

held-All :
    (f : ℕ → ℤ → Bool) (slot s : ℕ) (l : ℤ) (es : List LocationEntry)
    → All (λ (e : LocationEntry). f e.sender e.location ≡ true) es
    → held slot s l es ≡ true
    → f s l ≡ true
unfolding held
held-All f slot s l [] a h = absurd (ground (arith, h))
held-All f slot s l (e ∷ es) a h = elim (Bool-cases (e.sender == s && e.location == l)) [
  | inl both ↦
      subst (λ k. f s k ≡ true) ((int_eq.beq_iff e.location l).0 (ground (arith, both)))
        (subst (λ t. f t e.location ≡ true) ((eqb_iff e.sender s).0 (ground (arith, both))) a.0)
  | inr apart ↦ held-All f slot s l es a.1 (ground (arith, h, apart))
]

module _ (percent : ℕ → ℕ → ℤ) where
  -- What is checked stays checked.
  register_sources_keeps :
      (team : ℕ) (sources : List (ℕ × List ℤ)) (w : World) (key : SlotKey) (l : ℤ)
      → is_checked w.room key l ≡ true
      → is_checked (register_sources percent team sources w).room key l ≡ true
  unfolding register_sources update_checked_locations
  register_sources_keeps team [] w key l h = h
  register_sources_keeps team ((source, ls) ∷ rest) w key l h =
      register_sources_keeps team rest
        (update_checked_locations (team, source)
          (register_location_checks percent (team, source) ls w))
        key l
        (ground (arith, is_checked-register_location_checks percent (team, source) key ls w l))

  is_checked-register_sources :
      (team : ℕ) (sources : List (ℕ × List ℤ)) (w : World) (s : ℕ) (l : ℤ)
      → in_sources s l sources ≡ true
      → has_location w.room.seed.locations s l ≡ true
      → is_checked (register_sources percent team sources w).room (team, s) l ≡ true
  unfolding register_sources update_checked_locations in_sources
  is_checked-register_sources team [] w s l h k = absurd (ground (arith, h))
  is_checked-register_sources team ((source, ls) ∷ rest) w s l h k =
      let v =
        update_checked_locations (team, source)
          (register_location_checks percent (team, source) ls w) in
      elim (Bool-cases (source == s && contains ls l)) [
        | inl e ↦
            register_sources_keeps team rest v (team, s) l
              (ground (
                arith,
                e,
                k,
                eqb_iff source s,
                eqb_iff team team,
                ap (λ t. has_location w.room.seed.locations t l)
                    ((eqb_iff source s).0 (ground (arith, e))),
                is_checked-register_location_checks percent (team, source) (team, s) ls w l,
              ))
        | inr e ↦ is_checked-register_sources team rest v s l (ground (arith, e, h)) (
            ap (λ (seed : MultiData). has_location seed.locations s l)
              (register_location_checks-seed percent (team, source) ls w)
            ∙ k)
      ]

  collect_sweep_keeps :
      (key : SlotKey) (trigger : Trigger) (w : World) (k : SlotKey) (l : ℤ)
      → is_checked w.room k l ≡ true
      → is_checked (collect_sweep percent key trigger w).room k l ≡ true
  unfolding collect_sweep
  collect_sweep_keeps key trigger w k l h =
      register_sources_keeps key.0 (sources_of w.room key.1) (announce_collect key trigger w) k l h

  collect_groups_keeps :
      (key : SlotKey) (groups : List (ℕ × List ℕ)) (w : World) (k : SlotKey) (l : ℤ)
      → is_checked w.room k l ≡ true
      → is_checked (collect_groups percent key groups w).room k l ≡ true
  unfolding collect_groups is_checked
  collect_groups_keeps key [] w k l h = h
  collect_groups_keeps key ((group, members) ∷ rest) w k l h =
      let noted = note_collected key.1 group w in
      let swept = collect_sweep percent (key.0, group) Trigger.group noted in
      let done = all_in (get_or noted.room.group_collected group []) members in
      collect_groups_keeps key rest (if done then swept else noted) k l (
        if_both (λ (v : World). is_checked v.room k l ≡ true) done
          (λ e. collect_sweep_keeps (key.0, group) Trigger.group noted k l h) (λ e. h))

  -- Where every entry of the location table is found under its sender and location, a collect
  -- checks, in the slot's team, each location that holds an item for the slot.
  pub is_checked-collect_player :
      (key : SlotKey) (trigger : Trigger) (w : World) (s : ℕ) (l : ℤ)
      → All
          (λ (e : LocationEntry). has_location w.room.seed.locations e.sender e.location ≡ true)
          w.room.seed.locations.entries
      → held key.1 s l w.room.seed.locations.entries ≡ true
      → is_checked (collect_player percent key trigger w).room (key.0, s) l ≡ true
  unfolding collect_player collect_inner collect_sweep
  is_checked-collect_player key trigger w s l a h =
      let swept = collect_sweep percent key trigger w in
      collect_groups_keeps key (member_groups key.1 swept.room.seed.slot_info) swept (key.0, s) l
        (is_checked-register_sources key.0 (sources_of w.room key.1)
          (announce_collect key trigger w) s l
          (ground (arith, in_sources-by_source key.1 s l w.room.seed.locations.entries [], h))
          (held-All (λ t k. has_location w.room.seed.locations t k) key.1 s l
            w.room.seed.locations.entries a h))
