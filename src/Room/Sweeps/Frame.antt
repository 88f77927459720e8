-- ===== src/Room/Sweeps/Frame.antt =====
-- crates/pahoa-room/src/room.rs: the fields of the room that registering checks and sweeping a world
-- never write.
use pahoa.Prelude.{ℕ, List, [], ◌∷◌, ◌≡◌, refl, ap, ◌∙◌, if◌then◌else◌, if_both}
use pahoa.Prelude.Int.{ℤ}
use pahoa.Prelude.Equality.{nat_eq, pair_eq}
use pahoa.Prelude.Dict.{Dict, get_or}
use pahoa.Multidata.Types.{NetworkItem}
use pahoa.Room.Hints.{SlotKey, HintStore}
use pahoa.Room.Effects.{ConnId, Time, Trigger}
use pahoa.Room.Client.{Client}
use pahoa.Room.State.{Room, World, QueueKey, checks_of, count_redundant, location_check}
use pahoa.Room.Checks.{
  split_fresh, sorted_fresh, touch_checks, store_fresh, apply_fresh, register_location_checks,
}
use pahoa.Room.Checks.Frame.{apply_fresh-SameButDeliveries}
use pahoa.Room.Checks.Registered.{count_redundant-room}
use pahoa.Room.Sweeps.{
  release_player, announce_release, update_checked_locations, register_sources, collect_sweep,
  announce_collect, sources_of, note_collected, collect_groups, collect_inner, collect_player,
  member_groups, all_in,
}

abbrev pub writes :
    Room
    → Dict ConnId Client
    → Dict SlotKey (List ℤ)
    → Dict QueueKey (List NetworkItem)
    → Dict SlotKey Time
    → HintStore
    → Dict ℕ (List ℕ)
    → Room
writes room clients checks queues activity hints collected = record room {
  clients = clients;
  location_checks = checks;
  received_items = queues;
  activity_at = activity;
  hints = hints;
  group_collected = collected;
}

-- What reads none of the fields that are written.
abbrev pub IsUntouched {ℓ} : {X : Type ℓ} → (Room → X) → Type ℓ
IsUntouched f =
    (room : Room) (clients : Dict ConnId Client) (checks : Dict SlotKey (List ℤ))
    (queues : Dict QueueKey (List NetworkItem)) (activity : Dict SlotKey Time) (hints : HintStore)
    (collected : Dict ℕ (List ℕ))
    → f (writes room clients checks queues activity hints collected) ≡ f room

module _ {X : Type 0} (percent : ℕ → ℕ → ℤ) (f : Room → X) (same : IsUntouched f) where
  apply_fresh_untouched :
      (key : SlotKey) (fresh : List ℤ) (w : World)
      → f (apply_fresh percent key fresh w).room ≡ f w.room
  unfolding apply_fresh store_fresh
  apply_fresh_untouched key [] w = refl
  apply_fresh_untouched key (l ∷ ls) w =
      let v = (apply_fresh percent key (l ∷ ls) w).room in
      let stored = (store_fresh key (l ∷ ls) w).room in
      ap f (apply_fresh-SameButDeliveries percent key l ls w)
      ∙ same w.room v.clients stored.location_checks stored.received_items stored.activity_at
          v.hints w.room.group_collected

  pub register_location_checks_untouched :
      (key : SlotKey) (ls : List ℤ) (w : World)
      → f (register_location_checks percent key ls w).room ≡ f w.room
  unfolding register_location_checks touch_checks
  register_location_checks_untouched key ls w =
      let split = split_fresh w.room.seed key.1 (checks_of w.room key) ls in
      let touched = touch_checks key w in
      apply_fresh_untouched key (sorted_fresh split.0)
        (count_redundant key location_check split.1 touched)
      ∙ ap f (count_redundant-room key location_check split.1 touched)
      ∙ same w.room w.room.clients touched.room.location_checks w.room.received_items
          w.room.activity_at w.room.hints w.room.group_collected

  pub release_player_untouched :
      (key : SlotKey) (trigger : Trigger) (w : World)
      → f (release_player percent key trigger w).room ≡ f w.room
  unfolding release_player update_checked_locations
  release_player_untouched key trigger w =
      register_location_checks_untouched key _ (announce_release key trigger w)

  register_sources_untouched :
      (team : ℕ) (sources : List (ℕ × List ℤ)) (w : World)
      → f (register_sources percent team sources w).room ≡ f w.room
  unfolding register_sources update_checked_locations
  register_sources_untouched team [] w = refl
  register_sources_untouched team ((source, ls) ∷ rest) w =
      register_sources_untouched team rest (
        update_checked_locations (team, source)
          (register_location_checks percent (team, source) ls w))
      ∙ register_location_checks_untouched (team, source) ls w

  collect_sweep_untouched :
      (key : SlotKey) (trigger : Trigger) (w : World)
      → f (collect_sweep percent key trigger w).room ≡ f w.room
  unfolding collect_sweep
  collect_sweep_untouched key trigger w =
      register_sources_untouched key.0 (sources_of w.room key.1) (announce_collect key trigger w)

  note_collected_untouched :
      (slot group : ℕ) (w : World) → f (note_collected slot group w).room ≡ f w.room
  note_collected_untouched slot group w =
      let v = note_collected slot group w in
      same w.room w.room.clients w.room.location_checks w.room.received_items w.room.activity_at
        w.room.hints v.room.group_collected

  collect_groups_untouched :
      (key : SlotKey) (groups : List (ℕ × List ℕ)) (w : World)
      → f (collect_groups percent key groups w).room ≡ f w.room
  unfolding collect_groups
  collect_groups_untouched key [] w = refl
  collect_groups_untouched key ((group, members) ∷ rest) w =
      let noted = note_collected key.1 group w in
      let swept = collect_sweep percent (key.0, group) Trigger.group noted in
      let done = all_in (get_or noted.room.group_collected group []) members in
      collect_groups_untouched key rest (if done then swept else noted)
      ∙ if_both (λ (v : World). f v.room ≡ f noted.room) done
          (λ e. collect_sweep_untouched (key.0, group) Trigger.group noted) (λ e. refl)
      ∙ note_collected_untouched key.1 group w

  pub collect_player_untouched :
      (key : SlotKey) (trigger : Trigger) (w : World)
      → f (collect_player percent key trigger w).room ≡ f w.room
  unfolding collect_player collect_inner
  collect_player_untouched key trigger w =
      let swept = collect_sweep percent key trigger w in
      collect_groups_untouched key (member_groups key.1 swept.room.seed.slot_info) swept
      ∙ collect_sweep_untouched key trigger w
