-- ===== src/Room/Sweeps.antt =====
-- crates/pahoa-room/src/room.rs: giving up a world (release), gathering the items for a slot (collect),
-- and reaching the goal, which may do both.
pub mod Complete
pub mod Collected
pub mod Frame
pub mod Goal
use pahoa.Prelude.{
  ℕ, zero, suc, ◌+◌, Bool, true, false, not, ◌&&◌, ◌||◌, Option, none, some, List, [], ◌∷◌, ◌++◌,
  map, length, ltb, eqb, leb, String, if◌then◌else◌,
}
use pahoa.Prelude.Int.{ℤ}
use pahoa.Prelude.Equality.{◌==◌, nat_eq, int_eq, pair_eq, contains}
use pahoa.Prelude.Dict.{Dict, lookup, insert, get_or}
use pahoa.Prelude.Text.{format, show}
use pahoa.Prelude.Sorting.{insert_set, remove_set}
use pahoa.Multidata.Types.{NetworkSlot, ClientStatus, unknown}
use pahoa.Multidata.Locations.{LocationEntry}
use pahoa.Proto.Packets.{PrintJsonType, RoomUpdate, room_update, print_json, plain_print}
use pahoa.Proto.Packets.Parts.{text_part}
use pahoa.Proto.Packets.Flags.{is_auto}
use pahoa.Room.Hints.{SlotKey}
use pahoa.Room.Effects.{
  Effect, Trigger, trigger_text, broadcast, to_slot, all_text, mark_dirty, journal_event,
  JournalEvent, goal_event, release_or_collect,
}
use pahoa.Room.State.{
  Room, World, emit, slot_name, slot_alias, slot_game, status, checks_of, locations_of, unchecked,
}
use pahoa.Room.Checks.{int_leb, register_location_checks}
use pahoa.Room.Messages.{slot_announcement}
use pahoa.Prelude.Sorting.{sort_by}

unfoldable pub checked_locations : Room → SlotKey → List ℤ
checked_locations room key = sort_by int_leb (checks_of room key)

unfoldable pub update_checked_locations : SlotKey → World → World
unfolding checked_locations
update_checked_locations key w =
    emit
      (broadcast (to_slot key) (
        room_update
          (record { checked_locations = some (checked_locations w.room key); hint_points = none })
        ∷ []))
      w

-- What a sweep says before it registers checks: to the players, and to the journal.
abbrev pub announce_release : SlotKey → Trigger → World → World
announce_release key trigger w =
    let all = locations_of w.room key.1 in
    let items = length (unchecked (checks_of w.room key) all) in
    emit
      (journal_event (
        release_or_collect w.room.clock "release" key (slot_alias w.room key) (trigger_text trigger)
          items))
      (emit
        (slot_announcement PrintJsonType.release key (slot_name w.room key)
          ") has released all remaining items from their world.")
        w)

-- `BTreeMap<u32, Vec<i64>>`, in the order of its keys.
unfoldable pub push_source {ℓ} : {V : Type ℓ} → ℕ → V → List (ℕ × List V) → List (ℕ × List V)
push_source s l [] = (s, l ∷ []) ∷ []
push_source s l ((t, ls) ∷ rest) =
    if eqb s t
    then (t, ls ++ l ∷ []) ∷ rest
    else if ltb s t
    then (s, l ∷ []) ∷ (t, ls) ∷ rest
    else (t, ls) ∷ push_source s l rest

unfoldable pub by_source : ℕ → List LocationEntry → List (ℕ × List ℤ) → List (ℕ × List ℤ)
unfolding push_source
by_source slot [] sources = sources
by_source slot (e ∷ es) sources =
    by_source slot es
      (if eqb e.receiver slot then push_source e.sender e.location sources else sources)

unfoldable pub count_sources : Room → ℕ → List (ℕ × List ℤ) → ℕ
count_sources room team [] = 0
count_sources room team ((source, locations) ∷ rest) =
    length (unchecked (checks_of room (team, source)) locations) + count_sources room team rest

abbrev pub sources_of : Room → ℕ → List (ℕ × List ℤ)
sources_of room slot = by_source slot room.seed.locations.entries []

abbrev pub announce_collect : SlotKey → Trigger → World → World
announce_collect key trigger w =
    let items = count_sources w.room key.0 (sources_of w.room key.1) in
    emit
      (journal_event (
        release_or_collect w.room.clock "collect" key (slot_alias w.room key) (trigger_text trigger)
          items))
      (emit
        (slot_announcement PrintJsonType.collect key (slot_name w.room key)
          ") has collected their items from other worlds.")
        w)

-- The groups that have the slot among their members, with those.
unfoldable pub member_groups : ℕ → Dict ℕ NetworkSlot → List (ℕ × List ℕ)
member_groups slot [] = []
member_groups slot ((id, info) ∷ rest) =
    let groups = member_groups slot rest in
    if contains info.group_members slot then (id, info.group_members) ∷ groups else groups

unfoldable pub all_in : List ℕ → List ℕ → Bool
all_in collected [] = true
all_in collected (m ∷ ms) = contains collected m && all_in collected ms

abbrev pub is_goal : ClientStatus → Bool
is_goal ClientStatus.goal = true
is_goal _ = false

unfoldable pub all_goal : Room → ℕ → Dict ℕ NetworkSlot → Bool
unfolding status
all_goal room team [] = true
all_goal room team ((slot, info) ∷ rest) =
    is_goal (status room (team, slot)) && all_goal room team rest

unfoldable pub announce_team_completion : ℕ → World → World
unfolding all_goal
announce_team_completion team w =
    let text =
      format
        ("Team #" ∷ show (team + 1) ∷ " has completed all of their games! Congratulations!" ∷ []) in
    if all_goal w.room team w.room.seed.slot_info
    then emit (broadcast all_text (print_json (plain_print (text_part text ∷ [])) ∷ [])) w
    else w

abbrev pub note_collected : ℕ → ℕ → World → World
note_collected slot group w =
    let collected = insert_set (get_or w.room.group_collected group []) slot in
    record w {
      room = record w.room { group_collected = insert group collected w.room.group_collected };
    }

module _ (percent : ℕ → ℕ → ℤ) where
  unfoldable pub release_player : SlotKey → Trigger → World → World
  unfolding update_checked_locations
  release_player key trigger w = update_checked_locations key (
      register_location_checks percent key (locations_of w.room key.1)
        (announce_release key trigger w))

  unfoldable pub register_sources : ℕ → List (ℕ × List ℤ) → World → World
  unfolding update_checked_locations
  register_sources team [] w = w
  register_sources team ((source, locations) ∷ rest) w = register_sources team rest (
      update_checked_locations (team, source)
        (register_location_checks percent (team, source) locations w))

  -- `collect_inner` up to the groups, which is all of it for a group.
  unfoldable pub collect_sweep : SlotKey → Trigger → World → World
  unfolding register_sources count_sources by_source
  collect_sweep key trigger w =
      register_sources key.0 (sources_of w.room key.1) (announce_collect key trigger w)

  -- A group collects when the last of its members has.
  unfoldable pub collect_groups : SlotKey → List (ℕ × List ℕ) → World → World
  unfolding collect_sweep all_in
  collect_groups key [] w = w
  collect_groups key ((group, members) ∷ rest) w =
      let noted = note_collected key.1 group w in
      let swept = collect_sweep (key.0, group) Trigger.group noted in
      collect_groups key rest
        (if all_in (get_or noted.room.group_collected group []) members then swept else noted)

  unfoldable pub collect_inner : SlotKey → Bool → Trigger → World → World
  unfolding collect_sweep collect_groups member_groups
  collect_inner key is_group trigger w =
      let swept = collect_sweep key trigger w in
      if is_group
      then swept
      else collect_groups key (member_groups key.1 swept.room.seed.slot_info) swept

  unfoldable pub collect_player : SlotKey → Trigger → World → World
  unfolding collect_inner
  collect_player key trigger w = collect_inner key false trigger w

  abbrev pub auto_collect : SlotKey → World → World
  auto_collect key w =
      if is_auto w.room.options.collect_mode then collect_player key Trigger.goal w else w

  abbrev pub auto_release : SlotKey → World → World
  auto_release key w =
      if is_auto w.room.options.release_mode then release_player key Trigger.goal w else w

  -- The collect comes before the release.
  unfoldable pub on_goal_achieved : SlotKey → World → World
  unfolding collect_player release_player
  on_goal_achieved key w = auto_release key (
      auto_collect key (
        emit
          (slot_announcement PrintJsonType.goal key (slot_alias w.room key)
            ") has completed their goal.")
          w))

  abbrev pub reach_goal : SlotKey → ClientStatus → World → World
  reach_goal key ClientStatus.goal w = announce_team_completion key.0 (
      on_goal_achieved key (
        emit
          (journal_event
            (goal_event w.room.clock key (slot_alias w.room key) (slot_game w.room key.1)))
          w))
  reach_goal key _ w = w

  -- A goal that is reached is kept.
  unfoldable pub set_status : SlotKey → ClientStatus → World → World
  unfolding status on_goal_achieved announce_team_completion
  set_status key state w =
      let changed = record w {
        room = record w.room { client_game_state = insert key state w.room.client_game_state };
      } in
      if is_goal (status w.room key) then w else reach_goal key state (emit mark_dirty changed)

-- The slots that may release whatever the mode, and those that may not connect.
unfoldable pub allow_release : SlotKey → Bool → Room → Room
allow_release key allowed room = record room {
  allow_releases =
      if allowed then insert_set room.allow_releases key else remove_set room.allow_releases key;
}

unfoldable pub release_allowed : Room → SlotKey → Bool
release_allowed room key = contains room.allow_releases key

unfoldable pub lock_slot : SlotKey → Bool → Room → Room
lock_slot key locked room = record room {
  locked_slots =
      if locked then insert_set room.locked_slots key else remove_set room.locked_slots key;
}

unfoldable pub slot_locked : Room → SlotKey → Bool
slot_locked room key = contains room.locked_slots key
