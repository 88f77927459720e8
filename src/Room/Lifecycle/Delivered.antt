-- ===== src/Room/Lifecycle/Delivered.antt =====
-- crates/pahoa-room/src/room.rs: the index of connections is kept by checks, and by the delivery of the
-- items that they send.
use pahoa.Prelude.{
  ℕ, length, leb, Option, none, some, List, [], ◌∷◌, ◌≡◌, refl, sym, subst, if_both,
}
use pahoa.Prelude.Int.{ℤ}
use pahoa.Prelude.Equality.{nat_eq, pair_eq}
use pahoa.Prelude.Dict.{lookup, get_or}
use pahoa.Proto.Packets.Flags.{no_items}
use pahoa.Room.Hints.{SlotKey}
use pahoa.Room.Effects.{ConnId, Trigger}
use pahoa.Room.Client.{Client}
use pahoa.Room.State.{World, checks_of, count_redundant, location_check}
use pahoa.Room.Queues.{items_of, send_rest, send_rest_of, send_to_conns, send_new_items}
use pahoa.Room.Checks.{
  batch_of, store_fresh, notify_slot, recheck_hints, touch_checks, split_fresh, sorted_fresh,
  apply_fresh, register_location_checks,
}
use pahoa.Room.Checks.Frame.{recheck_hints-room}
use pahoa.Room.Checks.Registered.{count_redundant-room}
use pahoa.Room.Sweeps.{
  update_checked_locations, release_player, register_sources, collect_sweep, collect_groups,
  collect_inner, collect_player, announce_release, announce_collect, sources_of, note_collected,
  member_groups, all_in,
}
use pahoa.Room.Lifecycle.Indexed.{IsIndexed, insert-Agrees}
use pahoa.Room.Lifecycle.Kept.{sits-is_member}

-- A step from one world to another keeps the index.
abbrev pub Keeps : World → World → Type 0
Keeps w v = IsIndexed w.room → IsIndexed v.room

send_rest_of-Keeps :
    (conn : ConnId) (w : World) (o : Option Client)
    → lookup conn w.room.clients ≡ o
    → Keeps w (send_rest_of conn w o)
unfolding send_rest
send_rest_of-Keeps conn w none h indexed = indexed
send_rest_of-Keeps conn w (some c) h indexed =
    if_both (λ (v : World). IsIndexed v.room) (no_items c.items_handling) (λ e. indexed)
      (λ e.
        if_both (λ (v : World). IsIndexed v.room) (leb (length (items_of w.room c)) c.send_index)
          (λ e'. indexed)
          (λ e'.
            insert-Agrees w.room.by_slot w.room.clients conn
              (record c { send_index = length (items_of w.room c) })
              (λ key. sits-is_member w.room.clients conn c key h) indexed))

send_to_conns-Keeps : (conns : List ConnId) (w : World) → Keeps w (send_to_conns conns w)
unfolding send_to_conns
send_to_conns-Keeps [] w indexed = indexed
send_to_conns-Keeps (conn ∷ conns) w indexed =
    send_to_conns-Keeps conns (send_rest_of conn w (lookup conn w.room.clients))
      (send_rest_of-Keeps conn w (lookup conn w.room.clients) refl indexed)

send_new_items-Keeps : (slots : List ℕ) (w : World) → Keeps w (send_new_items slots w)
unfolding send_new_items
send_new_items-Keeps [] w indexed = indexed
send_new_items-Keeps (slot ∷ slots) w indexed =
    let conns = get_or w.room.by_slot (0, slot) [] in
    send_new_items-Keeps slots (send_to_conns conns w) (send_to_conns-Keeps conns w indexed)

recheck_hints-Keeps : (key : SlotKey) (w : World) → Keeps w (recheck_hints key w)
recheck_hints-Keeps key w indexed = subst IsIndexed (sym (recheck_hints-room key w)) indexed

module _ (percent : ℕ → ℕ → ℤ) where
  notify_slot-Keeps :
      (key : SlotKey) (fresh : List ℤ) (conns : List ConnId) (w : World)
      → Keeps w (notify_slot percent key fresh conns w)
  notify_slot-Keeps key fresh [] w indexed = indexed
  notify_slot-Keeps key fresh (c ∷ cs) w indexed = indexed

  apply_fresh-Keeps :
      (key : SlotKey) (fresh : List ℤ) (w : World) → Keeps w (apply_fresh percent key fresh w)
  unfolding apply_fresh store_fresh
  apply_fresh-Keeps key [] w indexed = indexed
  apply_fresh-Keeps key (l ∷ ls) w indexed =
      let stored = store_fresh key (l ∷ ls) w in
      let slots = (batch_of w.room key (l ∷ ls)).dirty_slots in
      let sent = send_new_items slots stored in
      let conns = get_or sent.room.by_slot key [] in
      recheck_hints-Keeps key (notify_slot percent key (l ∷ ls) conns sent)
        (notify_slot-Keeps key (l ∷ ls) conns sent (send_new_items-Keeps slots stored indexed))

  pub register_location_checks-Keeps :
      (key : SlotKey) (ls : List ℤ) (w : World)
      → Keeps w (register_location_checks percent key ls w)
  unfolding register_location_checks touch_checks
  register_location_checks-Keeps key ls w indexed =
      let split = split_fresh w.room.seed key.1 (checks_of w.room key) ls in
      let touched = touch_checks key w in
      apply_fresh-Keeps key (sorted_fresh split.0)
        (count_redundant key location_check split.1 touched)
        (subst IsIndexed (sym (count_redundant-room key location_check split.1 touched)) indexed)

  pub release_player-Keeps :
      (key : SlotKey) (trigger : Trigger) (w : World)
      → Keeps w (release_player percent key trigger w)
  unfolding release_player update_checked_locations
  release_player-Keeps key trigger w =
      register_location_checks-Keeps key _ (announce_release key trigger w)

  register_sources-Keeps :
      (team : ℕ) (sources : List (ℕ × List ℤ)) (w : World)
      → Keeps w (register_sources percent team sources w)
  unfolding register_sources update_checked_locations
  register_sources-Keeps team [] w indexed = indexed
  register_sources-Keeps team ((source, ls) ∷ rest) w indexed =
      register_sources-Keeps team rest
        (update_checked_locations (team, source)
          (register_location_checks percent (team, source) ls w))
        (register_location_checks-Keeps (team, source) ls w indexed)

  collect_sweep-Keeps :
      (key : SlotKey) (trigger : Trigger) (w : World)
      → Keeps w (collect_sweep percent key trigger w)
  unfolding collect_sweep
  collect_sweep-Keeps key trigger w =
      register_sources-Keeps key.0 (sources_of w.room key.1) (announce_collect key trigger w)

  collect_groups-Keeps :
      (key : SlotKey) (groups : List (ℕ × List ℕ)) (w : World)
      → Keeps w (collect_groups percent key groups w)
  unfolding collect_groups
  collect_groups-Keeps key [] w indexed = indexed
  collect_groups-Keeps key ((group, members) ∷ rest) w indexed =
      let noted = note_collected key.1 group w in
      let swept = collect_sweep percent (key.0, group) Trigger.group noted in
      let done = all_in (get_or noted.room.group_collected group []) members in
      collect_groups-Keeps key rest _ (
        if_both (λ (v : World). IsIndexed v.room) done {x = swept} {y = noted}
          (λ e. collect_sweep-Keeps (key.0, group) Trigger.group noted indexed) (λ e. indexed))

  pub collect_player-Keeps :
      (key : SlotKey) (trigger : Trigger) (w : World)
      → Keeps w (collect_player percent key trigger w)
  unfolding collect_player collect_inner
  collect_player-Keeps key trigger w indexed =
      let swept = collect_sweep percent key trigger w in
      collect_groups-Keeps key (member_groups key.1 swept.room.seed.slot_info) swept
        (collect_sweep-Keeps key trigger w indexed)
