-- ===== src/Room/StateTests.antt =====
-- The room at a concrete game of two players and a group of both.
use pahoa.Multidata.Types.{Hint, found, priority}
use pahoa.Room.Requests.{UpdateHint, given, handle_update_hint}
use pahoa.Room.Requests.Banked.{Banked, notify_hints-Banked}
use pahoa.Room.Requests.Settled.{handle_update_hint-IsSettled}
use pahoa.Room.Announce.{notify_hints}
use pahoa.Room.Hints.Status.{IsSettled}
use pahoa.Prelude.{Option, none, some, if_both}
use pahoa.Room.Hints.{get}
use pahoa.Prelude.{
  Bool, Option, if_both, ℕ, ◌*◌, ◌/◌, true, false, not, ◌&&◌, ◌||◌, List, [], ◌∷◌, ◌++◌, All, ◌≡◌,
  refl, arith, subst, if◌then◌else◌,
}
use pahoa.Prelude.Result.{ok}
use pahoa.Prelude.Int.{ℤ, pos}
use pahoa.Prelude.Equality.{Eq, ◌==◌, nat_eq, int_eq, pair_eq, contains}
use pahoa.Prelude.Sorting.{sort_by, dedup_sorted, extend_set}
use pahoa.Proto.Packets.Flags.{no_items, remote_items, remote_start_inventory}
use pahoa.Prelude.Dict.{lookup, insert}
use pahoa.Multidata.Types.{SlotType, ClientStatus, NetworkItem}
use pahoa.Multidata.Locations.{
  LocationEntry, declared, validate, from_entries, for_slot, contains as has_location,
  get as get_entry,
}
use pahoa.Multidata.Locations.Known.{declared-KnowsAll}
use pahoa.Room.Hints.{SlotKey, get, recheck}
use pahoa.Room.Hints.Collect.{MultiData}
use pahoa.Room.Effects.{Trigger}
use pahoa.Room.Client.{Client, with_feed, full}
use pahoa.Room.Options.{default_options}
use pahoa.Room.State.{
  Room, World, checks_of, is_checked, missing_locations, status, count_redundant, location_check,
  group_members_of,
}
use pahoa.Room.Queues.{send_item_to, group_fuel, items_of, send_new_items}
use pahoa.Room.Queues.Receivers.{IsRanked, Sends, send_item_to-Sends}
use pahoa.Room.Queues.Contents.{queue_of, inbox, queue_of-register_location_checks}
use pahoa.Room.Queues.Delivery.{IsDelivered, IsAt, inventory, some_inj}
use pahoa.Room.Queues.Served.{inventory-send_new_items}
use pahoa.Room.Checks.{entries_of, split_fresh, register_location_checks}
use pahoa.Room.Checks.Sent.{IsSent}
use pahoa.Room.Checks.Registered.{is_checked-register_location_checks}
use pahoa.Room.Checks.Again.{register_location_checks-register_location_checks}
use pahoa.Room.Sweeps.{release_player, collect_player, set_status, is_goal}
use pahoa.Room.Sweeps.Complete.{missing_locations-release_player}
use pahoa.Room.Sweeps.Collected.{held, is_checked-collect_player}
use pahoa.Room.Sweeps.Goal.{status-set_status}

abbrev key_eq : Eq SlotKey
key_eq = pair_eq

abbrev pub percent : ℕ → ℕ → ℤ
percent cost total = pos (cost * total / 100)

abbrev pub table : List LocationEntry
table =
    record { location = pos 5; item = pos 1; sender = 1; receiver = 2; flags = 0 }
    ∷ record { location = pos 7; item = pos 3; sender = 2; receiver = 2; flags = 1 }
    ∷ record { location = pos 6; item = pos 2; sender = 2; receiver = 3; flags = 0 }
    ∷ []

-- Slot 3 is a group of the two players.
abbrev pub game : MultiData
game = record {
  slot_info =
      (1, record { name = "ann"; game = "g"; slot_type = SlotType.player; group_members = [] })
      ∷ (2, record { name = "bob"; game = "g"; slot_type = SlotType.player; group_members = [] })
      ∷ (
        3,
        record {
          name = "both";
          game = "g";
          slot_type = SlotType.group;
          group_members = 1 ∷ 2 ∷ [];
        },
      )
      ∷ [];
  locations = declared table 2 2;
  er_hint_data = [];
  precollected_items = (2, pos 9 ∷ []) ∷ [];
  connect_names = ("ann", (0, 1)) ∷ ("bob", (0, 2)) ∷ [];
  seed_name = "seed";
  generator_version = record { major = 0; minor = 6; build = 4 };
  minimum_client_versions = [];
}

-- A connection of the second player, with all its items from the server.
abbrev pub bob : Client
bob = record (with_feed 10 full) { auth = true; slot = 2; items_handling = record { bits = 7 } }

abbrev pub room : Room
room = record {
  seed = game;
  options = default_options;
  clients = (10, bob) ∷ [];
  by_slot = ((0, 2), 10 ∷ []) ∷ [];
  location_checks = [];
  received_items = [];
  client_game_state = [];
  name_aliases = [];
  activity_at = [];
  connected_at = [];
  hints_used = [];
  hints = record { by_slot = [] };
  allow_releases = [];
  locked_slots = [];
  filters = [];
  group_collected = [];
  admin_conn = none;
  stored_data_subscriptions = [];
  checksums = [];
  start_time = 0;
  clock = 0;
}

abbrev world : World
world = record { room = room; redundant = []; out = [] }

table-valid : validate (declared table 2 2) ≡ ok tt
unfolding validate from_entries
table-valid = refl

abbrev bobs_checks : List ℤ
bobs_checks = pos 7 ∷ pos 6 ∷ pos 8 ∷ []

-- The two known locations are checked, and the group's item comes before the second player's own.
bobs_queue :
    queue_of
      ((0, 2), true)
      (register_location_checks percent (0, 2) bobs_checks world).room.received_items
    ≡ record { item = pos 3; location = pos 7; player = 2; flags = 1 }
      ∷ record { item = pos 2; location = pos 6; player = 2; flags = 0 }
      ∷ []
unfolding register_location_checks from_entries has_location get_entry for_slot lookup dedup_sorted
    sort_by contains recheck send_new_items entries_of extend_set group_members_of no_items
    remote_start_inventory send_item_to insert with_feed remote_items
bobs_queue = refl

is_checked-register_location_checks_example :
    is_checked (register_location_checks percent (0, 2) bobs_checks world).room (0, 2) (pos 7) ≡ (
      is_checked room (0, 2) (pos 7)
      || key_eq.beq (0, 2) (0, 2)
        && contains bobs_checks (pos 7)
        && has_location game.locations 2 (pos 7))
is_checked-register_location_checks_example =
    is_checked-register_location_checks percent (0, 2) (0, 2) bobs_checks world (pos 7)

register_location_checks-register_location_checks_example :
    let v = register_location_checks percent (0, 2) bobs_checks world in
    register_location_checks percent (0, 2) bobs_checks v
    ≡ count_redundant
        (0, 2)
        location_check
        (split_fresh v.room.seed 2 (checks_of v.room (0, 2)) bobs_checks).1
        v
register_location_checks-register_location_checks_example =
    register_location_checks-register_location_checks percent (0, 2) bobs_checks world

missing_locations-release_player_example :
    missing_locations (release_player percent (0, 2) Trigger.player world).room (0, 2) ≡ []
missing_locations-release_player_example =
    missing_locations-release_player percent (0, 2) Trigger.player world
      (declared-KnowsAll table 2 2 (ground arith) (omega arith) table-valid)

table_known :
    All
      (λ (e : LocationEntry). has_location game.locations e.sender e.location ≡ true)
      game.locations.entries
unfolding from_entries has_location get_entry for_slot
table_known = (refl, (refl, (refl, tt)))

is_checked-collect_player_example :
    is_checked (collect_player percent (0, 2) Trigger.player world).room (0, 1) (pos 5) ≡ true
unfolding from_entries held
is_checked-collect_player_example =
    is_checked-collect_player percent (0, 2) Trigger.player world 1 (pos 5) table_known refl

status-set_status_example :
    status (set_status percent (0, 2) ClientStatus.goal world).room (0, 2) ≡ (
      if key_eq.beq (0, 2) (0, 2) && not (is_goal (status room (0, 2)))
      then ClientStatus.goal
      else status room (0, 2))
status-set_status_example = status-set_status percent (0, 2) (0, 2) ClientStatus.goal world

queue_of-register_location_checks_example :
    (es : List LocationEntry) × IsSent game 2 [] bobs_checks es
    × ((k : SlotKey) (remote : Bool)
        → queue_of
            (k, remote)
            (register_location_checks percent (0, 2) bobs_checks world).room.received_items
          ≡ queue_of (k, remote) []
            ++ (if nat_eq.beq 0 k.0 then inbox game 2 k.1 remote es else []))
unfolding lookup
queue_of-register_location_checks_example =
    queue_of-register_location_checks percent (0, 2) bobs_checks world

game-IsRanked : IsRanked game
unfolding group_members_of lookup contains
game-IsRanked = record {
  rank = λ s. if s == 3 then 1 else 0;
  lower = λ s m h. ground (arith, h);
  bounded = λ s. ground arith;
}

abbrev group_item : NetworkItem
group_item = record { item = pos 2; location = pos 6; player = 2; flags = 0 }

send_item_to-Sends_example :
    Sends game 0 group_item (3 ∷ []) [] (send_item_to (group_fuel game) game 0 3 group_item [])
send_item_to-Sends_example = send_item_to-Sends game 0 group_item game-IsRanked 3 []

-- The second player's start inventory is not sent yet.
world-IsDelivered : IsDelivered 10 world
unfolding lookup inventory with_feed
world-IsDelivered c e = subst (IsAt room []) (some_inj bob c e) (refl, omega arith)

abbrev bob_after : Client
bob_after = record bob { send_index = 1 }

inventory-send_new_items_example :
    inventory 10 [] (send_new_items (2 ∷ []) world).out
    ≡ items_of (send_new_items (2 ∷ []) world).room bob_after
unfolding contains lookup send_new_items items_of no_items remote_start_inventory remote_items
    with_feed insert
inventory-send_new_items_example =
    inventory-send_new_items (2 ∷ []) world 2 10 bob_after refl refl world-IsDelivered refl refl

-- The second player has a hint for its group's item, which is not found yet.
abbrev group_hint : Hint
group_hint = record {
  receiving_player = 3;
  finding_player = 2;
  location = pos 6;
  item = pos 2;
  found = false;
  entrance = "";
  item_flags = 0;
  status = priority;
}

notify_hints-Banked_example :
    All
      (Banked 0 true (notify_hints percent 0 (group_hint ∷ []) true true none world).0.room.hints)
      (group_hint ∷ [])
notify_hints-Banked_example = notify_hints-Banked percent 0 (group_hint ∷ []) true true none world

abbrev hinted : World
hinted = record world {
  room = record room { hints = record { by_slot = ((0, 2), group_hint ∷ []) ∷ [] } };
}

abbrev avoid_it : UpdateHint
avoid_it = record { player = given 2; location = given (pos 6); status = given (some (pos 20)) }

hinted-IsSettled : IsSettled hinted.room.hints
unfolding IsSettled get lookup
hinted-IsSettled key =
    if_both
      (λ (o : Option (List Hint)).
        All (λ (h : Hint). h.found ≡ true → h.status ≡ found) (elim o [ some hs ↦ hs | none ↦ [] ]))
      (key_eq.beq (0, 2) key) (λ e. ((λ f. absurd (ground (arith, f))), tt)) (λ e. tt)

handle_update_hint-IsSettled_example : IsSettled (handle_update_hint 10 avoid_it hinted).room.hints
handle_update_hint-IsSettled_example =
    handle_update_hint-IsSettled 10 avoid_it hinted hinted-IsSettled
