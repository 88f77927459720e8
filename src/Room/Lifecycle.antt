-- ===== src/Room/Lifecycle.antt =====
-- crates/pahoa-room/src/room.rs: what a connection sets up in the room and takes down.
pub mod Leave
pub mod Filters
pub mod Join
pub mod Update
pub mod Actions
pub mod Indexed
pub mod Kept
pub mod Delivered
pub mod Asked
pub mod Hinted
pub mod Created
pub mod Seated
pub mod Reached
pub mod Authed
use Prim.Native.String.{compare}
use Prim.Native.Nat.{Ordering}
use pahoa.Prelude.{
  ℕ, ◌+◌, Bool, true, false, ◌||◌, ◌&&◌, not, Option, none, some, is_some, is_none, List, [], ◌∷◌,
  ◌++◌, map, String, if◌then◌else◌,
}
use pahoa.Prelude.Equality.{Eq, ◌==◌, nat_eq, string_eq, pair_eq}
use pahoa.Prelude.Dict.{Dict, lookup, insert, erase, get_or}
use pahoa.Prelude.Text.{format, show}
use pahoa.Prelude.Sorting.{sort_by, extend_set, insert_set, remove_set}
use pahoa.Multidata.Types.{Version, NetworkSlot, SlotType}
use pahoa.Proto.Packets.{
  ServerPacket, RoomInfo, NetworkPlayer, PrintJsonType, room_info, print_json, plain_print,
}
use pahoa.Proto.Packets.Flags.{Permission}
use pahoa.Proto.Packets.Parts.{text_part}
use pahoa.Room.Hints.{SlotKey}
use pahoa.Room.Filter.{Filter}
use pahoa.Room.Effects.{ConnId, Time, Effect, send, broadcast, all_text_about, filter_changed}
use pahoa.Room.Client.{Client, FeedPolicy, full, with_feed}
use pahoa.Room.Connect.{server_version}
use pahoa.Room.State.{Room, World, emit, slot_alias}

abbrev text_leb_by : Ordering → Bool
text_leb_by Ordering.gt = false
text_leb_by _ = true

abbrev pub text_leb : String → String → Bool
text_leb a b = text_leb_by (compare a b)

abbrev game_of : ℕ × NetworkSlot → String
game_of (slot, info) = info.game

-- The games of the seed, with "Archipelago", each once.
abbrev pub games : Dict ℕ NetworkSlot → List String
games slots = insert_set (extend_set [] (map game_of slots)) "Archipelago"

unfoldable pub password_required : Room → Bool
password_required room = is_some room.options.password || is_some room.options.slot_passwords

-- A `BTreeMap`, in the order of its keys.
unfoldable pub permissions : Room → Dict String Permission
permissions room =
    ("collect", room.options.collect_mode)
    ∷ ("release", room.options.release_mode)
    ∷ ("remaining", room.options.remaining_mode)
    ∷ []

unfoldable pub info_of : Room → RoomInfo
unfolding password_required permissions
info_of room = record {
  version = server_version;
  generator_version = room.seed.generator_version;
  tags = room.options.tags;
  password = password_required room;
  permissions = permissions room;
  hint_cost = room.options.hint_cost;
  location_check_points = room.options.location_check_points;
  games = sort_by text_leb (games room.seed.slot_info);
  datapackage_checksums = room.checksums;
  seed_name = room.seed.seed_name;
  time = room.start_time;
}

-- A connection that is opened again under the same number is replaced.
unfoldable pub on_connect_with_feed : ConnId → FeedPolicy → World → World
unfolding with_feed info_of insert
on_connect_with_feed conn feed w =
    let room = record w.room { clients = insert conn (with_feed conn feed) w.room.clients } in
    emit (send conn (room_info (info_of room) ∷ [])) (record w { room = room })

unfoldable pub on_connect : ConnId → World → World
unfolding on_connect_with_feed
on_connect conn = on_connect_with_feed conn full

abbrev is_player : SlotType → Bool
is_player SlotType.player = true
is_player _ = false

-- There is one team, 0.
unfoldable pub players_of : Room → Dict ℕ NetworkSlot → List NetworkPlayer
players_of room [] = []
players_of room ((slot, info) ∷ slots) =
    let rest = players_of room slots in
    if is_player info.slot_type
    then record { team = 0; slot = slot; alias = slot_alias room (0, slot); name = info.name }
      ∷ rest
    else rest

unfoldable pub players_package : Room → List NetworkPlayer
unfolding players_of
players_package room = players_of room room.seed.slot_info

abbrev pub retain {ℓ} :
    {K : Type ℓ} ⦃e : Eq K⦄
    → K
    → ConnId
    → Option (List ConnId)
    → Dict K (List ConnId)
    → Dict K (List ConnId)
retain key conn none conns_of = conns_of
retain key conn (some conns) conns_of = insert key (remove_set conns conn) conns_of

-- `conns.retain(|c| *c != conn)` in the list of a slot, where it has one.
unfoldable pub drop_conn :
    SlotKey → ConnId → Dict SlotKey (List ConnId) → Dict SlotKey (List ConnId)
unfolding lookup insert
drop_conn key conn by_slot = retain key conn (lookup key by_slot) by_slot

unfoldable pub filter_key : SlotKey → String
filter_key key = format (show key.0 ∷ "_" ∷ show key.1 ∷ [])

-- A slot's own filter takes the place of the room's.
unfoldable pub filter_for : Room → SlotKey → Option (Filter Time)
unfolding filter_key
filter_for room key = elim (lookup (filter_key key) room.filters) [
  | some filter ↦ some filter
  | none ↦ lookup "*" room.filters
]

unfoldable pub push_filter : ConnId → World → World
unfolding filter_for
push_filter conn w = elim (lookup conn w.room.clients) [
  | none ↦ w
  | some client ↦ emit (filter_changed conn (filter_for w.room (client.team, client.slot))) w
]

abbrev pub version_text : Version → String
version_text v = format (show v.major ∷ "." ∷ show v.minor ∷ "." ∷ show v.build ∷ [])

-- A text about a slot, with the packet's kind and, for some, tags.
abbrev pub about_slot : PrintJsonType → SlotKey → Option (List String) → String → Effect
about_slot print_type key tags said = broadcast (all_text_about key) (
    print_json (record (plain_print (text_part said ∷ [])) {
      print_type = some print_type;
      team = some key.0;
      slot = some key.1;
      tags = tags;
    })
    ∷ [])
