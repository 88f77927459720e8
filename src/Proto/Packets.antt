-- ===== src/Proto/Packets.antt =====
-- crates/pahoa-proto/src/server.rs and types.rs: what the room sends to its clients, before it is
-- written as JSON, and the flags that a packet carries.
pub mod Flags
pub mod Parts
pub mod Refusal
use pahoa.Prelude.{ℕ, Bool, Option, none, some, List, [], ◌∷◌, String}
use pahoa.Prelude.Int.{ℤ}
use pahoa.Prelude.Dict.{Dict}
use pahoa.Multidata.Types.{Hint, NetworkItem, NetworkSlot, Version}
use pahoa.Proto.Packets.Flags.{Permission}
use pahoa.Proto.Packets.Refusal.{ConnectionRefusedReason}
use pahoa.Proto.Packets.Parts.{JsonMessagePart}

pub data PrintJsonType : Type 0 where
  item_send item_cheat hint join part chat server_chat tutorial tags_changed command_result
        admin_command_result goal release collect countdown :
      PrintJsonType

unfoldable pub as_text : PrintJsonType → String
as_text item_send = "ItemSend"
as_text item_cheat = "ItemCheat"
as_text hint = "Hint"
as_text join = "Join"
as_text part = "Part"
as_text chat = "Chat"
as_text server_chat = "ServerChat"
as_text tutorial = "Tutorial"
as_text tags_changed = "TagsChanged"
as_text command_result = "CommandResult"
as_text admin_command_result = "AdminCommandResult"
as_text goal = "Goal"
as_text release = "Release"
as_text collect = "Collect"
as_text countdown = "Countdown"

pub record PrintJson : Type 0 where
  pub data_parts : List JsonMessagePart
  pub print_type : Option PrintJsonType
  pub receiving : Option ℕ
  pub item : Option NetworkItem
  pub found : Option Bool
  pub team : Option ℕ
  pub slot : Option ℕ
  pub message : Option String
  pub tags : Option (List String)
  pub countdown : Option ℤ

-- `PrintJson { data, ..Default::default() }`
abbrev pub plain_print : List JsonMessagePart → PrintJson
plain_print parts = record {
  data_parts = parts;
  print_type = none;
  receiving = none;
  item = none;
  found = none;
  team = none;
  slot = none;
  message = none;
  tags = none;
  countdown = none;
}

pub record ReceivedItems : Type 0 where
  pub index : ℕ
  pub items : List NetworkItem

-- The fields of `RoomUpdate` that the operations of the model set.
pub record RoomUpdate : Type 0 where
  pub checked_locations : Option (List ℤ)
  pub hint_points : Option ℤ

pub record InvalidPacket : Type 0 where
  pub problem_type : String
  pub original_cmd : Option String
  pub text : String

-- A time is the bits of its `f64`.
pub record RoomInfo : Type 0 where
  pub version : Version
  pub generator_version : Version
  pub tags : List String
  pub password : Bool
  pub permissions : Dict String Permission
  pub hint_cost : ℕ
  pub location_check_points : ℕ
  pub games : List String
  pub datapackage_checksums : Dict String String
  pub seed_name : String
  pub time : ℕ

pub record NetworkPlayer : Type 0 where
  pub team : ℕ
  pub slot : ℕ
  pub alias : String
  pub name : String

-- The data of a slot is its JSON.
pub record Connected : Type 0 where
  pub team : ℕ
  pub slot : ℕ
  pub players : List NetworkPlayer
  pub missing_locations : List ℤ
  pub checked_locations : List ℤ
  pub slot_info : Dict ℕ NetworkSlot
  pub hint_points : ℤ
  pub slot_data : Option String

-- An `Echo` is a raw JSON map; the one that the model sends is the reply to a subscription to the
-- hints of a slot, with its key and the hints that stand in it.
pub data ServerPacket : Type 0 where
  room_info : RoomInfo → ServerPacket
  connection_refused : List ConnectionRefusedReason → ServerPacket
  connected : Connected → ServerPacket
  received_items : ReceivedItems → ServerPacket
  location_info : List NetworkItem → ServerPacket
  room_update : RoomUpdate → ServerPacket
  print_json : PrintJson → ServerPacket
  invalid_packet : InvalidPacket → ServerPacket
  set_reply : String → List Hint → ServerPacket
