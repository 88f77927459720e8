-- ===== src/Room/Messages.antt =====
-- crates/pahoa-room/src/room.rs: the messages that announce an item and a hint.
use pahoa.Prelude.{ℕ, ◌+◌, some, List, [], ◌∷◌, ◌++◌, if◌then◌else◌, String}
use pahoa.Prelude.Equality.{◌==◌, nat_eq, string_eq}
use pahoa.Prelude.Text.{format, show}
use pahoa.Multidata.Types.{Hint, NetworkItem}
use pahoa.Proto.Packets.{ServerPacket, PrintJsonType, plain_print, print_json, invalid_packet}
use pahoa.Proto.Packets.Parts.{
  JsonMessagePart, text_part, typed_part, player_part, item_part, location_part, status_part,
}
use pahoa.Room.Hints.{SlotKey}
use pahoa.Room.Effects.{ConnId, Effect, send, close, broadcast, all_text, protocol_error}
use pahoa.Room.State.{World, emit}

abbrev item_parts : ℕ → NetworkItem → List JsonMessagePart
item_parts receiver item =
    if item.player == receiver
    then text_part " found their " ∷ item_part item.item item.player item.flags ∷ []
    else text_part " sent "
      ∷ item_part item.item receiver item.flags
      ∷ text_part " to "
      ∷ player_part receiver
      ∷ []

unfoldable pub item_send_message : ℕ → NetworkItem → ServerPacket
item_send_message receiver item =
    let parts =
      player_part item.player ∷ item_parts receiver item
      ++ text_part " (" ∷ location_part item.location item.player ∷ text_part ")" ∷ [] in
    print_json (record (plain_print parts) {
      print_type = some PrintJsonType.item_send;
      receiving = some receiver;
      item = some item;
    })

abbrev entrance_parts : String → List JsonMessagePart
entrance_parts entrance =
    if entrance == ""
    then text_part "'s World" ∷ []
    else text_part "'s World at " ∷ typed_part "entrance_name" entrance ∷ []

unfoldable pub hint_message : Hint → ServerPacket
hint_message hint =
    let parts =
      text_part "[Hint]: "
        ∷ player_part hint.receiving_player
        ∷ text_part "'s "
        ∷ item_part hint.item hint.receiving_player hint.item_flags
        ∷ text_part " is at "
        ∷ location_part hint.location hint.finding_player
        ∷ text_part " in "
        ∷ player_part hint.finding_player
        ∷ entrance_parts hint.entrance
      ++ text_part ". " ∷ status_part hint.status ∷ [] in
    print_json (record (plain_print parts) {
      print_type = some PrintJsonType.hint;
      receiving = some hint.receiving_player;
      item = some (record {
        item = hint.item;
        location = hint.location;
        player = hint.finding_player;
        flags = hint.item_flags;
      });
      found = some hint.found;
    })

-- An announcement about a slot, to everyone who reads texts.
unfoldable pub slot_announcement : PrintJsonType → SlotKey → String → String → Effect
slot_announcement print_type key name rest =
    let parts = text_part (format (name ∷ " (Team #" ∷ show (key.0 + 1) ∷ rest ∷ [])) ∷ [] in
    broadcast all_text (
      print_json (record (plain_print parts) {
        print_type = some print_type;
        team = some key.0;
        slot = some key.1;
      })
      ∷ [])

unfoldable pub bad_arguments : ConnId → String → String → World → World
bad_arguments conn cmd text = emit (
    send conn (
      invalid_packet (record { problem_type = "arguments"; original_cmd = some cmd; text = text })
      ∷ []))

unfoldable pub raise_protocol_error : ConnId → String → World → World
raise_protocol_error conn text = emit (close conn (protocol_error text))
