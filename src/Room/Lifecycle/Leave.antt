-- ===== src/Room/Lifecycle/Leave.antt =====
-- crates/pahoa-room/src/room.rs: `on_disconnect`.
use pahoa.Prelude.{◌+◌, Bool, true, false, Option, none, some, List, [], ◌∷◌, String, if◌then◌else◌}
use pahoa.Prelude.Equality.{◌==◌, nat_eq, pair_eq, option_eq}
use pahoa.Prelude.Dict.{Dict, lookup, insert, erase}
use pahoa.Prelude.Text.{format, show}
use pahoa.Prelude.Sorting.{remove_set}
use pahoa.Multidata.Types.{ClientStatus}
use pahoa.Proto.Packets.{PrintJsonType}
use pahoa.Room.Hints.{SlotKey}
use pahoa.Room.Effects.{ConnId, journal_event, disconnected_event}
use pahoa.Room.Client.{Client, non_game_verb}
use pahoa.Room.Tags.{python_list_repr}
use pahoa.Room.State.{Room, World, emit, slot_alias}
use pahoa.Room.Lifecycle.{drop_conn, about_slot, version_text}

abbrev pub clear_admin : ConnId → Room → Room
clear_admin conn room =
    if room.admin_conn == some conn then record room { admin_conn = none } else room

unfoldable pub unsubscribe : ConnId → Dict String (List ConnId) → Dict String (List ConnId)
unfolding remove_set
unsubscribe conn [] = []
unsubscribe conn ((key, conns) ∷ rest) = (key, remove_set conns conn) ∷ unsubscribe conn rest

abbrev pub is_empty_list : Option (List ConnId) → Bool
is_empty_list none = true
is_empty_list (some []) = true
is_empty_list (some (c ∷ cs)) = false

abbrev pub slot_empty : Room → SlotKey → Bool
slot_empty room key = is_empty_list (lookup key room.by_slot)

abbrev unless_goal : ClientStatus → ClientStatus
unless_goal ClientStatus.goal = ClientStatus.goal
unless_goal _ = ClientStatus.unknown

abbrev reset_of : Option ClientStatus → ClientStatus
reset_of none = ClientStatus.unknown
reset_of (some s) = unless_goal s

-- A slot that has become empty is back at no status, but for one at its goal.
unfoldable pub reset_status : SlotKey → Room → Room
unfolding lookup insert
reset_status key room =
    if slot_empty room key
    then record room {
      client_game_state =
          insert key (reset_of (lookup key room.client_game_state)) room.client_game_state;
    }
    else room

abbrev leaving_verb : Option String → String
leaving_verb (some v) = format ("stopped " ∷ v ∷ [])
leaving_verb none = "left"

abbrev pub leaving_text : Room → SlotKey → Client → String
leaving_text room key client = format (
    slot_alias room key
    ∷ " (Team #"
    ∷ show (client.team + 1)
    ∷ ") has "
    ∷ leaving_verb (non_game_verb client.tags)
    ∷ " the game. Client("
    ∷ version_text client.version
    ∷ "), "
    ∷ python_list_repr client.tags
    ∷ "."
    ∷ [])

-- What the connections of the room forget, before anything is said.
unfoldable pub forget : ConnId → SlotKey → Room → Room
unfolding drop_conn unsubscribe reset_status
forget conn key room = reset_status key (record room {
  by_slot = drop_conn key conn room.by_slot;
  stored_data_subscriptions = unsubscribe conn room.stored_data_subscriptions;
})

unfoldable pub say_goodbye : SlotKey → Client → String → World → World
say_goodbye key client reason w =
    emit
      (journal_event (
        disconnected_event w.room.clock key (slot_alias w.room key) client.tags
          (slot_empty w.room key) reason))
      (emit (about_slot PrintJsonType.part key none (leaving_text w.room key client)) w)

unfoldable pub leave : ConnId → Client → String → World → World
unfolding forget say_goodbye
leave conn client reason w =
    let key : SlotKey = (client.team, client.slot) in
    say_goodbye key client reason (record w { room = forget conn key w.room })

abbrev pub disconnect_found : ConnId → String → Option Client → World → World
disconnect_found conn reason none w = w
disconnect_found conn reason (some client) w =
    let gone = record w { room = record w.room { clients = erase conn w.room.clients } } in
    if client.auth then leave conn client reason gone else gone

unfoldable pub on_disconnect : ConnId → String → World → World
unfolding leave erase lookup
on_disconnect conn reason w =
    let cleared = record w { room = clear_admin conn w.room } in
    disconnect_found conn reason (lookup conn w.room.clients) cleared
