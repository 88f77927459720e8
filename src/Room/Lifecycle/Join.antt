-- ===== src/Room/Lifecycle/Join.antt =====
-- crates/pahoa-room/src/room.rs: `handle_connect` and `announce_join`.
use pahoa.Prelude.{
  ℕ, ◌+◌, Bool, true, false, not, ◌&&◌, ◌||◌, Option, none, some, List, [], ◌∷◌, length, String,
  if◌then◌else◌,
}
use pahoa.Prelude.Result.{ok, err}
use pahoa.Prelude.Int.{ℤ}
use pahoa.Prelude.Equality.{◌==◌, nat_eq, pair_eq}
use pahoa.Prelude.Dict.{lookup, insert}
use pahoa.Prelude.Text.{format, show}
use pahoa.Multidata.Types.{ClientStatus, NetworkItem}
use pahoa.Proto.Packets.{
  ServerPacket, PrintJsonType, connection_refused, connected, received_items, print_json,
  plain_print,
}
use pahoa.Proto.Packets.Flags.{ItemsHandling, handling, no_items}
use pahoa.Proto.Packets.Refusal.{ConnectionRefusedReason}
use pahoa.Proto.Packets.Parts.{text_part}
use pahoa.Room.Hints.{SlotKey}
use pahoa.Room.Effects.{ConnId, send, journal_event, connected_event, membership_changed}
use pahoa.Room.Client.{Client, apply_tags, non_game_verb}
use pahoa.Room.Tags.{python_list_repr}
use pahoa.Room.State.{Room, World, emit, slot_alias, slot_game, missing_locations}
use pahoa.Room.Queues.{push_queue, items_for}
use pahoa.Room.Checks.{slot_points}
use pahoa.Room.Sweeps.{checked_locations}
use pahoa.Room.Requests.{Arg, missing, given}
use pahoa.Room.Messages.{bad_arguments}
use pahoa.Room.Connect.{Connect, refusals, resolve_name}
use pahoa.Room.Lifecycle.{drop_conn, push_filter, about_slot, version_text, players_package}

abbrev pub is_bad : Arg (Option String) → Bool
is_bad (given s) = false
is_bad _ = true

abbrev pub is_missing : Arg (Option String) → Bool
is_missing missing = true
is_missing _ = false

abbrev or_playing : Option String → String
or_playing (some v) = v
or_playing none = "playing"

abbrev pub joining_text : Room → SlotKey → Client → String
joining_text room key client = format (
    slot_alias room key
    ∷ " (Team #"
    ∷ show (client.team + 1)
    ∷ ") "
    ∷ or_playing (non_game_verb client.tags)
    ∷ " "
    ∷ slot_game room client.slot
    ∷ " has joined. Client("
    ∷ version_text client.version
    ∷ "), "
    ∷ python_list_repr client.tags
    ∷ "."
    ∷ [])

abbrev pub tutorial_text : String
tutorial_text =
    "Now that you are connected, you can use !help to list commands to run via the server. If your client supports it, you may have additional local commands you can list with /help."

abbrev pub welcome : SlotKey → ConnId → Client → World → World
welcome key conn client w =
    emit
      (send conn (
        print_json (record (plain_print (text_part tutorial_text ∷ [])) {
          print_type = some PrintJsonType.tutorial;
        })
        ∷ []))
      (emit (about_slot PrintJsonType.join key (some client.tags) (joining_text w.room key client))
        (emit
          (journal_event (
            connected_event w.room.clock key (slot_alias w.room key) (slot_game w.room client.slot)
              (version_text client.version) client.tags))
          w))

unfoldable pub announce_join : ConnId → World → World
announce_join conn w = elim (lookup conn w.room.clients) [
  | none ↦ w
  | some client ↦ welcome (client.team, client.slot) conn client w
]

-- A client that was at another slot has to be announced anew.
unfoldable pub seat : SlotKey → Connect → ItemsHandling → Client → Client
unfolding apply_tags
seat key args flags client =
    let moved = client.auth && (not (client.team == key.0) || not (client.slot == key.1)) in
    let seated =
      apply_tags
        (record client {
          team = key.0;
          slot = key.1;
          version = args.version;
          items_handling = flags;
        })
        args.tags in
    record seated { auth = if moved then false else client.auth }

abbrev pub or_connected : Option ClientStatus → ClientStatus
or_connected (some s) = s
or_connected none = ClientStatus.connected

-- The room with the client at its slot, and in the slot's list but in no other.
unfoldable pub take_seat : ConnId → SlotKey → Connect → ItemsHandling → Client → Room → Room
unfolding seat drop_conn push_queue insert lookup
take_seat conn key args flags client room =
    let left =
      if client.auth
      then drop_conn (client.team, client.slot) conn room.by_slot
      else room.by_slot in
    record room {
      clients = insert conn (seat key args flags client) room.clients;
      by_slot = push_queue key conn left;
      connected_at = insert key room.clock room.connected_at;
      client_game_state =
          insert key (or_connected (lookup key room.client_game_state)) room.client_game_state;
    }

abbrev pub change_found : ConnId → (Client → Client) → Option Client → Room → Room
change_found conn change none room = room
change_found conn change (some client) room = record room {
  clients = insert conn (change client) room.clients;
}

abbrev pub set_client : ConnId → (Client → Client) → Room → Room
set_client conn change room = change_found conn change (lookup conn room.clients) room

-- The items of a client, where it is sent any and has any.
abbrev pub first_items : Room → ConnId → Client → List NetworkItem
first_items room conn client = if no_items client.items_handling then [] else items_for room conn

abbrev pub with_items : List NetworkItem → List ServerPacket
with_items [] = []
with_items (i ∷ is) = received_items (record { index = 0; items = i ∷ is }) ∷ []

abbrev pub advance_index : List NetworkItem → Client → Client
advance_index [] client = client
advance_index (i ∷ is) client = record client { send_index = length (i ∷ is) }

-- `slot_data` writes what the seed gives a slot as JSON.
module _ (as_bytes : String → List ℕ) (slot_data : ℕ → Option String) (percent : ℕ → ℕ → ℤ) where
  unfoldable pub connected_packet : Room → SlotKey → Bool → ServerPacket
  connected_packet room key wanted = connected (record {
    team = key.0;
    slot = key.1;
    players = players_package room;
    missing_locations = missing_locations room key;
    checked_locations = checked_locations room key;
    slot_info = room.seed.slot_info;
    hint_points = slot_points percent room key;
    slot_data = if wanted then slot_data key.1 else none;
  })

  abbrev pub enter : ConnId → Client → World → World
  enter conn client w = push_filter conn (
      emit (membership_changed conn true client.no_text (some (client.team, client.slot)))
        (record w { room = set_client conn (λ (c : Client). record c { auth = true }) w.room }))

  -- A client that was authenticated before, at the same slot, is not announced again.
  unfoldable pub take_in : ConnId → SlotKey → Connect → ItemsHandling → Client → World → World
  unfolding take_seat seat items_for connected_packet announce_join push_filter
  take_in conn key args flags client w =
      let seated = take_seat conn key args flags client w.room in
      let now = seat key args flags client in
      let items = first_items seated conn now in
      let reply = connected_packet seated key args.slot_data ∷ with_items items in
      let ready = record w { room = set_client conn (advance_index items) seated } in
      if now.auth
      then emit (send conn reply) ready
      else announce_join conn (emit (send conn reply) (enter conn now ready))

  abbrev pub flags_of : Arg ℕ → ItemsHandling
  flags_of (given bits) = elim (handling bits) [ ok h ↦ h | err e ↦ record { bits = 0 } ]
  flags_of _ = record { bits = 0 }

  -- Where there is no reason for a refusal, the name has been resolved; the connection is registered.
  abbrev pub take_in_resolved : ConnId → Connect → Option SlotKey → Option Client → World → World
  take_in_resolved conn args (some key) (some client) w =
      take_in conn key args (flags_of args.items_handling) client w
  take_in_resolved conn args _ _ w = w

  abbrev pub answer_connect : ConnId → Connect → List ConnectionRefusedReason → World → World
  answer_connect conn args [] w =
      take_in_resolved conn args (resolve_name w.room.seed args.name) (lookup conn w.room.clients) w
  answer_connect conn args (e ∷ es) w = emit (send conn (connection_refused (e ∷ es) ∷ [])) w

  unfoldable pub handle_connect : ConnId → Connect → World → World
  unfolding take_in lookup
  handle_connect conn args w =
      if is_bad args.password || is_missing args.game
      then bad_arguments conn "Connect" "Connect" w
      else answer_connect conn args (refusals as_bytes w.room args) w
