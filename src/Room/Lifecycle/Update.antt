-- ===== src/Room/Lifecycle/Update.antt =====
-- crates/pahoa-room/src/room.rs: `handle_connect_update` and `handle_sync`.
use pahoa.Prelude.{
  ℕ, ◌+◌, true, Option, none, some, List, [], ◌∷◌, length, String, eqb, if◌then◌else◌,
}
use pahoa.Prelude.Result.{Result, ok, err}
use pahoa.Prelude.Equality.{nat_eq}
use pahoa.Prelude.Dict.{lookup, insert}
use pahoa.Prelude.Text.{format, show}
use pahoa.Proto.Packets.{PrintJsonType, received_items}
use pahoa.Proto.Packets.Flags.{ItemsHandling, InvalidItemsHandling, handling, no_items}
use pahoa.Room.Hints.{SlotKey}
use pahoa.Room.Effects.{ConnId, send, journal_event, tags_changed_event, membership_changed}
use pahoa.Room.Client.{Client, apply_tags}
use pahoa.Room.Tags.{python_list_repr, same_tag_set}
use pahoa.Room.State.{Room, World, emit, slot_alias}
use pahoa.Room.Queues.{items_for}
use pahoa.Room.Requests.{Arg, missing, wrong, given}
use pahoa.Room.Messages.{bad_arguments}
use pahoa.Room.Lifecycle.{about_slot}
use pahoa.Room.Lifecycle.Join.{set_client}

pub record ConnectUpdate : Type 0 where
  pub items_handling : Arg (Option ℕ)
  pub tags : Option (List String)

abbrev pub resend_to : ConnId → Option Client → World → World
resend_to conn none w = w
resend_to conn (some client) w =
    let items = items_for w.room conn in
    let sent = emit (send conn (received_items (record { index = 0; items = items }) ∷ [])) w in
    if no_items client.items_handling then w else record sent {
      room = set_client conn (λ (c : Client). record c { send_index = length items }) sent.room;
    }

unfoldable pub resend_all_items : ConnId → World → World
unfolding items_for lookup insert
resend_all_items conn w = resend_to conn (lookup conn w.room.clients) w

unfoldable pub handle_sync : ConnId → World → World
unfolding resend_all_items
handle_sync conn w = resend_all_items conn w

abbrev pub retagged_text : Room → SlotKey → List String → List String → String
retagged_text room key from to = format (
    slot_alias room key
    ∷ " (Team #"
    ∷ show (key.0 + 1)
    ∷ ") has changed tags from "
    ∷ python_list_repr from
    ∷ " to "
    ∷ python_list_repr to
    ∷ "."
    ∷ [])

unfoldable pub announce_tags_changed : ConnId → SlotKey → List String → List String → World → World
unfolding lookup
announce_tags_changed conn key from to w = elim (lookup conn w.room.clients) [
  | none ↦ w
  | some client ↦
      emit (about_slot PrintJsonType.tags_changed key (some to) (retagged_text w.room key from to))
        (emit (membership_changed conn true client.no_text (some key)) w)
]

-- What an update says of the flags: nothing, valid ones or invalid ones.
abbrev pub flags_asked : Arg (Option ℕ) → Option (Result InvalidItemsHandling ItemsHandling)
flags_asked missing = none
flags_asked wrong = some (err InvalidItemsHandling.invalid_items_handling)
flags_asked (given none) = none
flags_asked (given (some bits)) = some (handling bits)

-- New tags are announced where they are others as a set.
unfoldable pub retag : ConnId → Client → Option (List String) → World → World
unfolding apply_tags same_tag_set announce_tags_changed insert
retag conn client none w = w
retag conn client (some tags) w =
    let key : SlotKey = (client.team, client.slot) in
    let tagged = record w {
      room = record w.room { clients = insert conn (apply_tags client tags) w.room.clients };
    } in
    if same_tag_set tags client.tags
    then tagged
    else announce_tags_changed conn key client.tags tags (
        emit
          (journal_event
            (tags_changed_event w.room.clock key (slot_alias w.room key) client.tags tags))
          tagged)

abbrev pub update_flags : ConnId → Client → ItemsHandling → Option (List String) → World → World
update_flags conn client flags tags w =
    let changed = record client { items_handling = flags } in
    let flagged = record w {
      room = record w.room { clients = insert conn changed w.room.clients };
    } in
    if eqb flags.bits client.items_handling.bits
    then retag conn client tags w
    else resend_all_items conn (retag conn changed tags flagged)

abbrev pub update_client :
    ConnId
    → Client
    → Option (Result InvalidItemsHandling ItemsHandling)
    → Option (List String)
    → World
    → World
update_client conn client none tags w = retag conn client tags w
update_client conn client (some (err e)) tags w =
    bad_arguments conn "ConnectUpdate" "Invalid items_handling flag combination" w
update_client conn client (some (ok flags)) tags w = update_flags conn client flags tags w

abbrev pub update_registered : ConnId → ConnectUpdate → Option Client → World → World
update_registered conn args none w = w
update_registered conn args (some client) w =
    update_client conn client (flags_asked args.items_handling) args.tags w

unfoldable pub handle_connect_update : ConnId → ConnectUpdate → World → World
unfolding retag resend_all_items lookup
handle_connect_update conn args w = update_registered conn args (lookup conn w.room.clients) w
