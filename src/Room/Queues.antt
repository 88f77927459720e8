-- ===== src/Room/Queues.antt =====
-- crates/pahoa-room/src/room.rs: the queues of items that slots were sent, and their delivery.
pub mod Receivers
pub mod Contents
pub mod Delivery
pub mod Served
use pahoa.Prelude.{
  ℕ, zero, suc, ◌+◌, Bool, true, false, not, ◌&&◌, ◌||◌, Option, none, some, List, [], ◌∷◌, ◌++◌,
  map, length, drop, leb, eqb, if◌then◌else◌,
}
use pahoa.Prelude.Int.{ℤ, negsuc}
use pahoa.Prelude.Equality.{Eq, ◌==◌, nat_eq, pair_eq, bool_eq}
use pahoa.Prelude.Dict.{Dict, lookup, insert, get_or}
use pahoa.Multidata.Types.{NetworkItem}
use pahoa.Proto.Packets.{ServerPacket, received_items}
use pahoa.Proto.Packets.Flags.{no_items, remote_items, remote_start_inventory}
use pahoa.Room.Hints.Collect.{MultiData}
use pahoa.Room.Effects.{ConnId, Effect, send}
use pahoa.Room.Client.{Client, scoped}
use pahoa.Room.Hints.{SlotKey}
use pahoa.Room.State.{QueueKey, Room, World, emit, group_members_of}

abbrev pub Queues : Type 0
Queues = Dict QueueKey (List NetworkItem)

-- `.entry(key).or_default()` and `.push(value)`
unfoldable pub push_queue {ℓ κ} :
    {K : Type ℓ} {V : Type κ} ⦃e : Eq K⦄ → K → V → Dict K (List V) → Dict K (List V)
push_queue key value d = insert key (get_or d key [] ++ value ∷ []) d

-- A slot's own item goes to the queue of those clients only that want it back.
unfoldable pub queue_item : ℕ → ℕ → NetworkItem → Queues → Queues
unfolding push_queue
queue_item team target item queues =
    push_queue ((team, target), true) item
      (if item.player == target then queues else push_queue ((team, target), false) item queues)

unfoldable pub each_member : (ℕ → Queues → Queues) → List ℕ → Queues → Queues
each_member deliver [] queues = queues
each_member deliver (m ∷ ms) queues = each_member deliver ms (deliver m queues)

abbrev pub members_or : (ℕ → Queues → Queues) → (Queues → Queues) → List ℕ → Queues → Queues
members_or deliver own [] queues = own queues
members_or deliver own (m ∷ ms) queues = each_member deliver (m ∷ ms) queues

-- A group's item goes to its members. The source recurses without a bound, on the stack.
unfoldable pub send_item_to : ℕ → MultiData → ℕ → ℕ → NetworkItem → Queues → Queues
unfolding group_members_of each_member queue_item
send_item_to zero seed team target item queues = queues
send_item_to (suc fuel) seed team target item queues =
    members_or (λ m. send_item_to fuel seed team m item) (queue_item team target item)
      (group_members_of seed target) queues

-- No chain of groups is longer than the table of slots.
abbrev pub group_fuel : MultiData → ℕ
group_fuel seed = suc (length seed.slot_info)

abbrev pub start_item : ℤ → NetworkItem
start_item item = record { item = item; location = negsuc 1; player = 0; flags = 0 }

abbrev pub start_inventory : Bool → Option (List ℤ) → List NetworkItem
start_inventory true (some codes) = map start_item codes
start_inventory _ _ = []

unfoldable pub items_of : Room → Client → List NetworkItem
items_of room client =
    start_inventory (remote_start_inventory client.items_handling)
      (lookup client.slot room.seed.precollected_items)
    ++ get_or room.received_items ((client.team, client.slot), remote_items client.items_handling)
        []

unfoldable pub items_for : Room → ConnId → List NetworkItem
unfolding items_of
items_for room conn = elim (lookup conn room.clients) [
  | none ↦ []
  | some client ↦ items_of room client
]

-- One connection: what the client was not sent yet, and its new position.
unfoldable pub send_rest : ConnId → Client → World → World
unfolding items_of
send_rest conn client w =
    let every = items_of w.room client in
    let index = client.send_index in
    let packet = received_items (record { index = index; items = drop index every }) in
    let moved = record client { send_index = length every } in
    if no_items client.items_handling
    then w
    else if leb (length every) index
    then w
    else record (emit (send conn (packet ∷ [])) w) {
      room = record w.room { clients = insert conn moved w.room.clients };
    }

abbrev pub send_rest_of : ConnId → World → Option Client → World
send_rest_of conn w none = w
send_rest_of conn w (some client) = send_rest conn client w

unfoldable pub send_to_conns : List ConnId → World → World
unfolding send_rest
send_to_conns [] w = w
send_to_conns (conn ∷ conns) w =
    send_to_conns conns (send_rest_of conn w (lookup conn w.room.clients))

-- The key has the team 0, whatever team the slots are of.
unfoldable pub send_new_items : List ℕ → World → World
unfolding send_to_conns
send_new_items [] w = w
send_new_items (slot ∷ slots) w =
    send_new_items slots (send_to_conns (get_or w.room.by_slot (0, slot) []) w)

abbrev wants_scoped : Option Client → Bool
wants_scoped none = false
wants_scoped (some c) = scoped c && not c.no_text

abbrev any_scoped : Room → List ConnId → Bool
any_scoped room [] = false
any_scoped room (c ∷ cs) = wants_scoped (lookup c room.clients) || any_scoped room cs

unfoldable pub has_scoped : Room → SlotKey → Bool
has_scoped room key = any_scoped room (get_or room.by_slot key [])
