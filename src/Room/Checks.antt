-- ===== src/Room/Checks.antt =====
-- crates/pahoa-room/src/room.rs: registering the locations that a slot has checked, which sends their
-- items to the slots that they are for.
pub mod Fresh
pub mod Frame
pub mod Registered
pub mod Again
pub mod Sent
use pahoa.Prelude.{
  ℕ, zero, suc, ◌+◌, Bool, true, false, not, ◌&&◌, ◌||◌, Option, none, some, List, [], ◌∷◌, ◌++◌,
  map, length, take, drop, leb, ltb, eqb, String, if◌then◌else◌,
}
use pahoa.Prelude.Int.{ℤ, pos, ltb_ℤ, eqb_ℤ}
use pahoa.Prelude.Equality.{◌==◌, nat_eq, int_eq, pair_eq, bool_eq, string_eq, contains}
use pahoa.Prelude.Dict.{Dict, lookup, insert, get_or}
use pahoa.Prelude.Text.{format, show}
use pahoa.Prelude.Sorting.{sort_by, dedup_sorted, insert_set, extend_set}
use pahoa.Multidata.Types.{NetworkItem, Hint}
use pahoa.Multidata.Locations.{LocationEntry, contains as has_location, get as get_entry, count_for}
use pahoa.Proto.Packets.{ServerPacket, RoomUpdate, room_update, set_reply}
use pahoa.Room.Hints.{SlotKey, recheck, points, get as get_hints}
use pahoa.Room.Hints.Collect.{MultiData}
use pahoa.Room.Effects.{
  ConnId, Recipients, Effect, send, broadcast, mark_dirty, journal_check, all_text_full, to_slot,
  slot_scoped_text, these,
}
use pahoa.Room.Options.{hint_cost_for}
use pahoa.Room.State.{
  Room, World, emit, location_check, count_redundant, group_members_of, checks_of, is_checked,
  checked_count,
}
use pahoa.Room.Queues.{Queues, push_queue, send_item_to, group_fuel, send_new_items, has_scoped}
use pahoa.Room.Messages.{item_send_message}

abbrev pub print_json_chunk : ℕ
print_json_chunk = 140

-- The loop over the ids: those that are new, and how many are not. Unknown ids are dropped.
unfoldable pub split_fresh : MultiData → ℕ → List ℤ → List ℤ → List ℤ × ℕ
split_fresh seed slot already [] = ([], 0)
split_fresh seed slot already (l ∷ ls) =
    let (fresh, repeats) = split_fresh seed slot already ls in
    if not (has_location seed.locations slot l)
    then (fresh, repeats)
    else if contains already l
    then (fresh, suc repeats)
    else (l ∷ fresh, repeats)

abbrev pub int_leb : ℤ → ℤ → Bool
int_leb a b = not (ltb_ℤ b a)

-- `fresh.sort_unstable()` and `fresh.dedup()`
unfoldable pub sorted_fresh : List ℤ → List ℤ
sorted_fresh ls = dedup_sorted (sort_by int_leb ls)

-- `(receiver, item, location, flags)`, in the order of tuples.
abbrev pub send_leb : LocationEntry → LocationEntry → Bool
send_leb a b =
    ltb a.receiver b.receiver
    || eqb a.receiver b.receiver
      && (ltb_ℤ a.item b.item
          || eqb_ℤ a.item b.item
            && (ltb_ℤ a.location b.location || eqb_ℤ a.location b.location && leb a.flags b.flags))

abbrev cons_entry : Option LocationEntry → List LocationEntry → List LocationEntry
cons_entry none es = es
cons_entry (some e) es = e ∷ es

-- The entries of locations that were found to be known, so that none is missing.
unfoldable pub entries_of : MultiData → ℕ → List ℤ → List LocationEntry
entries_of seed slot [] = []
entries_of seed slot (l ∷ ls) =
    cons_entry (get_entry seed.locations slot l) (entries_of seed slot ls)

-- What the loop over the entries writes.
pub record Batch : Type 0 where
  pub queues : Queues
  pub dirty_slots : List ℕ
  pub feed : List ServerPacket
  pub scoped : Dict SlotKey (List ServerPacket)
  pub sent : List Effect

-- A feed that is full is sent before the next message.
abbrev pub flush_full : Batch → Batch
flush_full b =
    if leb print_json_chunk (length b.feed)
    then record b { feed = []; sent = b.sent ++ broadcast all_text_full b.feed ∷ [] }
    else b

abbrev pub net_item : ℕ → LocationEntry → NetworkItem
net_item slot e = record { item = e.item; location = e.location; player = slot; flags = e.flags }

abbrev pub check_effect : Room → ℕ → LocationEntry → Effect
check_effect room slot e = journal_check (record {
  at = room.clock;
  finder = slot;
  receiver = e.receiver;
  item = e.item;
  location = e.location;
  flags = e.flags;
})

abbrev push_if :
    Bool
    → SlotKey
    → ServerPacket
    → Dict SlotKey (List ServerPacket)
    → Dict SlotKey (List ServerPacket)
push_if true key message buffers = push_queue key message buffers
push_if false key message buffers = buffers

unfoldable pub distribute_entry : Room → SlotKey → LocationEntry → Batch → Batch
unfolding push_queue
distribute_entry room key e b =
    let message = item_send_message e.receiver (net_item key.1 e) in
    let receiver_key : SlotKey = (key.0, e.receiver) in
    let for_sender = push_if (has_scoped room key) key message b.scoped in
    let ready = flush_full (record b { sent = b.sent ++ check_effect room key.1 e ∷ [] }) in
    record ready {
      queues =
          send_item_to (group_fuel room.seed) room.seed key.0 e.receiver (net_item key.1 e)
            b.queues;
      dirty_slots =
          extend_set (insert_set b.dirty_slots e.receiver) (group_members_of room.seed e.receiver);
      feed = ready.feed ++ message ∷ [];
      scoped =
          push_if (not (receiver_key == key) && has_scoped room receiver_key) receiver_key message
            for_sender;
    }

unfoldable pub distribute : Room → SlotKey → List LocationEntry → Batch → Batch
unfolding distribute_entry
distribute room key [] b = b
distribute room key (e ∷ es) b = distribute room key es (distribute_entry room key e b)

-- `chunks`, of which there are no more than there are messages.
unfoldable pub chunks_of : ℕ → SlotKey → List ServerPacket → List Effect
chunks_of zero target messages = []
chunks_of (suc fuel) target [] = []
chunks_of (suc fuel) target (m ∷ ms) =
    broadcast (slot_scoped_text target) (take print_json_chunk (m ∷ ms))
    ∷ chunks_of fuel target (drop print_json_chunk (m ∷ ms))

-- The hash map's order is left open by the source; here it is the order of insertion.
unfoldable pub scoped_chunks : Dict SlotKey (List ServerPacket) → List Effect
unfolding chunks_of
scoped_chunks [] = []
scoped_chunks ((target, messages) ∷ rest) =
    chunks_of (length messages) target messages ++ scoped_chunks rest

abbrev pub last_feed : List ServerPacket → List Effect
last_feed [] = []
last_feed (m ∷ ms) = broadcast all_text_full (m ∷ ms) ∷ []

-- `on_changed_hints`: the slot's hints, to the connections that subscribed to them.
abbrev pub hints_name : SlotKey → String
hints_name key = format ("_read_hints_" ∷ show key.0 ∷ "_" ∷ show key.1 ∷ [])

abbrev pub notify_targets : SlotKey → List ConnId → World → World
notify_targets key [] w = w
notify_targets key (c ∷ cs) w =
    emit
      (broadcast (these (sort_by leb (c ∷ cs)))
        (set_reply (hints_name key) (get_hints w.room.hints key) ∷ []))
      w

unfoldable pub on_changed_hints : SlotKey → World → World
on_changed_hints key w =
    notify_targets key (get_or w.room.stored_data_subscriptions (hints_name key) []) w

unfoldable pub each_changed : List SlotKey → World → World
unfolding on_changed_hints
each_changed [] w = w
each_changed (key ∷ keys) w = each_changed keys (on_changed_hints key w)

unfoldable pub recheck_hints : SlotKey → World → World
unfolding each_changed
recheck_hints key w =
    let (hints, changed) = recheck w.room.hints key (is_checked w.room) in
    each_changed changed (record w { room = record w.room { hints = hints } })

-- `self.location_checks.entry(key).or_default()`
unfoldable pub touch_checks : SlotKey → World → World
touch_checks key w = record w {
  room = record w.room {
    location_checks = insert key (checks_of w.room key) w.room.location_checks;
  };
}

abbrev pub start_batch : Room → Batch
start_batch room = record {
  queues = room.received_items;
  dirty_slots = [];
  feed = [];
  scoped = [];
  sent = [];
}

unfoldable pub batch_of : Room → SlotKey → List ℤ → Batch
unfolding distribute
batch_of room key fresh =
    distribute room key (sort_by send_leb (entries_of room.seed key.1 fresh)) (start_batch room)

-- The writes to the room and the messages, up to the delivery of the items.
unfoldable pub store_fresh : SlotKey → List ℤ → World → World
unfolding batch_of scoped_chunks
store_fresh key fresh w =
    let b = batch_of w.room key fresh in
    record w {
      room = record w.room {
        received_items = b.queues;
        location_checks =
            insert key (extend_set (checks_of w.room key) fresh) w.room.location_checks;
        activity_at = insert key w.room.clock w.room.activity_at;
      };
      out = w.out ++ b.sent ++ last_feed b.feed ++ scoped_chunks b.scoped;
    }

module _ (percent : ℕ → ℕ → ℤ) where
  unfoldable pub slot_points : Room → SlotKey → ℤ
  unfolding checked_count hint_cost_for
  slot_points room key =
      points (checked_count room key) room.options.location_check_points
        (hint_cost_for percent room.options (count_for room.seed.locations key.1))
        (get_or room.hints_used key (pos 0))

  -- The new checks only, and the points that they make.
  abbrev pub notify_slot : SlotKey → List ℤ → List ConnId → World → World
  notify_slot key fresh [] w = w
  notify_slot key fresh (c ∷ cs) w =
      emit
        (broadcast (to_slot key) (
          room_update
            (record { checked_locations = some fresh; hint_points = some (slot_points w.room key) })
          ∷ []))
        w

  unfoldable pub apply_fresh : SlotKey → List ℤ → World → World
  unfolding store_fresh recheck_hints
  apply_fresh key [] w = w
  apply_fresh key (l ∷ ls) w =
      let stored = store_fresh key (l ∷ ls) w in
      let sent = send_new_items (batch_of w.room key (l ∷ ls)).dirty_slots stored in
      let told = notify_slot key (l ∷ ls) (get_or sent.room.by_slot key []) sent in
      emit mark_dirty (recheck_hints key told)

  unfoldable pub register_location_checks : SlotKey → List ℤ → World → World
  unfolding split_fresh sorted_fresh touch_checks apply_fresh count_redundant
  register_location_checks key locations w =
      let (fresh, repeats) = split_fresh w.room.seed key.1 (checks_of w.room key) locations in
      apply_fresh key (sorted_fresh fresh)
        (count_redundant key location_check repeats (touch_checks key w))
