-- ===== src/Room/Queues/Contents.antt =====
-- crates/pahoa-room/src/room.rs: what the queues hold after a registration.
use mathlib.Core.List.{append_assoc, append-nil}
use pahoa.Prelude.{
  ℕ, Bool, true, false, not, ◌&&◌, ◌||◌, List, [], ◌∷◌, ◌++◌, ◌≡◌, ap, ◌∙◌, arith, if◌then◌else◌,
}
use pahoa.Prelude.Int.{ℤ}
use pahoa.Prelude.Sorting.{sort_by}
use pahoa.Prelude.Equality.{◌==◌, nat_eq, pair_eq, bool_eq}
use pahoa.Prelude.Dict.{get_or, get_or-insert}
use pahoa.Multidata.Types.{NetworkItem}
use pahoa.Multidata.Locations.{LocationEntry}
use pahoa.Room.Hints.{SlotKey}
use pahoa.Room.Hints.Collect.{MultiData}
use pahoa.Room.State.{Room, World, QueueKey, checks_of, count_redundant, location_check}
use pahoa.Room.Queues.{Queues, queue_item, push_queue, group_fuel}
use pahoa.Room.Queues.Receivers.{receivers, queue_all, send_item_to-queue_all}
use pahoa.Room.Checks.{
  Batch, distribute, distribute_entry, net_item, split_fresh, sorted_fresh, entries_of, send_leb,
  batch_of, store_fresh, apply_fresh, touch_checks, start_batch, register_location_checks,
}
use pahoa.Room.Checks.Registered.{count_redundant-room}
use pahoa.Room.Checks.Sent.{IsSent, sort_by-IsSent}
use pahoa.Room.Checks.Frame.{apply_fresh-SameButDeliveries}

-- What of an item sent to some slots lies in the queue of one of them.
unfoldable pub copies : ℕ → Bool → NetworkItem → List ℕ → List NetworkItem
copies p remote item [] = []
copies p remote item (t ∷ ts) =
    let rest = copies p remote item ts in
    if t == p && (remote || not (item.player == t)) then item ∷ rest else rest

abbrev pub queue_of : QueueKey → Queues → List NetworkItem
queue_of key queues = get_or queues key []

pub queue_of-push_queue :
    (key other : QueueKey) (item : NetworkItem) (queues : Queues)
    → queue_of other (push_queue key item queues)
      ≡ (if key == other then queue_of other queues ++ item ∷ [] else queue_of other queues)
unfolding push_queue
queue_of-push_queue key other item queues = ground (
  arith,
  pair_eq.beq_iff key other,
  get_or-insert other key (queue_of key queues ++ item ∷ []) [] queues,
)

queue_of-queue_item :
    (team t : ℕ) (item : NetworkItem) (queues : Queues) (key : SlotKey) (remote : Bool)
    → queue_of (key, remote) (queue_item team t item queues) ≡ (
        if (team, t) == key && (remote || not (item.player == t))
        then queue_of (key, remote) queues ++ item ∷ []
        else queue_of (key, remote) queues)
unfolding queue_item
queue_of-queue_item team t item queues key remote = ground (
  arith,
  queue_of-push_queue ((team, t), true) (key, remote) item
      (if item.player == t then queues else push_queue ((team, t), false) item queues),
  queue_of-push_queue ((team, t), false) (key, remote) item queues,
)

queue_of-queue_all :
    (team : ℕ) (item : NetworkItem) (ts : List ℕ) (queues : Queues) (key : SlotKey) (remote : Bool)
    → queue_of (key, remote) (queue_all team item ts queues)
      ≡ queue_of (key, remote) queues ++ (if team == key.0 then copies key.1 remote item ts else [])
unfolding queue_all copies
queue_of-queue_all team item [] queues key remote =
    ground (arith, append-nil (queue_of (key, remote) queues))
queue_of-queue_all team item (t ∷ ts) queues key remote = ground (
  arith,
  queue_of-queue_all team item ts (queue_item team t item queues) key remote,
  queue_of-queue_item team t item queues key remote,
  append_assoc (queue_of (key, remote) queues) (item ∷ []) (copies key.1 remote item ts),
  append-nil (queue_of (key, remote) queues),
)

-- What the entries of a slot's new checks bring to another slot, in their order.
unfoldable pub inbox : MultiData → ℕ → ℕ → Bool → List LocationEntry → List NetworkItem
unfolding copies receivers
inbox seed slot p remote [] = []
inbox seed slot p remote (e ∷ es) =
    copies p remote (net_item slot e) (receivers (group_fuel seed) seed e.receiver)
    ++ inbox seed slot p remote es

distribute-queues :
    (room : Room) (key : SlotKey) (es : List LocationEntry) (b : Batch) (k : SlotKey)
    (remote : Bool)
    → queue_of (k, remote) (distribute room key es b).queues
      ≡ queue_of (k, remote) b.queues
        ++ (if key.0 == k.0 then inbox room.seed key.1 k.1 remote es else [])
unfolding distribute distribute_entry inbox
distribute-queues room key [] b k remote =
    ground (arith, append-nil (queue_of (k, remote) b.queues))
distribute-queues room key (e ∷ es) b k remote =
    let fuel = group_fuel room.seed in
    let here = copies k.1 remote (net_item key.1 e) (receivers fuel room.seed e.receiver) in
    ground (
      arith,
      distribute-queues room key es (distribute_entry room key e b) k remote,
      send_item_to-queue_all fuel room.seed key.0 e.receiver (net_item key.1 e) b.queues,
      queue_of-queue_all key.0 (net_item key.1 e) (receivers fuel room.seed e.receiver) b.queues k
          remote,
      append_assoc (queue_of (k, remote) b.queues) here (inbox room.seed key.1 k.1 remote es),
      append-nil (queue_of (k, remote) b.queues),
    )

-- The entries of a slot's new checks, in the order in which their items are sent.
abbrev pub sent_entries : MultiData → ℕ → List ℤ → List LocationEntry
sent_entries seed slot fresh = sort_by send_leb (entries_of seed slot fresh)

-- The queue after the items of some new checks.
abbrev queue_after : SlotKey → List ℤ → SlotKey → Bool → Room → List NetworkItem
queue_after key fresh k remote room =
    queue_of (k, remote) room.received_items
    ++ (if key.0 == k.0
        then inbox room.seed key.1 k.1 remote (sent_entries room.seed key.1 fresh)
        else [])

module _ (percent : ℕ → ℕ → ℤ) where
  queue_of-apply_fresh :
      (key : SlotKey) (fresh : List ℤ) (w : World) (k : SlotKey) (remote : Bool)
      → queue_of (k, remote) (apply_fresh percent key fresh w).room.received_items
        ≡ queue_after key fresh k remote w.room
  unfolding apply_fresh store_fresh batch_of sort_by entries_of inbox
  queue_of-apply_fresh key [] w k remote =
      ground (arith, append-nil (queue_of (k, remote) w.room.received_items))
  queue_of-apply_fresh key (l ∷ ls) w k remote =
      ap (λ (r : Room). queue_of (k, remote) r.received_items)
        (apply_fresh-SameButDeliveries percent key l ls w)
      ∙ distribute-queues w.room key (sent_entries w.room.seed key.1 (l ∷ ls)) (start_batch w.room)
          k remote

  -- Registering checks sends the entries, each once and in the order of receiver, item and location,
  -- of the slot's known locations among those given that it had not checked: at the end of each queue
  -- there are, in this order, the items of these entries that go to the queue's slot in the sender's
  -- team, itself or as a member of a group, leaving out its own items in the queue of clients that
  -- keep those; a queue of another team stays as it was.
  pub queue_of-register_location_checks :
      (key : SlotKey) (ls : List ℤ) (w : World)
      → (es : List LocationEntry) × IsSent w.room.seed key.1 (checks_of w.room key) ls es
        × ((k : SlotKey) (remote : Bool)
            → queue_of (k, remote) (register_location_checks percent key ls w).room.received_items
              ≡ queue_of (k, remote) w.room.received_items
                ++ (if key.0 == k.0 then inbox w.room.seed key.1 k.1 remote es else []))
  unfolding register_location_checks touch_checks
  queue_of-register_location_checks key ls w =
      let checked = checks_of w.room key in
      let split = split_fresh w.room.seed key.1 checked ls in
      let touched = touch_checks key w in
      (
        sent_entries w.room.seed key.1 (sorted_fresh split.0),
        sort_by-IsSent w.room.seed key.1 checked ls,
        λ k remote.
            queue_of-apply_fresh key (sorted_fresh split.0)
              (count_redundant key location_check split.1 touched) k remote
            ∙ ap (queue_after key (sorted_fresh split.0) k remote)
                (count_redundant-room key location_check split.1 touched),
      )
