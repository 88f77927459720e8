-- ===== src/Room/Lifecycle/Filters.antt =====
-- crates/pahoa-room/src/room.rs: the filters of slots and of the room, and who is told of a change.
use pahoa.Prelude.{
  subst, sym, ◌∙◌, Bool, true, false, not, ◌&&◌, Option, none, some, is_some, List, [], ◌∷◌, String,
  ◌≡◌, refl, arith, if◌then◌else◌,
}
use pahoa.Prelude.Equality.{string_eq, nat_eq, pair_eq}
use pahoa.Prelude.Dict.{Dict, lookup, insert, erase, get_or, lookup-insert, lookup-erase}
use pahoa.Room.Hints.{SlotKey}
use pahoa.Room.Filter.{Filter}
use pahoa.Room.Effects.{ConnId, Time}
use pahoa.Room.Client.{Client}
use pahoa.Room.State.{Room, World}
use pahoa.Room.Lifecycle.{filter_key, filter_for, push_filter}

abbrev pub room_filter : String
room_filter = "*"

abbrev pub filter_name : Option SlotKey → String
filter_name none = room_filter
filter_name (some key) = filter_key key

-- A filter as it is configured, without falling back to the room's.
unfoldable pub filter_of : Room → Option SlotKey → Option (Filter Time)
unfolding lookup filter_key
filter_of room slot = lookup (filter_name slot) room.filters

abbrev has_rules : Option (Filter Time) → Bool
has_rules none = false
has_rules (some filter) = elim filter.rules [ [] ↦ false | r ∷ rs ↦ true ]

-- Whether anything filters a slot.
unfoldable pub filters_slot : Room → SlotKey → Bool
unfolding filter_for
filters_slot room key = has_rules (filter_for room key)

-- The authenticated connections whose slots have no filter of their own.
unfoldable pub without_own : Dict String (Filter Time) → Dict ConnId Client → List ConnId
unfolding lookup filter_key
without_own filters [] = []
without_own filters ((conn, client) ∷ clients) =
    let rest = without_own filters clients in
    if client.auth && not (is_some (lookup (filter_key (client.team, client.slot)) filters))
    then client.id ∷ rest
    else rest

abbrev pub affected : Option SlotKey → Room → List ConnId
affected (some target) room = get_or room.by_slot target []
affected none room = without_own room.filters room.clients

abbrev pub put_filter :
    String → Option (Filter Time) → Dict String (Filter Time) → Dict String (Filter Time)
put_filter key (some filter) filters = insert key filter filters
put_filter key none filters = erase key filters

unfoldable pub push_filters : List ConnId → World → World
unfolding push_filter
push_filters [] w = w
push_filters (conn ∷ conns) w = push_filters conns (push_filter conn w)

unfoldable pub set_filter : Option SlotKey → Option (Filter Time) → World → World
unfolding push_filters without_own insert erase
set_filter slot filter w =
    let room = record w.room { filters = put_filter (filter_name slot) filter w.room.filters } in
    push_filters (affected slot room) (record w { room = room })

room-push_filters : (conns : List ConnId) (w : World) → (push_filters conns w).room ≡ w.room
unfolding push_filters push_filter
room-push_filters [] w = refl
room-push_filters (conn ∷ conns) w = room-push_filters conns (push_filter conn w) ∙ ground arith

lookup-put_filter :
    (key : String) (filter : Option (Filter Time)) (filters : Dict String (Filter Time))
    → lookup key (put_filter key filter filters) ≡ filter
lookup-put_filter key none filters =
    ground (arith, string_eq.beq_iff key key, lookup-erase key key filters)
lookup-put_filter key (some filter) filters =
    ground (arith, string_eq.beq_iff key key, lookup-insert key key filter filters)

-- The filter of a slot, or of the room, is the one that was set, or none where it was taken away.
filter_of-set_filter :
    (slot : Option SlotKey) (filter : Option (Filter Time)) (w : World)
    → filter_of (set_filter slot filter w).room slot ≡ filter
unfolding filter_of set_filter
filter_of-set_filter slot filter w =
    let changed : World = record w {
      room = record w.room { filters = put_filter (filter_name slot) filter w.room.filters };
    } in
    subst (λ (r : Room). lookup (filter_name slot) r.filters ≡ filter)
      (sym (room-push_filters (affected slot changed.room) changed))
      (lookup-put_filter (filter_name slot) filter w.room.filters)
