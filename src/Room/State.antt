-- ===== src/Room/State.antt =====
-- crates/pahoa-room/src/room.rs and redundant.rs: the state of a room, and what is read off it.
use pahoa.Prelude.{
  ℕ, ◌+◌, ◌%◌, ◌^◌, Bool, true, false, Option, none, some, List, [], ◌∷◌, ◌++◌, map, length, String,
  ◌≡◌, ◌↔◌, eqb, if◌then◌else◌, arith,
}
use pahoa.Prelude.Int.{ℤ}
use pahoa.Prelude.Equality.{Eq, ◌==◌, nat_eq, int_eq, pair_eq, string_eq, bool_eq, contains}
use pahoa.Prelude.Dict.{Dict, lookup, insert, get_or}
use pahoa.Prelude.Text.{format, show}
use pahoa.Multidata.Types.{NetworkSlot, NetworkItem, SlotType, ClientStatus, unknown}
use pahoa.Multidata.Locations.{LocationEntry, for_slot}
use pahoa.Room.Filter.{Filter}
use pahoa.Room.Hints.{SlotKey, HintStore}
use pahoa.Room.Hints.Collect.{MultiData}
use pahoa.Room.Effects.{ConnId, Time, Effect}
use pahoa.Room.Client.{Client}
use pahoa.Room.Options.{RoomOptions}

-- `(team, slot, remote_items)`
abbrev pub QueueKey : Type 0
QueueKey = SlotKey × Bool

-- The fields of the room that the operations of the model read or write; of the data package, the
-- checksums of its games. The share of a rule is the bits of its `f64`.
pub record Room : Type 0 where
  pub seed : MultiData
  pub options : RoomOptions
  pub clients : Dict ConnId Client
  pub by_slot : Dict SlotKey (List ConnId)
  pub location_checks : Dict SlotKey (List ℤ)
  pub received_items : Dict QueueKey (List NetworkItem)
  pub client_game_state : Dict SlotKey ClientStatus
  pub name_aliases : Dict SlotKey String
  pub activity_at : Dict SlotKey Time
  pub connected_at : Dict SlotKey Time
  pub hints_used : Dict SlotKey ℤ
  pub hints : HintStore
  pub allow_releases : List SlotKey
  pub locked_slots : List SlotKey
  pub filters : Dict String (Filter Time)
  pub group_collected : Dict ℕ (List ℕ)
  pub admin_conn : Option ConnId
  pub stored_data_subscriptions : Dict String (List ConnId)
  pub checksums : Dict String String
  pub start_time : Time
  pub clock : Time

pub data Kind : Type 0 where
  location_check hint_kind : Kind

abbrev pub eqb_kind : Kind → Kind → Bool
eqb_kind location_check location_check = true
eqb_kind hint_kind hint_kind = true
eqb_kind _ _ = false

pub eqb_kind_iff : (a b : Kind) → (eqb_kind a b ≡ true) ↔ (a ≡ b)
eqb_kind_iff a b = ground arith

instance abbrev pub kind_eq : Eq Kind
kind_eq = record { beq = eqb_kind; beq_iff = eqb_kind_iff }

-- The room, the counters that the process keeps beside it, and what was sent so far.
pub record World : Type 0 where
  pub room : Room
  pub redundant : Dict (SlotKey × Kind) ℕ
  pub out : List Effect

abbrev pub emit : Effect → World → World
emit effect w = record w { out = w.out ++ effect ∷ [] }

-- `redundant::record`: the counter is a `u64`, which wraps.
unfoldable pub count_redundant : SlotKey → Kind → ℕ → World → World
count_redundant key kind count w =
    let total = (get_or w.redundant (key, kind) 0 + count % 2 ^ 64) % 2 ^ 64 in
    if eqb count 0 then w else record w { redundant = insert (key, kind) total w.redundant }

unfoldable pub sum_kind : Kind → Dict (SlotKey × Kind) ℕ → ℕ
sum_kind kind [] = 0
sum_kind kind ((key, count) ∷ rest) =
    let total = sum_kind kind rest in if key.1 == kind then (count + total) % 2 ^ 64 else total

abbrev is_group : SlotType → Bool
is_group SlotType.group = true
is_group _ = false

abbrev group_members : Option NetworkSlot → List ℕ
group_members none = []
group_members (some info) = if is_group info.slot_type then info.group_members else []

unfoldable pub group_members_of : MultiData → ℕ → List ℕ
group_members_of seed slot = group_members (lookup slot seed.slot_info)

abbrev or_self : ℕ → List ℕ → List ℕ
or_self slot [] = slot ∷ []
or_self slot (m ∷ ms) = m ∷ ms

unfoldable pub slot_set : MultiData → ℕ → List ℕ
unfolding group_members_of
slot_set seed slot = or_self slot (group_members_of seed slot)

unfoldable pub slot_name : Room → SlotKey → String
slot_name room key = elim (lookup key.1 room.seed.slot_info) [
  | some info ↦ info.name
  | none ↦ format ("Unknown slot " ∷ show key.1 ∷ [])
]

unfoldable pub slot_alias : Room → SlotKey → String
unfolding slot_name
slot_alias room key = elim (lookup key room.name_aliases) [
  | some alias ↦ format (alias ∷ " (" ∷ slot_name room key ∷ ")" ∷ [])
  | none ↦ slot_name room key
]

unfoldable pub slot_game : Room → ℕ → String
slot_game room slot = elim (lookup slot room.seed.slot_info) [
  | some info ↦ info.game
  | none ↦ "Archipelago"
]

unfoldable pub status : Room → SlotKey → ClientStatus
status room key = get_or room.client_game_state key unknown

abbrev pub checks_of : Room → SlotKey → List ℤ
checks_of room key = get_or room.location_checks key []

unfoldable pub is_checked : Room → SlotKey → ℤ → Bool
is_checked room key location = contains (checks_of room key) location

unfoldable pub checked_count : Room → SlotKey → ℕ
checked_count room key = length (checks_of room key)

abbrev pub location_of : LocationEntry → ℤ
location_of e = e.location

abbrev pub locations_of : Room → ℕ → List ℤ
locations_of room slot = map location_of (for_slot room.seed.locations slot)

unfoldable pub unchecked : List ℤ → List ℤ → List ℤ
unchecked already [] = []
unchecked already (l ∷ ls) =
    let rest = unchecked already ls in if contains already l then rest else l ∷ rest

unfoldable pub missing_locations : Room → SlotKey → List ℤ
unfolding unchecked
missing_locations room key = unchecked (checks_of room key) (locations_of room key.1)
