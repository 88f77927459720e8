-- ===== src/Room/Hints/Collect.antt =====
-- crates/pahoa-room/src/hints.rs: collecting the hints of an item or a location from the seed's tables.
pub mod Covers
use pahoa.Prelude.{
  ℕ, Bool, true, false, not, ◌&&◌, ◌||◌, Option, none, some, List, [], ◌∷◌, String, leb,
  if◌then◌else◌,
}
use pahoa.Prelude.Int.{ℤ}
use pahoa.Prelude.Equality.{◌==◌, nat_eq, int_eq, contains as mem}
use pahoa.Prelude.Dict.{Dict, lookup}
use pahoa.Multidata.Types.{Hint, HintStatus, found, NetworkSlot, Version}
use pahoa.Multidata.Locations.{LocationEntry, LocationStore, get as get_entry}
use pahoa.Room.Hints.{SlotKey, HintStore, find, automatic_status}

-- The fields of the multidata that the operations of the room read.
pub record MultiData : Type 0 where
  pub slot_info : Dict ℕ NetworkSlot
  pub locations : LocationStore
  pub er_hint_data : Dict ℕ (Dict ℤ String)
  pub precollected_items : Dict ℕ (List ℤ)
  pub connect_names : Dict String SlotKey
  pub seed_name : String
  pub generator_version : Version
  pub minimum_client_versions : Dict ℕ Version

-- The groups that a slot is a member of.
unfoldable pub groups_of : ℕ → Dict ℕ NetworkSlot → List ℕ
groups_of slot [] = []
groups_of slot ((group_id, info) ∷ rest) =
    let groups = groups_of slot rest in
    if mem info.group_members slot then group_id ∷ groups else groups

unfoldable pub insert_slot : ℕ → List ℕ → List ℕ
insert_slot s [] = s ∷ []
insert_slot s (t ∷ ts) = if leb s t then s ∷ t ∷ ts else t ∷ insert_slot s ts

unfoldable pub sort_slots : List ℕ → List ℕ
unfolding insert_slot
sort_slots [] = []
sort_slots (s ∷ ss) = insert_slot s (sort_slots ss)

-- `dedup`, which compares neighbours.
unfoldable pub dedup : List ℕ → List ℕ
dedup [] = []
dedup (s ∷ []) = s ∷ []
dedup (s ∷ t ∷ ss) = let rest = dedup (t ∷ ss) in if s == t then rest else s ∷ rest

unfoldable pub hintable_slots : MultiData → ℕ → List ℕ
unfolding groups_of sort_slots dedup
hintable_slots seed slot = dedup (sort_slots (slot ∷ groups_of slot seed.slot_info))

abbrev pub entrance_in : ℤ → Option (Dict ℤ String) → String
entrance_in location none = ""
entrance_in location (some m) = elim (lookup location m) [ none ↦ "" | some name ↦ name ]

-- A status that the caller gives is set aside for a location that is checked.
abbrev pub fresh_status : Bool → ℕ → Option HintStatus → HintStatus
fresh_status true flags status = found
fresh_status false flags none = automatic_status false flags
fresh_status false flags (some status) = status

unfoldable pub fresh_hint : MultiData → LocationEntry → Option HintStatus → Bool → Hint
fresh_hint seed entry status is_checked = record {
  receiving_player = entry.receiver;
  finding_player = entry.sender;
  location = entry.location;
  item = entry.item;
  found = is_checked;
  entrance = entrance_in entry.location (lookup entry.sender seed.er_hint_data);
  item_flags = entry.flags;
  status = fresh_status is_checked entry.flags status;
}

abbrev pub or_fresh : Option Hint → Hint → Hint
or_fresh none h = h
or_fresh (some existing) h = existing

module _ (seed : MultiData) (store : HintStore) (key : SlotKey) (status : Option HintStatus)
    (checked : ℕ → ℤ → Bool) where
  -- A hint that the store has is taken as it is.
  unfoldable pub build : LocationEntry → Hint
  unfolding find fresh_hint
  build entry =
      or_fresh (find store key entry.sender entry.location)
        (fresh_hint seed entry status (checked entry.sender entry.location))

  unfoldable pub collect : List ℕ → ℤ → List LocationEntry → List Hint
  unfolding build
  collect wanted item [] = []
  collect wanted item (entry ∷ rest) =
      let later = collect wanted item rest in
      if not (entry.item == item) || not (mem wanted entry.receiver)
      then later
      else build entry ∷ later

  unfoldable pub collect_for_item : ℕ → ℤ → List Hint
  unfolding collect hintable_slots
  collect_for_item slot item = collect (hintable_slots seed slot) item seed.locations.entries

  abbrev pub build_found : Option LocationEntry → List Hint
  build_found none = []
  build_found (some entry) = build entry ∷ []

  unfoldable pub collect_for_location : ℕ → ℤ → List Hint
  unfolding build
  collect_for_location slot location = build_found (get_entry seed.locations slot location)
