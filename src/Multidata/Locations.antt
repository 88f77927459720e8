-- ===== src/Multidata/Locations.antt =====
-- crates/pahoa-multidata/src/locations.rs: the location table, sorted by sender and location, with an
-- index of (start, count) for each slot.
pub mod Grouped
pub mod Runs
pub mod Lookup
pub mod Slots
pub mod Ascending
pub mod Unique
pub mod Known
use pahoa.Prelude.{
  ℕ, zero, suc, ◌+◌, ◌-◌, ◌/◌, ◌%◌, ◌^◌, Bool, true, false, not, ◌&&◌, ◌||◌, Option, none, some,
  List, [], ◌∷◌, length, take, drop, get_elem?, set, replicate, map, ltb, leb, eqb, is_some,
  if◌then◌else◌,
}
use pahoa.Prelude.Result.{Result, ok, err, ◌>>=◌, ◌>>◌}
use pahoa.Prelude.Int.{ℤ, ltb_ℤ, eqb_ℤ}

pub record LocationEntry : Type 0 where
  pub location : ℤ
  pub item : ℤ
  pub sender : ℕ
  pub receiver : ℕ
  pub flags : ℕ

pub record LocationStore : Type 0 where
  pub entries : List LocationEntry
  pub index : List (ℕ × ℕ)
  pub slots : ℕ

-- The order of the sort key (sender, location).
abbrev pub key_leb : LocationEntry → LocationEntry → Bool
key_leb a b = ltb a.sender b.sender || (eqb a.sender b.sender && not (ltb_ℤ b.location a.location))

-- `sort_unstable_by_key`: entries of one key, which `validate` refuses, keep their order here.
unfoldable pub insert_entry : LocationEntry → List LocationEntry → List LocationEntry
insert_entry e [] = e ∷ []
insert_entry e (f ∷ fs) = if key_leb e f then e ∷ f ∷ fs else f ∷ insert_entry e fs

unfoldable pub sort_entries : List LocationEntry → List LocationEntry
unfolding insert_entry
sort_entries [] = []
sort_entries (e ∷ es) = insert_entry e (sort_entries es)

-- The inner loop: how many entries at the front have this sender.
unfoldable pub run_length : ℕ → List LocationEntry → ℕ
run_length sender [] = 0
run_length sender (e ∷ es) = if eqb e.sender sender then suc (run_length sender es) else 0

-- The outer loop, from position `i` on, over the index and the count of slots. Each round takes an
-- entry at least, so the number of entries is fuel enough. Positions are stored as `u32`.
unfoldable pub index_runs : ℕ → ℕ → List LocationEntry → List (ℕ × ℕ) → ℕ → List (ℕ × ℕ) × ℕ
unfolding run_length
index_runs zero i es index slots = (index, slots)
index_runs (suc fuel) i [] index slots = (index, slots)
index_runs (suc fuel) i (e ∷ es) index slots =
    let n = run_length e.sender (e ∷ es) in
    index_runs fuel (i + n) (drop n (e ∷ es)) (set index e.sender (i % 2 ^ 32, n % 2 ^ 32))
      (suc slots)

-- The source panics at a sender above the highest slot; here the index passes over it.
unfoldable pub from_entries : List LocationEntry → ℕ → LocationStore
unfolding sort_entries index_runs
from_entries es max_slot =
    let entries = sort_entries es in
    let (index, slots) =
      index_runs (length entries) 0 entries (replicate (max_slot + 1) (0, 0)) 0 in
    record { entries = entries; index = index; slots = slots }

-- `from_py` counts the slots itself: a slot may be declared and own nothing.
abbrev pub declared : List LocationEntry → ℕ → ℕ → LocationStore
declared es max_slot slots = record (from_entries es max_slot) { slots = slots }

-- `&self.entries[start..start + count]`
abbrev pub slice : List LocationEntry → ℕ × ℕ → List LocationEntry
slice entries (start, count) = take count (drop start entries)

abbrev pub slice? : List LocationEntry → Option (ℕ × ℕ) → List LocationEntry
slice? entries none = []
slice? entries (some range) = slice entries range

unfoldable pub for_slot : LocationStore → ℕ → List LocationEntry
for_slot store slot = slice? store.entries (get_elem? store.index slot)

-- `cmp != Greater`
abbrev pub reaches : ℤ → Option LocationEntry → Bool
reaches location none = false
reaches location (some e) = not (ltb_ℤ location e.location)

-- `binary_search_by_key`: halving the part of the slice that is left, `size` entries from `base`.
-- Each round but the last makes the size smaller, so the size is fuel enough.
unfoldable pub search_base : ℕ → List LocationEntry → ℤ → ℕ → ℕ → ℕ
search_base zero es location base size = base
search_base (suc fuel) es location base size =
    let half = size / 2 in
    let right = reaches location (get_elem? es (base + half)) in
    let rest = search_base fuel es location (if right then base + half else base) (size - half) in
    if leb size 1 then base else rest

unfoldable pub binary_search : List LocationEntry → ℤ → Option LocationEntry
unfolding search_base
binary_search es location =
    elim (get_elem? es (search_base (length es) es location 0 (length es))) [
      | none ↦ none
      | some e ↦ if eqb_ℤ e.location location then some e else none
    ]

unfoldable pub get : LocationStore → ℕ → ℤ → Option LocationEntry
unfolding binary_search
get store slot location = binary_search (for_slot store slot) location

unfoldable pub contains : LocationStore → ℕ → ℤ → Bool
contains store slot location = is_some (get store slot location)

unfoldable pub count_for : LocationStore → ℕ → ℕ
count_for store slot = length (for_slot store slot)

unfoldable pub max_slot : LocationStore → ℕ
max_slot store = length store.index - 1

-- `validate`'s refusals; their texts are left out, and a gap's slot is kept where there is one.
pub data LocationsError : Type 0 where
  no_locations : LocationsError
  slot_gap : Option ℕ → LocationsError
  duplicate_location : ℕ → ℤ → LocationsError

-- `(from..=last).find(|s| self.index[*s].1 == 0)`, for the slots whose ranges are given.
unfoldable pub first_empty : ℕ → List (ℕ × ℕ) → Option ℕ
first_empty slot [] = none
first_empty slot ((start, count) ∷ rest) =
    if eqb count 0 then some slot else first_empty (suc slot) rest

-- `s.windows(2).find(|w| w[0].location == w[1].location)`
unfoldable pub first_repeat : List LocationEntry → Option ℤ
first_repeat [] = none
first_repeat (a ∷ []) = none
first_repeat (a ∷ b ∷ es) =
    if eqb_ℤ a.location b.location then some a.location else first_repeat (b ∷ es)

-- `for slot in 1..=self.max_slot()`, with the number of slots to go.
unfoldable pub check_slots : LocationStore → ℕ → ℕ → Result LocationsError (Unit {0})
unfolding first_repeat for_slot
check_slots store zero slot = ok tt
check_slots store (suc n) slot = elim (first_repeat (for_slot store slot)) [
  | none ↦ check_slots store n (suc slot)
  | some location ↦ err (duplicate_location slot location)
]

unfoldable pub validate : LocationStore → Result LocationsError (Unit {0})
unfolding first_empty check_slots max_slot
validate store =
    if eqb (length store.entries) 0
    then err no_locations
    else if not (eqb store.slots (max_slot store))
    then err (slot_gap (first_empty 1 (drop 1 store.index)))
    else check_slots store (max_slot store) 1
