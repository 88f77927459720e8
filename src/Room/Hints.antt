-- ===== src/Room/Hints.antt =====
-- crates/pahoa-room/src/hints.rs: every slot's hints, in insertion order, and the hint economy.
pub mod Store
pub mod Found
pub mod Status
pub mod Collect
pub mod Economy
pub mod Choose
use pahoa.Prelude.{
  ℕ, zero, suc, ◌+◌, ◌*◌, ◌/◌, Bool, true, false, not, ◌&&◌, ◌||◌, Option, none, some, List, [],
  ◌∷◌, ◌++◌, map, String, is_some, ltb, leb, if◌then◌else◌,
}
use pahoa.Prelude.Int.{ℤ, pos, negsuc, ◌-ℤ◌, ◌*ℤ◌, wrap_i64}
use pahoa.Prelude.Equality.{Eq, ◌==◌, nat_eq, int_eq, pair_eq}
use pahoa.Prelude.Dict.{Dict, lookup, insert, get_or}
use pahoa.Multidata.Types.{
  Hint, HintIdentity, HintStatus, avoid, priority, found, identity, is_trap, identity_eq, status_eq,
}

-- `(team, slot)`
abbrev pub SlotKey : Type 0
SlotKey = ℕ × ℕ

pub record HintStore : Type 0 where
  pub by_slot : Dict SlotKey (List Hint)

unfoldable pub get : HintStore → SlotKey → List Hint
get store key = get_or store.by_slot key []

-- `h.finding_player == finder && h.location == location`
abbrev pub covers : ℕ → ℤ → Hint → Bool
covers finder location h = h.finding_player == finder && h.location == location

unfoldable pub find_hint : ℕ → ℤ → List Hint → Option Hint
find_hint finder location [] = none
find_hint finder location (h ∷ hs) =
    if covers finder location h then some h else find_hint finder location hs

unfoldable pub find : HintStore → SlotKey → ℕ → ℤ → Option Hint
unfolding get find_hint
find store key finder location = find_hint finder location (get store key)

-- The list after an upsert, and whether the hint was new.
unfoldable pub upsert_hint : Hint → List Hint → List Hint × Bool
upsert_hint hint [] = (hint ∷ [], true)
upsert_hint hint (h ∷ hs) =
    let (hs', fresh) = upsert_hint hint hs in
    if identity h == identity hint then (hint ∷ hs, false) else (h ∷ hs', fresh)

unfoldable pub upsert : HintStore → SlotKey → Hint → HintStore × Bool
unfolding get upsert_hint
upsert store key hint =
    let (list, fresh) = upsert_hint hint (get store key) in
    (record { by_slot = insert key list store.by_slot }, fresh)

unfoldable pub any_identity : HintIdentity → List Hint → Bool
any_identity id [] = false
any_identity id (h ∷ hs) = identity h == id || any_identity id hs

unfoldable pub contains : HintStore → SlotKey → HintIdentity → Bool
unfolding get any_identity
contains store key id = any_identity id (get store key)

-- Whether a recheck moves the hint.
unfoldable pub moves : SlotKey → (SlotKey → ℤ → Bool) → Hint → Bool
moves finder checked h =
    h.finding_player == finder.1
    && (not (h.found && h.status == found) && checked (finder.0, h.finding_player) h.location)

abbrev pub mark_found : Hint → Hint
mark_found h = record h { found = true; status = found }

unfoldable pub recheck_list : SlotKey → (SlotKey → ℤ → Bool) → List Hint → List Hint
unfolding moves
recheck_list finder checked [] = []
recheck_list finder checked (h ∷ hs) =
    (if moves finder checked h then mark_found h else h) ∷ recheck_list finder checked hs

unfoldable pub any_moves : SlotKey → (SlotKey → ℤ → Bool) → List Hint → Bool
unfolding moves
any_moves finder checked [] = false
any_moves finder checked (h ∷ hs) = moves finder checked h || any_moves finder checked hs

-- The map after a recheck, and the slots whose lists changed, in the map's order.
unfoldable pub recheck_slots :
    SlotKey
    → (SlotKey → ℤ → Bool)
    → Dict SlotKey (List Hint)
    → Dict SlotKey (List Hint) × List SlotKey
unfolding recheck_list any_moves
recheck_slots finder checked [] = ([], [])
recheck_slots finder checked ((key, hints) ∷ rest) =
    let (rest', changed) = recheck_slots finder checked rest in
    if key.0 == finder.0 && any_moves finder checked hints
    then ((key, recheck_list finder checked hints) ∷ rest', key ∷ changed)
    else ((key, hints) ∷ rest', changed)

-- `sort_unstable` on pairs
abbrev pub key_leb : SlotKey → SlotKey → Bool
key_leb a b = ltb a.0 b.0 || (a.0 == b.0 && leb a.1 b.1)

unfoldable pub insert_key : SlotKey → List SlotKey → List SlotKey
insert_key k [] = k ∷ []
insert_key k (j ∷ js) = if key_leb k j then k ∷ j ∷ js else j ∷ insert_key k js

unfoldable pub sort_keys : List SlotKey → List SlotKey
unfolding insert_key
sort_keys [] = []
sort_keys (k ∷ ks) = insert_key k (sort_keys ks)

unfoldable pub recheck : HintStore → SlotKey → (SlotKey → ℤ → Bool) → HintStore × List SlotKey
unfolding recheck_slots sort_keys
recheck store finder checked =
    let (slots, changed) = recheck_slots finder checked store.by_slot in
    (record { by_slot = slots }, sort_keys changed)

abbrev pub cons_first : Hint → Option (List Hint × Hint) → Option (List Hint × Hint)
cons_first h none = none
cons_first h (some (hs, changed)) = some (h ∷ hs, changed)

-- The status that a hint may be given: a found hint cannot have any other.
abbrev pub effective : HintStatus → Hint → HintStatus
effective status h = if h.found then found else status

abbrev pub with_status : HintStatus → Hint → Hint
with_status status h = record h { status = status }

-- The first hint that covers the location gets the status, unless it has it.
unfoldable pub set_status_list : ℕ → ℤ → HintStatus → List Hint → Option (List Hint × Hint)
set_status_list finder location status [] = none
set_status_list finder location status (h ∷ hs) =
    let later = cons_first h (set_status_list finder location status hs) in
    let h' = with_status (effective status h) h in
    if covers finder location h
    then (if h.status == effective status h then none else some (h' ∷ hs, h'))
    else later

abbrev pub put_list : HintStore → SlotKey → Option (List Hint × Hint) → HintStore × Option Hint
put_list store key none = (store, none)
put_list store key (some (list, hint)) =
    (record { by_slot = insert key list store.by_slot }, some hint)

abbrev pub set_status_in :
    HintStore → SlotKey → ℕ → ℤ → HintStatus → Option (List Hint) → HintStore × Option Hint
set_status_in store key finder location status none = (store, none)
set_status_in store key finder location status (some list) =
    put_list store key (set_status_list finder location status list)

unfoldable pub set_status : HintStore → SlotKey → ℕ → ℤ → HintStatus → HintStore × Option Hint
unfolding set_status_list
set_status store key finder location status =
    set_status_in store key finder location status (lookup key store.by_slot)

unfoldable pub replace : HintStore → SlotKey → List Hint → HintStore
replace store key hints = record { by_slot = insert key hints store.by_slot }

unfoldable pub automatic_status : Bool → ℕ → HintStatus
automatic_status was_found flags =
    if was_found then found else if is_trap flags then avoid else priority

-- Arithmetic of a release build, which wraps.
unfoldable pub points : ℕ → ℕ → ℤ → ℤ → ℤ
points checks check_points hint_cost hints_used =
    wrap_i64 (pos check_points *ℤ wrap_i64 (pos checks) -ℤ hint_cost *ℤ hints_used)

abbrev pub unlimited : ℕ
unlimited = 1000

-- `points_available / cost > 0`: `/` on `i64` truncates toward zero.
abbrev pub affords : ℤ → ℤ → Bool
affords (pos p) (pos c) = ltb 0 (p / c)
affords (negsuc p) (negsuc c) = ltb 0 (suc p / suc c)
affords _ _ = false

unfoldable pub budget : ℤ → ℤ → Bool → ℕ
budget cost points_available any_unfound =
    if not any_unfound || cost == pos 0
    then unlimited
    else if affords points_available cost
    then 1
    else 0
