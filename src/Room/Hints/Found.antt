-- ===== src/Room/Hints/Found.antt =====
-- crates/pahoa-room/src/hints.rs: `recheck` and `set_status`, and the status of found hints.
use pahoa.Prelude.{
  Bool, true, false, ◌&&◌, ◌||◌, List, [], ◌∷◌, All, map, ◌≡◌, ◌≢◌, ◌↔◌, refl, ap, ◌∙◌, arith,
  if◌then◌else◌,
}
use pahoa.Prelude.Int.{ℤ}
use pahoa.Prelude.Equality.{◌==◌, nat_eq, int_eq, pair_eq, contains as mem}
use pahoa.Prelude.Dict.{Dict, lookup, get_or, IsMap}
use pahoa.Multidata.Types.{Hint, found, identity, identity_eq, status_eq}
use pahoa.Room.Hints.{
  SlotKey, HintStore, get, moves, mark_found, recheck_list, any_moves, recheck_slots, insert_key,
  sort_keys, recheck,
}

module _ (finder : SlotKey) (checked : SlotKey → ℤ → Bool) where
  get_recheck : Dict SlotKey (List Hint) → SlotKey → List Hint
  get_recheck d key = get_or (recheck_slots finder checked d).0 key []

  recheck_list-still :
      (hs : List Hint) → any_moves finder checked hs ≡ false → recheck_list finder checked hs ≡ hs
  unfolding any_moves recheck_list
  recheck_list-still [] h = refl
  recheck_list-still (x ∷ hs) h = ground (arith, recheck_list-still hs)

  -- A recheck of the finder's team, slot by slot.
  get-recheck :
      (d : Dict SlotKey (List Hint)) (key : SlotKey)
      → get_or (recheck_slots finder checked d).0 key [] ≡ (
          if key.0 == finder.0
          then recheck_list finder checked (get_or d key [])
          else get_or d key [])
  unfolding recheck_slots lookup recheck_list
  get-recheck [] key = ground arith
  get-recheck ((j, hints) ∷ d) key =
      ground (arith, pair_eq.beq_iff j key, recheck_list-still hints, get-recheck d key)

  -- Whether the hint is found, with that status, if its finder has checked its location.
  abbrev pub IsRechecked : Hint → Type 0
  IsRechecked h =
      h.finding_player ≡ finder.1
      → checked (finder.0, h.finding_player) h.location ≡ true
      → (h.found ≡ true) × (h.status ≡ found)

  recheck_list-IsRechecked : (hs : List Hint) → All IsRechecked (recheck_list finder checked hs)
  unfolding recheck_list moves
  recheck_list-IsRechecked [] = tt
  recheck_list-IsRechecked (h ∷ hs) =
      ground (arith, status_eq.beq_iff h.status found, recheck_list-IsRechecked hs)

  map-recheck_list :
      (hs : List Hint) → map identity (recheck_list finder checked hs) ≡ map identity hs
  unfolding recheck_list identity
  map-recheck_list [] = refl
  map-recheck_list (h ∷ hs) = ground (arith, map-recheck_list hs)

  moves-mark_found : (h : Hint) → mark_found h ≡ h → moves finder checked h ≡ false
  unfolding moves
  moves-mark_found h e =
      ground (arith, ap (λ x. x.found) e, ap (λ x. x.status) e, status_eq.beq_iff h.status found)

  still-recheck_list :
      (hs : List Hint) → recheck_list finder checked hs ≡ hs → any_moves finder checked hs ≡ false
  unfolding any_moves recheck_list
  still-recheck_list [] e = refl
  still-recheck_list (h ∷ hs) e = ground (arith, moves-mark_found h, still-recheck_list hs)

  mem-recheck :
      (d : Dict SlotKey (List Hint)) (key : SlotKey)
      → IsMap d
      → mem (recheck_slots finder checked d).1 key
        ≡ (key.0 == finder.0 && any_moves finder checked (get_or d key []))
  unfolding mem recheck_slots lookup IsMap any_moves
  mem-recheck [] key m = ground arith
  mem-recheck ((j, hints) ∷ d) key m = ground (arith, pair_eq.beq_iff j key, mem-recheck d key m.1)

mem-insert_key :
    (k key : SlotKey) (ks : List SlotKey) → mem (insert_key k ks) key ≡ (k == key || mem ks key)
unfolding mem insert_key
mem-insert_key k key [] = refl
mem-insert_key k key (j ∷ js) = ground (arith, mem-insert_key k key js)

mem-sort_keys : (key : SlotKey) (ks : List SlotKey) → mem (sort_keys ks) key ≡ mem ks key
unfolding mem sort_keys
mem-sort_keys key [] = refl
mem-sort_keys key (k ∷ ks) =
    mem-insert_key k key (sort_keys ks) ∙ ap (λ b. k == key || b) (mem-sort_keys key ks)

-- After a recheck of a finder, each hint of its team for a location that it has checked is found, with
-- that status.
pub recheck-IsRechecked :
    (store : HintStore) (finder : SlotKey) (checked : SlotKey → ℤ → Bool) (key : SlotKey)
    → key.0 ≡ finder.0
    → All (IsRechecked finder checked) (get (recheck store finder checked).0 key)
unfolding get recheck
recheck-IsRechecked store finder checked key h =
    rw (get-recheck finder checked store.by_slot key, (nat_eq.beq_iff key.0 finder.0).1 h)
      (recheck_list-IsRechecked finder checked (get store key))

-- A recheck keeps the identities of every list in place, and all lists of the other teams.
pub recheck-map :
    (store : HintStore) (finder : SlotKey) (checked : SlotKey → ℤ → Bool) (key : SlotKey)
    → (map identity (get (recheck store finder checked).0 key) ≡ map identity (get store key))
      × (key.0 ≢ finder.0 → get (recheck store finder checked).0 key ≡ get store key)
unfolding get recheck
recheck-map store finder checked key = ground (
  arith,
  get-recheck finder checked store.by_slot key,
  map-recheck_list finder checked (get store key),
)

-- Where each slot has one list, the slots that a recheck reports are those whose lists it changed.
pub recheck-changed :
    (store : HintStore) (finder : SlotKey) (checked : SlotKey → ℤ → Bool) (key : SlotKey)
    → IsMap store.by_slot
    → (mem (recheck store finder checked).1 key ≡ true)
      ↔ (get (recheck store finder checked).0 key ≢ get store key)
unfolding get recheck
recheck-changed store finder checked key m = ground (
  arith,
  get-recheck finder checked store.by_slot key,
  mem-sort_keys key (recheck_slots finder checked store.by_slot).1,
  mem-recheck finder checked store.by_slot key m,
  recheck_list-still finder checked (get store key),
  still-recheck_list finder checked (get store key),
)
