-- ===== src/Room/Announce.antt =====
-- crates/pahoa-room/src/room.rs: telling the slots of a team about hints, and remembering those.
use pahoa.Prelude.{
  ℕ, ◌+◌, ◌-◌, Bool, true, false, not, ◌&&◌, ◌||◌, Option, none, some, List, [], ◌∷◌, map, length,
  eqb, leb, get_elem?, if◌then◌else◌,
}
use pahoa.Prelude.Int.{ℤ}
use pahoa.Prelude.Equality.{◌==◌, nat_eq, pair_eq, contains as mem}
use pahoa.Prelude.Dict.{get_or}
use pahoa.Prelude.Sorting.{sort_by, insert_set}
use pahoa.Multidata.Types.{Hint, identity}
use pahoa.Proto.Packets.{room_update}
use pahoa.Room.Hints.{SlotKey, HintStore, contains, upsert}
use pahoa.Room.Hints.Collect.{MultiData}
use pahoa.Room.Effects.{ConnId, broadcast, mark_dirty, to_slot, slot_text}
use pahoa.Room.State.{World, emit, slot_set}
use pahoa.Room.Messages.{hint_message}
use pahoa.Room.Checks.{on_changed_hints, slot_points}
use pahoa.Room.Sweeps.{push_source}

-- `BTreeMap<u32, Vec<usize>>`: the positions of the hints that concern a slot.
abbrev pub Concerns : Type 0
Concerns = List (ℕ × List ℕ)

unfoldable pub positions_of : ℕ → Concerns → List ℕ
positions_of slot [] = []
positions_of slot ((s, is) ∷ rest) = if eqb s slot then is else positions_of slot rest

unfoldable pub new_only : HintStore → ℕ → List Hint → List Hint
new_only store team [] = []
new_only store team (h ∷ hs) =
    let rest = new_only store team hs in
    if contains store (team, h.finding_player) (identity h) then rest else h ∷ rest

-- `hints.sort_by_key(|h| !h.found)`, which keeps the order of equals.
abbrev pub found_leb : Hint → Hint → Bool
found_leb a b = a.found || not b.found

unfoldable pub concern_each : List ℕ → ℕ → Concerns → Concerns
unfolding push_source
concern_each [] index concerns = concerns
concern_each (p ∷ ps) index concerns = concern_each ps index (push_source p index concerns)

-- The finder hears of it too, once.
abbrev pub concern_finder : Hint → ℕ → Concerns → Concerns
concern_finder h index concerns =
    if h.receiving_player == h.finding_player || mem (positions_of h.finding_player concerns) index
    then concerns
    else push_source h.finding_player index concerns

unfoldable pub concern_all : MultiData → ℕ → List Hint → Concerns → Concerns
unfolding concern_each positions_of slot_set
concern_all seed index [] concerns = concerns
concern_all seed index (h ∷ hs) concerns =
    concern_all seed (index + 1) hs
      (concern_finder h index (concern_each (slot_set seed h.receiving_player) index concerns))

-- The store, and the slots that have new hints.
unfoldable pub bank_each : ℕ → Hint → List ℕ → HintStore × List ℕ → HintStore × List ℕ
unfolding upsert
bank_each team h [] (store, events) = (store, events)
bank_each team h (p ∷ ps) (store, events) =
    bank_each team h ps ((upsert store (team, p) h).0, insert_set events p)

unfoldable pub bank : MultiData → ℕ → Bool → Hint → HintStore × List ℕ → HintStore × List ℕ
unfolding bank_each contains slot_set
bank seed team persist h (store, events) =
    let banked =
      bank_each team h (h.finding_player ∷ slot_set seed h.receiving_player) (store, events) in
    if (not h.found || persist) && not (contains store (team, h.finding_player) (identity h))
    then banked
    else (store, events)

unfoldable pub bank_all : MultiData → ℕ → Bool → List Hint → HintStore × List ℕ → HintStore × List ℕ
unfolding bank
bank_all seed team persist [] s = s
bank_all seed team persist (h ∷ hs) s = bank_all seed team persist hs (bank seed team persist h s)

-- The hints at some positions; those that the slot finds come first.
unfoldable pub pick : List Hint → List ℕ → List Hint
pick hints [] = []
pick hints (i ∷ is) = elim (get_elem? hints i) [ none ↦ pick hints is | some h ↦ h ∷ pick hints is ]

abbrev pub finds_leb : ℕ → Hint → Hint → Bool
finds_leb slot a b = a.finding_player == slot || not (b.finding_player == slot)

abbrev pub restricted : Option (List ℕ) → ℕ → Bool
restricted none slot = false
restricted (some slots) slot = not (mem slots slot)

abbrev no_conns : List ConnId → Bool
no_conns [] = true
no_conns (c ∷ cs) = false

unfoldable pub deliver_hints : ℕ → List Hint → Option (List ℕ) → Concerns → World → World
unfolding pick
deliver_hints team hints recipients [] w = w
deliver_hints team hints recipients ((slot, is) ∷ rest) w =
    let told =
      emit
        (broadcast (slot_text (team, slot))
          (map hint_message (sort_by (finds_leb slot) (pick hints is))))
        w in
    deliver_hints team hints recipients rest (
      if restricted recipients slot || no_conns (get_or w.room.by_slot (team, slot) [])
      then w
      else told)

module _ (percent : ℕ → ℕ → ℤ) where
  unfoldable pub on_new_hint : SlotKey → World → World
  on_new_hint key w =
      let told = on_changed_hints key w in
      emit
        (broadcast (to_slot key) (
          room_update (record {
            checked_locations = none;
            hint_points = some (slot_points percent told.room key);
          })
          ∷ []))
        told

  unfoldable pub each_new_hint : ℕ → List ℕ → World → World
  unfolding on_new_hint
  each_new_hint team [] w = w
  each_new_hint team (slot ∷ slots) w = each_new_hint team slots (on_new_hint (team, slot) w)

  abbrev pub mark_banked : List ℕ → World → World
  mark_banked [] w = w
  mark_banked (e ∷ es) w = emit mark_dirty w

  unfoldable pub notify_new : ℕ → Bool → Option (List ℕ) → List Hint → World → World
  unfolding bank_all concern_all each_new_hint deliver_hints
  notify_new team persist recipients [] w = w
  notify_new team persist recipients (h ∷ hs) w =
      let hints = sort_by found_leb (h ∷ hs) in
      let banked = bank_all w.room.seed team persist hints (w.room.hints, []) in
      let events = sort_by leb banked.1 in
      let stored = record w { room = record w.room { hints = banked.0 } } in
      deliver_hints team hints recipients (concern_all w.room.seed 0 hints [])
        (each_new_hint team events (mark_banked events stored))

  -- The world, and how many hints were dropped since they exist.
  unfoldable pub notify_hints : ℕ → List Hint → Bool → Bool → Option (List ℕ) → World → World × ℕ
  unfolding new_only notify_new
  notify_hints team hints only_new persist recipients w =
      let kept = if only_new then new_only w.room.hints team hints else hints in
      (notify_new team persist recipients kept w, length hints - length kept)
