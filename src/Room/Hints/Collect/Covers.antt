-- ===== src/Room/Hints/Collect/Covers.antt =====
-- crates/pahoa-room/src/hints.rs: what `collect_for_item` collects, and for which slots.
use pahoa.Prelude.{
  ℕ, Bool, true, false, not, ◌||◌, Option, none, some, List, [], ◌∷◌, All, is_some, ◌≡◌, refl, ap,
  ◌∙◌, arith, if_both, Option-cases, inl, inr,
}
use pahoa.Prelude.Int.{ℤ}
use pahoa.Prelude.Ordered.{All-map}
use pahoa.Prelude.Equality.{◌==◌, nat_eq, int_eq, contains as mem}
use pahoa.Prelude.Dict.{Dict, lookup, IsMap}
use pahoa.Multidata.Types.{Hint, HintStatus, found, NetworkSlot}
use pahoa.Multidata.Locations.{LocationEntry}
use pahoa.Room.Hints.{SlotKey, HintStore, get, find, find_hint, covers}
use pahoa.Room.Hints.Status.{IsSettled}
use pahoa.Room.Hints.Collect.{
  MultiData, groups_of, insert_slot, sort_slots, dedup, hintable_slots, fresh_hint, or_fresh, build,
  collect, collect_for_item,
}

abbrev pub is_member : ℕ → Option NetworkSlot → Bool
is_member slot none = false
is_member slot (some info) = mem info.group_members slot

mem-groups_of :
    (slot s : ℕ) (info : Dict ℕ NetworkSlot)
    → IsMap info
    → mem (groups_of slot info) s ≡ is_member slot (lookup s info)
unfolding mem groups_of lookup IsMap
mem-groups_of slot s [] m = refl
mem-groups_of slot s ((g, n) ∷ info) m = ground (arith, mem-groups_of slot s info m.1)

mem-insert_slot : (t s : ℕ) (ss : List ℕ) → mem (insert_slot t ss) s ≡ (t == s || mem ss s)
unfolding mem insert_slot
mem-insert_slot t s [] = refl
mem-insert_slot t s (u ∷ ss) = ground (arith, mem-insert_slot t s ss)

mem-sort_slots : (s : ℕ) (ss : List ℕ) → mem (sort_slots ss) s ≡ mem ss s
unfolding mem sort_slots
mem-sort_slots s [] = refl
mem-sort_slots s (t ∷ ss) =
    mem-insert_slot t s (sort_slots ss) ∙ ap (λ b. t == s || b) (mem-sort_slots s ss)

mem-dedup : (s : ℕ) (ss : List ℕ) → mem (dedup ss) s ≡ mem ss s
unfolding mem dedup
mem-dedup s [] = refl
mem-dedup s (t ∷ []) = refl
mem-dedup s (t ∷ u ∷ ss) = ground (arith, mem-dedup s (u ∷ ss))

-- Where each slot has one entry in the table, the slots whose items a slot may hint are itself and the
-- groups that it is a member of.
pub mem-hintable_slots :
    (seed : MultiData) (slot s : ℕ)
    → IsMap seed.slot_info
    → mem (hintable_slots seed slot) s ≡ (slot == s || is_member slot (lookup s seed.slot_info))
unfolding hintable_slots mem
mem-hintable_slots seed slot s m =
    mem-dedup s (sort_slots (slot ∷ groups_of slot seed.slot_info))
    ∙ mem-sort_slots s (slot ∷ groups_of slot seed.slot_info)
    ∙ ap (λ b. slot == s || b) (mem-groups_of slot s seed.slot_info m)

find_hint-covers :
    (f : ℕ) (l : ℤ) (hs : List Hint) (h : Hint) → find_hint f l hs ≡ some h → covers f l h ≡ true
unfolding find_hint
find_hint-covers f l [] h e = absurd (ground arith)
find_hint-covers f l (x ∷ hs) h e = ground (arith, find_hint-covers f l hs h)

abbrev Holds : (Hint → Type 0) → Option Hint → Type 0
Holds P none = Unit
Holds P (some h) = P h

find_hint-All :
    (P : Hint → Type 0) (f : ℕ) (l : ℤ) (hs : List Hint) → All P hs → Holds P (find_hint f l hs)
unfolding find_hint
find_hint-All P f l [] a = tt
find_hint-All P f l (h ∷ hs) a =
    if_both (Holds P) (covers f l h) (λ e. a.0) (λ e. find_hint-All P f l hs a.1)

covers-fresh_hint :
    (seed : MultiData) (e : LocationEntry) (status : Option HintStatus) (b : Bool)
    → covers e.sender e.location (fresh_hint seed e status b) ≡ true
unfolding fresh_hint
covers-fresh_hint seed e status b =
    rw ((nat_eq.beq_iff e.sender e.sender).1 refl, (int_eq.beq_iff e.location e.location).1 refl)

-- A found hint has the status `found`.
abbrev pub IsMarked : Hint → Type 0
IsMarked h = h.found ≡ true → h.status ≡ found

fresh_hint-IsMarked :
    (seed : MultiData) (e : LocationEntry) (status : Option HintStatus) (b : Bool)
    → IsMarked (fresh_hint seed e status b)
unfolding fresh_hint
fresh_hint-IsMarked seed e status true h = refl
fresh_hint-IsMarked seed e status false h = absurd (ground arith)

or_fresh-covers :
    (f : ℕ) (l : ℤ) (hs : List Hint) (h : Hint)
    → covers f l h ≡ true
    → covers f l (or_fresh (find_hint f l hs) h) ≡ true
or_fresh-covers f l hs h c = elim (Option-cases (find_hint f l hs)) [
  | inl e ↦ rw e c
  | inr (x, e) ↦ rw e (find_hint-covers f l hs x e)
]

or_fresh-Holds :
    (P : Hint → Type 0) (o : Option Hint) (h : Hint) → Holds P o → P h → P (or_fresh o h)
or_fresh-Holds P none h a p = p
or_fresh-Holds P (some x) h a p = a

module _ (seed : MultiData) (store : HintStore) (key : SlotKey) (status : Option HintStatus)
    (checked : ℕ → ℤ → Bool) where
  build-covers :
      (e : LocationEntry)
      → covers e.sender e.location (build seed store key status checked e) ≡ true
  unfolding build find
  build-covers e =
      or_fresh-covers e.sender e.location (get store key)
        (fresh_hint seed e status (checked e.sender e.location))
        (covers-fresh_hint seed e status (checked e.sender e.location))

  build-IsMarked :
      IsSettled store → (e : LocationEntry) → IsMarked (build seed store key status checked e)
  unfolding build find IsSettled
  build-IsMarked s e =
      or_fresh-Holds IsMarked (find_hint e.sender e.location (get store key))
        (fresh_hint seed e status (checked e.sender e.location))
        (find_hint-All IsMarked e.sender e.location (get store key) (s key))
        (fresh_hint-IsMarked seed e status (checked e.sender e.location))

  collect-IsMarked :
      IsSettled store
      → (wanted : List ℕ) (item : ℤ) (es : List LocationEntry)
      → All IsMarked (collect seed store key status checked wanted item es)
  unfolding collect
  collect-IsMarked s wanted item [] = tt
  collect-IsMarked s wanted item (e ∷ es) =
      if_both (All IsMarked) (not (e.item == item) || not (mem wanted e.receiver))
        (λ c. collect-IsMarked s wanted item es)
        (λ c. (build-IsMarked s e, collect-IsMarked s wanted item es))

  -- Whether an entry's location has a hint among those collected, if the entry is wanted.
  abbrev pub IsCovered : List ℕ → ℤ → List Hint → LocationEntry → Type 0
  IsCovered wanted item hints e =
      e.item ≡ item
      → mem wanted e.receiver ≡ true
      → is_some (find_hint e.sender e.location hints) ≡ true

  IsCovered-cons :
      (wanted : List ℕ) (item : ℤ) (h : Hint) (hints : List Hint) (es : List LocationEntry)
      → All (IsCovered wanted item hints) es
      → All (IsCovered wanted item (h ∷ hints)) es
  unfolding find_hint
  IsCovered-cons wanted item h hints [] a = tt
  IsCovered-cons wanted item h hints (e ∷ es) a = (
    (λ i r.
        if_both (λ (o : Option Hint). is_some o ≡ true) (covers e.sender e.location h) (λ c. refl)
          (λ c. a.0 i r)),
    IsCovered-cons wanted item h hints es a.1,
  )

  collect-IsCovered :
      (wanted : List ℕ) (item : ℤ) (es : List LocationEntry)
      → All (IsCovered wanted item (collect seed store key status checked wanted item es)) es
  unfolding collect find_hint
  collect-IsCovered wanted item [] = tt
  collect-IsCovered wanted item (e ∷ es) =
      let rest : List Hint = collect seed store key status checked wanted item es in
      if_both (λ hints. All (IsCovered wanted item hints) (e ∷ es))
        (not (e.item == item) || not (mem wanted e.receiver))
        (λ c. (
          (λ i r. absurd (ground (arith, int_eq.beq_iff e.item item))),
          collect-IsCovered wanted item es,
        ))
        (λ c. (
          (λ i r. rw (build-covers e) refl),
          IsCovered-cons wanted item (build seed store key status checked e) rest es
              (collect-IsCovered wanted item es),
        ))

-- Where each slot has one entry in the table of slots, every entry of the item that is for the slot, or
-- for one that has it among its members, has a hint for its location among those collected.
pub collect_for_item-IsCovered :
    (seed : MultiData) (store : HintStore) (key : SlotKey) (status : Option HintStatus)
    (checked : ℕ → ℤ → Bool) (slot : ℕ) (item : ℤ)
    → IsMap seed.slot_info
    → All
        (λ (e : LocationEntry).
          e.item ≡ item
          → (slot == e.receiver || is_member slot (lookup e.receiver seed.slot_info)) ≡ true
          → is_some (
              find_hint e.sender e.location
                (collect_for_item seed store key status checked slot item))
            ≡ true)
        seed.locations.entries
unfolding collect_for_item
collect_for_item-IsCovered seed store key status checked slot item m =
    All-map
      (λ (e : LocationEntry).
        e.item ≡ item
        → mem (hintable_slots seed slot) e.receiver ≡ true
        → is_some (
            find_hint e.sender e.location
              (collect_for_item seed store key status checked slot item))
          ≡ true)
      (λ (e : LocationEntry).
        e.item ≡ item
        → (slot == e.receiver || is_member slot (lookup e.receiver seed.slot_info)) ≡ true
        → is_some (
            find_hint e.sender e.location
              (collect_for_item seed store key status checked slot item))
          ≡ true)
      (λ e covered i wanted. covered i (mem-hintable_slots seed slot e.receiver m ∙ wanted))
      seed.locations.entries
      (collect-IsCovered seed store key status checked (hintable_slots seed slot) item
        seed.locations.entries)

-- Where the store's found hints have the status `found`, so do the hints that are collected, whatever
-- status was asked for.
pub collect_for_item-IsMarked :
    (seed : MultiData) (store : HintStore) (key : SlotKey) (status : Option HintStatus)
    (checked : ℕ → ℤ → Bool) (slot : ℕ) (item : ℤ)
    → IsSettled store
    → All
        (λ (h : Hint). h.found ≡ true → h.status ≡ found)
        (collect_for_item seed store key status checked slot item)
unfolding collect_for_item
collect_for_item-IsMarked seed store key status checked slot item s =
    collect-IsMarked seed store key status checked s (hintable_slots seed slot) item
      seed.locations.entries
