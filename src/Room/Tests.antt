-- ===== src/Room/Tests.antt =====
-- The hint store at concrete hints.
use pahoa.Prelude.{
  is_some, ◌||◌, ℕ, Bool, true, false, none, some, List, [], ◌∷◌, All, ◌≡◌, refl, arith,
  if◌then◌else◌,
}
use pahoa.Prelude.Int.{ℤ, pos}
use pahoa.Prelude.Equality.{◌==◌, nat_eq, int_eq, pair_eq}
use pahoa.Prelude.Dict.{lookup, IsMap}
use pahoa.Multidata.Types.{Hint, found, group, priority, identity, identity_eq, eqb_identity}
use pahoa.Room.Hints.{SlotKey, HintStore, get, find_hint, any_identity, recheck}
use pahoa.Room.Hints.Store.{IsUnique, IsDistinct}
use pahoa.Room.Hints.Found.{IsRechecked, recheck-IsRechecked}
use pahoa.Room.Hints.Status.{IsSettled}
use pahoa.Multidata.Locations.{LocationEntry}
use pahoa.Room.Hints.Collect.{MultiData, collect_for_item}
use pahoa.Room.Hints.Collect.Covers.{is_member, collect_for_item-IsCovered}

abbrev hint : ℕ → ℕ → ℤ → Hint
hint receiver finder location = record {
  receiving_player = receiver;
  finding_player = finder;
  location = location;
  item = pos 1;
  found = false;
  entrance = "";
  item_flags = 0;
  status = priority;
}

abbrev owner : SlotKey
owner = (0, 1)

abbrev other : SlotKey
other = (0, 2)

-- Two hints of the finder 2, in the lists of both players, and one of another finder.
abbrev store : HintStore
store = record {
  by_slot = (owner, hint 1 2 (pos 5) ∷ hint 1 3 (pos 6) ∷ []) ∷ (other, hint 1 2 (pos 5) ∷ []) ∷ [];
}

abbrev all_checked : SlotKey → ℤ → Bool
all_checked key location = true

pick :
    (P : List Hint → Type 0) {both one : List Hint}
    → P both
    → P one
    → P []
    → (b c : Bool)
    → P (elim (if b then some both else if c then some one else none) [ some hs ↦ hs | none ↦ [] ])
pick P h1 h2 h3 true c = h1
pick P h1 h2 h3 false true = h2
pick P h1 h2 h3 false false = h3

-- What holds of both lists and of no hints holds of every slot's list.
each :
    (P : List Hint → Type 0)
    → P (hint 1 2 (pos 5) ∷ hint 1 3 (pos 6) ∷ [])
    → P (hint 1 2 (pos 5) ∷ [])
    → P []
    → (key : SlotKey) → P (get store key)
unfolding get lookup
each P both one no_hints key = pick P both one no_hints (owner == key) (other == key)

store-IsUnique : IsUnique store
unfolding IsUnique IsDistinct any_identity eqb_identity identity
store-IsUnique = each IsDistinct (refl, (refl, tt)) (refl, tt) tt

store-IsSettled : IsSettled store
unfolding IsSettled
store-IsSettled =
    each (λ (hs : List Hint). All (λ (h : Hint). h.found ≡ true → h.status ≡ found) hs)
      ((λ e. ground arith), ((λ e. ground arith), tt)) ((λ e. ground arith), tt) tt

recheck-IsRechecked_example :
    All (IsRechecked other all_checked) (get (recheck store other all_checked).0 owner)
recheck-IsRechecked_example = recheck-IsRechecked store other all_checked owner refl

-- A seed in which slot 3 is a group with the member 1, and its one location holds an item for the group.
abbrev seed : MultiData
seed = record {
  slot_info =
      (3, record { name = "link"; game = "g"; slot_type = group; group_members = 1 ∷ [] }) ∷ [];
  locations = record {
    entries = record { location = pos 5; item = pos 1; sender = 2; receiver = 3; flags = 0 } ∷ [];
    index = (0, 0) ∷ (0, 0) ∷ (0, 1) ∷ [];
    slots = 2;
  };
  er_hint_data = [];
  precollected_items = [];
  connect_names = ("ann", (0, 1)) ∷ ("bob", (0, 2)) ∷ [];
  seed_name = "seed";
  generator_version = record { major = 0; minor = 6; build = 4 };
  minimum_client_versions = [];
}

abbrev none_checked : ℕ → ℤ → Bool
none_checked slot location = false

seed-IsMap : IsMap seed.slot_info
unfolding IsMap lookup
seed-IsMap = (refl, tt)

collect_for_item-IsCovered_example :
    All
      (λ (e : LocationEntry).
        e.item ≡ pos 1
        → (1 == e.receiver || is_member 1 (lookup e.receiver seed.slot_info)) ≡ true
        → is_some (
            find_hint e.sender e.location
              (collect_for_item seed store owner none none_checked 1 (pos 1)))
          ≡ true)
      seed.locations.entries
collect_for_item-IsCovered_example =
    collect_for_item-IsCovered seed store owner none none_checked 1 (pos 1) seed-IsMap
