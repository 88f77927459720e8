-- ===== src/Room/Connect.antt =====
-- crates/pahoa-room/src/room.rs: whether a client that wants to connect to a slot is admitted.
pub mod Admission
use pahoa.Prelude.{
  ℕ, Bool, true, false, not, ◌&&◌, ◌||◌, Option, none, some, List, [], ◌∷◌, ◌++◌, ◌≡◌, ◌↔◌, String,
  eqb, arith, if◌then◌else◌, is_some,
}
use pahoa.Prelude.Result.{Result, ok, err}
use pahoa.Prelude.Equality.{Eq, ◌==◌, nat_eq, string_eq, pair_eq, contains}
use pahoa.Prelude.Dict.{Dict, lookup}
use pahoa.Prelude.Sorting.{dedup_sorted}
use pahoa.Multidata.Types.{Version, version_ltb}
use pahoa.Proto.Packets.Refusal.{
  ConnectionRefusedReason, invalid_slot, invalid_game, incompatible_version, invalid_password,
  invalid_items_handling, slot_locked, reason_eq,
}
use pahoa.Proto.Packets.Flags.{ItemsHandling, InvalidItemsHandling, handling}
use pahoa.Room.Hints.{SlotKey}
use pahoa.Room.Hints.Collect.{MultiData}
use pahoa.Room.Client.{ignores_game}
use pahoa.Room.State.{Room, slot_game}
use pahoa.Room.Requests.{Arg, missing, wrong, given}
use pahoa.Room.Secret.{ct_eq_opt}

pub record Connect : Type 0 where
  pub password : Arg (Option String)
  pub game : Arg (Option String)
  pub name : Arg String
  pub version : Version
  pub items_handling : Arg ℕ
  pub tags : List String
  pub slot_data : Bool

abbrev pub server_version : Version
server_version = record { major = 0; minor = 6; build = 7 }

abbrev pub min_client : Version
min_client = record { major = 0; minor = 5; build = 0 }

abbrev pub floor : MultiData → Version
floor seed =
    if version_ltb seed.generator_version (record { major = 0; minor = 6; build = 2 })
    then record { major = 0; minor = 1; build = 6 }
    else min_client

unfoldable pub min_client_version : MultiData → ℕ → Version
min_client_version seed slot = elim (lookup slot seed.minimum_client_versions) [
  | some v ↦ v
  | none ↦ floor seed
]

-- `arg.as_ok().and_then(Option::as_deref)`
abbrev pub flat_arg : Arg (Option String) → Option String
flat_arg (given s) = s
flat_arg _ = none

abbrev pub resolve_name : MultiData → Arg String → Option SlotKey
resolve_name seed (given n) = lookup n seed.connect_names
resolve_name seed _ = none

abbrev pub refuse_if : Bool → ConnectionRefusedReason → List ConnectionRefusedReason
refuse_if true reason = reason ∷ []
refuse_if false reason = []

-- A game of the wrong type is no missing game.
abbrev pub ignore_game : Arg (Option String) → List String → Bool
ignore_game wrong tags = false
ignore_game missing tags = ignores_game none tags
ignore_game (given game) tags = ignores_game game tags

abbrev pub is_game : Option String → String → Bool
is_game none expected = false
is_game (some game) expected = game == expected

abbrev pub is_valid : Result InvalidItemsHandling ItemsHandling → Bool
is_valid (ok h) = true
is_valid (err e) = false

abbrev pub items_valid : Arg ℕ → Bool
items_valid (given bits) = is_valid (handling bits)
items_valid _ = false

abbrev pub eqb_version : Version → Version → Bool
eqb_version a b = eqb a.major b.major && eqb a.minor b.minor && eqb a.build b.build

module _ (as_bytes : String → List ℕ) where
  abbrev pub holds_key : Option String → Option String → Bool
  holds_key none supplied = false
  holds_key (some expected) supplied = ct_eq_opt as_bytes (some expected) supplied

  -- With a password for each slot in force, a slot that has none is refused.
  abbrev pub slot_password_ok : Option (Dict ℕ String) → ℕ → Option String → Bool
  slot_password_ok none slot supplied = true
  slot_password_ok (some passwords) slot supplied = holds_key (lookup slot passwords) supplied

  abbrev pub slot_errors : Room → Connect → SlotKey → List ConnectionRefusedReason
  slot_errors room args key =
      let supplied = flat_arg args.password in
      let ignore = ignore_game args.game args.tags in
      let minver = if ignore then min_client else min_client_version room.seed key.1 in
      (if contains room.locked_slots key then invalid_slot ∷ slot_locked ∷ [] else [])
      ++ refuse_if (not (slot_password_ok room.options.slot_passwords key.1 supplied))
          invalid_password
      ++ refuse_if (not ignore && not (is_game (flat_arg args.game) (slot_game room key.1)))
          invalid_game
      ++ refuse_if (version_ltb args.version minver) incompatible_version
      ++ refuse_if (not (items_valid args.items_handling)) invalid_items_handling

  abbrev pub resolved_errors : Room → Connect → Option SlotKey → List ConnectionRefusedReason
  resolved_errors room args none = invalid_slot ∷ []
  resolved_errors room args (some key) = slot_errors room args key

  -- The reasons for a refusal, before neighbours that are equal become one.
  unfoldable pub connect_errors : Room → Connect → List ConnectionRefusedReason
  unfolding contains slot_game min_client_version ignores_game ct_eq_opt handling
  connect_errors room args =
      refuse_if (not (ct_eq_opt as_bytes room.options.password (flat_arg args.password)))
        invalid_password
      ++ resolved_errors room args (resolve_name room.seed args.name)
      ++ refuse_if
          (eqb room.options.compatibility 0 && not (eqb_version args.version server_version))
          incompatible_version

  unfoldable pub refusals : Room → Connect → List ConnectionRefusedReason
  unfolding connect_errors
  refusals room args = dedup_sorted (connect_errors room args)
