-- ===== src/Room/Requests.antt =====
-- crates/pahoa-room/src/room.rs: what clients ask of locations and hints, and of their status.
pub mod Scouts
pub mod Create
pub mod Settled
pub mod Banked
use pahoa.Prelude.{
  ℕ, ◌+◌, Bool, true, false, not, ◌&&◌, ◌||◌, Option, none, some, List, [], ◌∷◌, ◌++◌, map, leb,
  String, if◌then◌else◌,
}
use pahoa.Prelude.Result.{Result, ok, err, ◌>>=◌}
use pahoa.Prelude.Int.{ℤ, pos}
use pahoa.Prelude.Equality.{◌==◌, nat_eq, int_eq, contains as mem}
use pahoa.Prelude.Dict.{lookup}
use pahoa.Prelude.Text.{format, show, show_ℤ}
use pahoa.Prelude.Sorting.{sort_by, dedup_sorted}
use pahoa.Multidata.Types.{
  Hint, HintStatus, unspecified, found, from_wire, NetworkItem, eqb_status, status_eq, ClientStatus,
}
use pahoa.Multidata.Locations.{LocationEntry, get as get_entry}
use pahoa.Multidata.Statuses.{client_from_wire}
use pahoa.Proto.Packets.{ServerPacket, location_info}
use pahoa.Room.Hints.{SlotKey, HintStore, find, set_status as set_hint_status, effective}
use pahoa.Room.Hints.Collect.{MultiData, collect_for_location}
use pahoa.Room.Effects.{ConnId, Effect, send, mark_dirty}
use pahoa.Room.Client.{Client}
use pahoa.Room.State.{Room, World, emit, hint_kind, count_redundant, slot_set, is_checked}
use pahoa.Room.Messages.{bad_arguments, raise_protocol_error}
use pahoa.Room.Checks.{register_location_checks, each_changed}
use pahoa.Room.Sweeps.{set_status}
use pahoa.Room.Announce.{notify_hints}

-- An argument that may be absent or of another type than the protocol's.
pub data Arg {ℓ} (A : Type ℓ) : Type ℓ where
  missing wrong : Arg A
  given : A → Arg A

pub record LocationScouts (Value : Type 0) : Type 0 where
  pub locations : List Value
  pub create_as_hint : ℤ

pub record CreateHints (Value : Type 0) : Type 0 where
  pub locations : List Value
  pub player : Option ℕ
  pub status : Arg (Option ℤ)

pub record UpdateHint : Type 0 where
  pub player : Arg ℕ
  pub location : Arg ℤ
  pub status : Arg (Option ℤ)

abbrev pub collect_location_hints : Room → SlotKey → ℕ → ℤ → Option HintStatus → List Hint
collect_location_hints room key slot location status =
    collect_for_location room.seed room.hints key status (λ s l. is_checked room (key.0, s) l) slot
      location

unfoldable pub set_each : ℕ → List ℕ → ℕ → ℤ → HintStatus → HintStore → HintStore
set_each team [] finder location status store = store
set_each team (t ∷ ts) finder location status store =
    set_each team ts finder location status
      (set_hint_status store (team, t) finder location status).0

abbrev pub team_keys : ℕ → List ℕ → List SlotKey
team_keys team [] = []
team_keys team (t ∷ ts) = (team, t) ∷ team_keys team ts

abbrev pub concerned_slots : MultiData → Hint → List ℕ
concerned_slots seed hint =
    dedup_sorted (sort_by leb (slot_set seed hint.receiving_player ++ hint.finding_player ∷ []))

-- The end of `handle_update_hint`, with a hint and a status that may be set.
unfoldable pub reprioritize : ℕ → Hint → HintStatus → World → World
unfolding set_each
reprioritize team hint status w =
    let slots = concerned_slots w.room.seed hint in
    let hints = set_each team slots hint.finding_player hint.location status w.room.hints in
    let changed = record w { room = record w.room { hints = hints } } in
    if effective status hint == hint.status
    then w
    else each_changed (team_keys team slots) (emit mark_dirty changed)

abbrev pub set_requested : ConnId → ℕ → Hint → Option (Option HintStatus) → World → World
set_requested conn team hint none w = w
set_requested conn team hint (some none) w =
    bad_arguments conn "UpdateHint" "UpdateHint: Invalid Status" w
set_requested conn team hint (some (some status)) w =
    if status == found
    then bad_arguments conn "UpdateHint"
        "UpdateHint: Cannot manually update status to \"HINT_FOUND\"" w
    else reprioritize team hint status w

-- An explicit null leaves the status alone.
abbrev pub read_status : Option ℤ → Option (Option HintStatus)
read_status none = none
read_status (some raw) = some (from_wire raw)

abbrev pub update_found : ConnId → ℕ → ℕ → Option ℤ → Option Hint → World → World
update_found conn team slot status none w = w
update_found conn team slot status (some hint) w =
    if mem (slot_set w.room.seed hint.receiving_player) slot
    then set_requested conn team hint (read_status status) w
    else bad_arguments conn "UpdateHint" "UpdateHint: No Permission" w

abbrev pub update_by : ConnId → ℕ → ℕ → UpdateHint → World → World
update_by conn team slot args w = elim args.player [
  | given player ↦ elim args.location [
    | given location ↦ elim args.status [
      | given status ↦
          update_found conn team slot status (find w.room.hints (team, player) player location) w
      | _ ↦ bad_arguments conn "UpdateHint" "UpdateHint" w
    ]
    | _ ↦ bad_arguments conn "UpdateHint" "UpdateHint" w
  ]
  | _ ↦ bad_arguments conn "UpdateHint" "UpdateHint" w
]

unfoldable pub handle_update_hint : ConnId → UpdateHint → World → World
unfolding reprioritize find slot_set
handle_update_hint conn args w = elim (lookup conn w.room.clients) [
  | none ↦ w
  | some client ↦ update_by conn client.team client.slot args w
]
