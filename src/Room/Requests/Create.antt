-- ===== src/Room/Requests/Create.antt =====
-- crates/pahoa-room/src/room.rs: hints that a client makes without spending points.
use pahoa.Prelude.{ℕ, true, not, Option, none, some, List, [], ◌∷◌, ◌++◌, String, if◌then◌else◌}
use pahoa.Prelude.Result.{Result, ok, err, ◌>>=◌}
use pahoa.Prelude.Int.{ℤ}
use pahoa.Prelude.Equality.{◌==◌, nat_eq, int_eq, contains as mem}
use pahoa.Prelude.Dict.{lookup}
use pahoa.Prelude.Text.{format, show, show_ℤ}
use pahoa.Multidata.Types.{Hint, HintStatus, unspecified, from_wire, status_eq}
use pahoa.Multidata.Locations.{LocationEntry, get as get_entry}
use pahoa.Room.Effects.{ConnId, mark_dirty}
use pahoa.Room.State.{Room, World, emit, hint_kind, count_redundant, slot_set}
use pahoa.Room.Messages.{bad_arguments, raise_protocol_error}
use pahoa.Room.Announce.{notify_hints}
use pahoa.Room.Requests.{Arg, missing, wrong, given, CreateHints, collect_location_hints}

-- `Value` is serde_json's, `as_int` reads a whole number of it, and `display` writes it.
module _ (percent : ℕ → ℕ → ℤ) {Value : Type 0} (as_int : Value → Option ℤ)
    (display : Value → String) where
  -- The status that hints are made with, or the text of the refusal.
  abbrev pub requested_status : Arg (Option ℤ) → Result String HintStatus
  requested_status missing = ok unspecified
  requested_status wrong = err "Unknown Status: not a valid HintStatus"
  requested_status (given none) = err "Unknown Status: not a valid HintStatus"
  requested_status (given (some raw)) = elim (from_wire raw) [
    | some status ↦ ok status
    | none ↦ err (format ("Unknown Status: " ∷ show_ℤ raw ∷ " is not a valid HintStatus" ∷ []))
  ]

  abbrev pub entry_at : Room → ℕ → Option ℤ → Option (ℤ × LocationEntry)
  entry_at room player none = none
  entry_at room player (some l) = elim (get_entry room.seed.locations player l) [
    | none ↦ none
    | some e ↦ some (l, e)
  ]

  abbrev pub may_hint : Room → ℕ → ℕ → HintStatus → LocationEntry → Result String (Unit {0})
  may_hint room slot player status e =
      if mem (slot_set room.seed e.receiver) slot
      then ok tt
      else if not (status == unspecified)
      then err "CreateHints: Must use \"unspecified\"/None status for items from other players."
      else if not (slot == player)
      then err "CreateHints: Can only create hints for own items or own locations."
      else ok tt

  abbrev pub refuse_hints : ConnId → String → World → World
  refuse_hints conn text = bad_arguments conn "CreateHints" text

  abbrev pub unknown_hint : ConnId → ℕ → ℕ → Value → World → World
  unknown_hint conn slot player v =
      if slot == player
      then raise_protocol_error conn
          (format ("slot " ∷ show slot ∷ ": CreateHints for unknown location " ∷ display v ∷ []))
      else refuse_hints conn
          "CreateHints: One or more of the locations do not exist for the specified off-world player. Please refrain from hinting other slot's locations that you don't know contain your items."

  unfoldable pub gather_hints :
      Room → ConnId → ℕ → ℕ → ℕ → HintStatus → List Value → Result (World → World) (List Hint)
  unfolding slot_set
  gather_hints room conn team slot player status [] = ok []
  gather_hints room conn team slot player status (v ∷ vs) =
      let rest = gather_hints room conn team slot player status vs in
      elim (entry_at room player (as_int v)) [
        | none ↦ err (unknown_hint conn slot player v)
        | some hit ↦ elim (may_hint room slot player status hit.1) [
          | err text ↦ err (refuse_hints conn text)
          | ok u ↦ rest >>= λ hints.
              ok (collect_location_hints room (team, player) player hit.0 (some status) ++ hints)
        ]
      ]

  abbrev pub create_gathered : ℕ → ℕ → Result (World → World) (List Hint) → World → World
  create_gathered team slot (err refuse) w = refuse w
  create_gathered team slot (ok hints) w =
      let (told, repeats) = notify_hints percent team hints true true none w in
      emit mark_dirty (count_redundant (team, slot) hint_kind repeats told)

  abbrev pub or_own : ℕ → Option ℕ → ℕ
  or_own slot none = slot
  or_own slot (some player) = player

  abbrev pub create_by : ConnId → ℕ → ℕ → CreateHints Value → World → World
  create_by conn team slot args w =
      let player = or_own slot args.player in
      elim args.locations [
        | [] ↦ refuse_hints conn "CreateHints: No locations specified." w
        | _ ∷ _ ↦ elim (requested_status args.status) [
          | err text ↦ refuse_hints conn text w
          | ok status ↦
              create_gathered team slot
                (gather_hints w.room conn team slot player status args.locations) w
        ]
      ]

  unfoldable pub handle_create_hints : ConnId → CreateHints Value → World → World
  unfolding gather_hints notify_hints count_redundant
  handle_create_hints conn args w = elim (lookup conn w.room.clients) [
    | none ↦ w
    | some client ↦ create_by conn client.team client.slot args w
  ]
