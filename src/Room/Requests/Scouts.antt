-- ===== src/Room/Requests/Scouts.antt =====
-- crates/pahoa-room/src/room.rs: requests on locations, and a client's report of its status.
use pahoa.Prelude.{
  ℕ, Bool, true, false, not, ◌&&◌, ◌||◌, Option, none, some, List, [], ◌∷◌, ◌++◌, if◌then◌else◌,
}
use pahoa.Prelude.Result.{Result, ok, err, ◌>>=◌}
use pahoa.Prelude.Int.{ℤ, pos}
use pahoa.Prelude.Equality.{◌==◌, nat_eq, int_eq}
use pahoa.Prelude.Dict.{lookup}
use pahoa.Prelude.Text.{format, show, show_ℤ}
use pahoa.Multidata.Types.{Hint, unspecified, NetworkItem, status_eq, ClientStatus}
use pahoa.Multidata.Locations.{LocationEntry, get as get_entry}
use pahoa.Multidata.Statuses.{client_from_wire}
use pahoa.Proto.Packets.{location_info}
use pahoa.Room.Effects.{ConnId, send, mark_dirty}
use pahoa.Room.Client.{Client}
use pahoa.Room.State.{Room, World, emit, hint_kind, count_redundant}
use pahoa.Room.Messages.{bad_arguments, raise_protocol_error}
use pahoa.Room.Checks.{register_location_checks}
use pahoa.Room.Sweeps.{set_status}
use pahoa.Room.Announce.{notify_hints}
use pahoa.Room.Requests.{LocationScouts, collect_location_hints}

-- `Value` is serde_json's, of which `as_int` reads a whole number.
module _ (percent : ℕ → ℕ → ℤ) {Value : Type 0} (as_int : Value → Option ℤ) where
  abbrev ints_with : Option ℤ → List ℤ → List ℤ
  ints_with none ls = ls
  ints_with (some l) ls = l ∷ ls

  unfoldable pub ints_of : List Value → List ℤ
  ints_of [] = []
  ints_of (v ∷ vs) = ints_with (as_int v) (ints_of vs)

  abbrev pub check_locations : ConnId → List Value → Client → World → World
  check_locations conn locations client w =
      if client.no_locations
      then bad_arguments conn "LocationChecks" "Tracker and TextOnly clients cannot check locations"
          w
      else register_location_checks percent (client.team, client.slot) (ints_of locations) w

  unfoldable pub handle_location_checks : ConnId → List Value → World → World
  unfolding ints_of
  handle_location_checks conn locations w = elim (lookup conn w.room.clients) [
    | none ↦ w
    | some client ↦ check_locations conn locations client w
  ]

  -- What a scout gathers: the items for the reply, and hints; or what it refuses with.
  abbrev pub Scouted : Type 0
  Scouted = Result (World → World) (List NetworkItem × List Hint)

  abbrev pub scouted_item : ℤ → LocationEntry → NetworkItem
  scouted_item location e = record {
    item = e.item;
    location = location;
    player = e.receiver;
    flags = e.flags;
  }

  unfoldable pub scout : Room → ConnId → ℕ → ℕ → Bool → List Value → Scouted
  scout room conn team slot hinting [] = ok ([], [])
  scout room conn team slot hinting (v ∷ vs) =
      let rest = scout room conn team slot hinting vs in
      elim (as_int v) [
        | none ↦ err (bad_arguments conn "LocationScouts" "Locations has to be a list of integers")
        | some location ↦ elim (get_entry room.seed.locations slot location) [
          | none ↦ err (
              raise_protocol_error conn (
                format (
                  "slot "
                  ∷ show slot
                  ∷ ": LocationScouts for unknown location "
                  ∷ show_ℤ location
                  ∷ [])))
          | some e ↦ rest >>= λ (items, hints). ok (
            scouted_item location e ∷ items,
            (if hinting
                  then collect_location_hints room (team, slot) slot location (some unspecified)
                  else [])
                ++ hints,
          )
        ]
      ]

  abbrev pub no_items_left : List NetworkItem → Bool
  no_items_left [] = true
  no_items_left (i ∷ is) = false

  -- The reply comes before the announcements.
  abbrev pub reply_scouts : ConnId → ℕ → ℕ → ℤ → List NetworkItem × List Hint → World → World
  reply_scouts conn team slot create (items, hints) w =
      let replied = emit (send conn (location_info items ∷ [])) w in
      let (told, repeats) = notify_hints percent team hints (create == pos 2) true none replied in
      let counted = count_redundant (team, slot) hint_kind repeats told in
      if no_items_left items || create == pos 0 then counted else emit mark_dirty counted

  abbrev pub scouts_by : ConnId → ℕ → ℕ → LocationScouts Value → World → World
  scouts_by conn team slot args w =
      elim (scout w.room conn team slot (not (args.create_as_hint == pos 0)) args.locations) [
        | err refuse ↦ refuse w
        | ok scouted ↦ reply_scouts conn team slot args.create_as_hint scouted w
      ]

  unfoldable pub handle_location_scouts : ConnId → LocationScouts Value → World → World
  unfolding scout notify_hints count_redundant
  handle_location_scouts conn args w = elim (lookup conn w.room.clients) [
    | none ↦ w
    | some client ↦ scouts_by conn client.team client.slot args w
  ]

  abbrev pub update_status : ConnId → Client → ℤ → Option ClientStatus → World → World
  update_status conn client raw none w =
      bad_arguments conn "StatusUpdate" (format ("Unknown client status " ∷ show_ℤ raw ∷ [])) w
  update_status conn client raw (some state) w =
      set_status percent (client.team, client.slot) state w

  -- 30 is the number of the goal.
  unfoldable pub handle_status_update : ConnId → ℤ → World → World
  unfolding set_status
  handle_status_update conn raw w = elim (lookup conn w.room.clients) [
    | none ↦ w
    | some client ↦
        if client.no_locations && raw == pos 30
        then bad_arguments conn "StatusUpdate"
            "Tracker and TextOnly clients cannot report goal completion" w
        else update_status conn client raw (client_from_wire raw) w
  ]
