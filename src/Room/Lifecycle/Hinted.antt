-- ===== src/Room/Lifecycle/Hinted.antt =====
-- crates/pahoa-room/src/room.rs: the index of connections is kept by the requests on locations, by new
-- hints and by the report of a status.
use pahoa.Prelude.{
  ℕ, Bool, true, not, ◌&&◌, ◌||◌, Option, none, some, List, [], ◌∷◌, sym, subst, if_both,
  if◌then◌else◌,
}
use pahoa.Prelude.Result.{Result, ok, err, ◌>>=◌}
use pahoa.Prelude.Int.{ℤ, pos}
use pahoa.Prelude.Equality.{◌==◌, nat_eq, int_eq}
use pahoa.Prelude.Dict.{lookup}
use pahoa.Multidata.Types.{Hint, status_eq, ClientStatus, NetworkItem}
use pahoa.Multidata.Locations.{get as get_entry}
use pahoa.Multidata.Statuses.{client_from_wire}
use pahoa.Proto.Packets.{location_info}
use pahoa.Room.Hints.{SlotKey}
use pahoa.Room.Messages.{bad_arguments}
use pahoa.Room.Effects.{ConnId, send}
use pahoa.Room.Client.{Client}
use pahoa.Room.State.{Room, World, emit, hint_kind, count_redundant}
use pahoa.Room.Announce.{notify_hints}
use pahoa.Room.Requests.{LocationScouts}
use pahoa.Room.Requests.Scouts.{
  ints_of, check_locations, handle_location_checks, scout, reply_scouts, scouts_by,
  handle_location_scouts, update_status, handle_status_update, no_items_left,
}
use pahoa.Room.Checks.Registered.{count_redundant-room}
use pahoa.Room.Lifecycle.Indexed.{IsIndexed}
use pahoa.Room.Lifecycle.Delivered.{Keeps, register_location_checks-Keeps}
use pahoa.Room.Lifecycle.Asked.{refused-Keeps, closed-Keeps, set_status-Keeps, notify_hints-Keeps}

-- A refusal, which is a step on worlds, keeps the index.
abbrev pub RefusalKeeps : {A : Type 0} → Result (World → World) A → Type 0
RefusalKeeps (ok a) = Unit
RefusalKeeps (err refuse) = (w : World) → Keeps w (refuse w)

pub >>=-RefusalKeeps :
    {A B : Type 0} (r : Result (World → World) A) (f : A → Result (World → World) B)
    → RefusalKeeps r
    → ((a : A) → RefusalKeeps (f a))
    → RefusalKeeps (r >>= f)
>>=-RefusalKeeps (ok a) f h k = k a
>>=-RefusalKeeps (err e) f h k = h

pub Option-RefusalKeeps :
    {X A : Type 0} (o : Option X) (r : Result (World → World) A) (f : X → Result (World → World) A)
    → RefusalKeeps r
    → ((x : X) → RefusalKeeps (f x))
    → RefusalKeeps (elim o [ none ↦ r | some x ↦ f x ])
Option-RefusalKeeps none r f h k = h
Option-RefusalKeeps (some x) r f h k = k x

-- By the answer for the client of a connection, if there is one.
pub for_client :
    (step : Client → World → World) (w : World) (o : Option Client)
    → ((c : Client) → Keeps w (step c w))
    → Keeps w (elim o [ none ↦ w | some c ↦ step c w ])
for_client step w none h indexed = indexed
for_client step w (some c) h indexed = h c indexed

module _ (percent : ℕ → ℕ → ℤ) {Value : Type 0} (as_int : Value → Option ℤ) where
  pub handle_location_checks-Keeps :
      (conn : ConnId) (vs : List Value) (w : World)
      → Keeps w (handle_location_checks percent as_int conn vs w)
  unfolding handle_location_checks
  handle_location_checks-Keeps conn vs w =
      for_client (check_locations percent as_int conn vs) w (lookup conn w.room.clients)
        (λ c indexed.
          if_both (λ (v : World). IsIndexed v.room) c.no_locations
            (λ e. refused-Keeps conn _ _ w indexed)
            (λ e.
              register_location_checks-Keeps percent (c.team, c.slot) (ints_of percent as_int vs) w
                indexed))

  update_status-Keeps :
      (conn : ConnId) (c : Client) (raw : ℤ) (o : Option ClientStatus) (w : World)
      → Keeps w (update_status percent as_int conn c raw o w)
  update_status-Keeps conn c raw none w = refused-Keeps conn _ _ w
  update_status-Keeps conn c raw (some state) w = set_status-Keeps percent (c.team, c.slot) state w

  pub handle_status_update-Keeps :
      (conn : ConnId) (raw : ℤ) (w : World)
      → Keeps w (handle_status_update percent as_int conn raw w)
  unfolding handle_status_update
  handle_status_update-Keeps conn raw w = by_found (lookup conn w.room.clients)
    where
      by_found :
          (o : Option Client)
          → Keeps w (elim o [
            | none ↦ w
            | some client ↦
                if client.no_locations && raw == pos 30
                then bad_arguments conn "StatusUpdate"
                    "Tracker and TextOnly clients cannot report goal completion" w
                else update_status percent as_int conn client raw (client_from_wire raw) w
          ])
      by_found none indexed = indexed
      by_found (some c) indexed =
          if_both (λ (v : World). IsIndexed v.room) (c.no_locations && raw == pos 30)
            (λ e. refused-Keeps conn _ _ w indexed)
            (λ e. update_status-Keeps conn c raw (client_from_wire raw) w indexed)

  -- The announcement and the count of the repeats.
  pub counted-Keeps :
      (key : SlotKey) (team : ℕ) (hs : List Hint) (only_new : Bool) (w : World)
      → let (told, repeats) = notify_hints percent team hs only_new true none w in
        Keeps w (count_redundant key hint_kind repeats told)
  counted-Keeps key team hs only_new w indexed =
      let (told, repeats) = notify_hints percent team hs only_new true none w in
      subst IsIndexed (sym (count_redundant-room key hint_kind repeats told))
        (notify_hints-Keeps percent team hs only_new true none w indexed)

  reply_scouts-Keeps :
      (conn team slot : ℕ) (create : ℤ) (s : List NetworkItem × List Hint) (w : World)
      → Keeps w (reply_scouts percent as_int conn team slot create s w)
  reply_scouts-Keeps conn team slot create (items, hints) w indexed =
      let replied = emit (send conn (location_info items ∷ [])) w in
      if_both (λ (v : World). IsIndexed v.room)
        (no_items_left percent as_int items || create == pos 0)
        (λ e. counted-Keeps (team, slot) team hints (create == pos 2) replied indexed)
        (λ e. counted-Keeps (team, slot) team hints (create == pos 2) replied indexed)

  scout-RefusalKeeps :
      (room : Room) (conn : ConnId) (team slot : ℕ) (hinting : Bool) (vs : List Value)
      → RefusalKeeps (scout percent as_int room conn team slot hinting vs)
  unfolding scout
  scout-RefusalKeeps room conn team slot hinting [] = tt
  scout-RefusalKeeps room conn team slot hinting (v ∷ vs) =
      Option-RefusalKeeps (as_int v) _ _ (λ w. refused-Keeps conn _ _ w)
        (λ l.
          Option-RefusalKeeps (get_entry room.seed.locations slot l) _ _
            (λ w. closed-Keeps conn _ w)
            (λ x.
              >>=-RefusalKeeps (scout percent as_int room conn team slot hinting vs) _
                (scout-RefusalKeeps room conn team slot hinting vs) (λ p. tt)))

  pub handle_location_scouts-Keeps :
      (conn : ConnId) (args : LocationScouts Value) (w : World)
      → Keeps w (handle_location_scouts percent as_int conn args w)
  unfolding handle_location_scouts
  handle_location_scouts-Keeps conn args w =
      for_client (λ c. scouts_by percent as_int conn c.team c.slot args) w
        (lookup conn w.room.clients)
        (λ c.
          answered c.team c.slot
            (scout percent as_int w.room conn c.team c.slot (not (args.create_as_hint == pos 0))
              args.locations)
            (scout-RefusalKeeps w.room conn c.team c.slot (not (args.create_as_hint == pos 0))
              args.locations))
    where
      answered :
          (team slot : ℕ) (r : Result (World → World) (List NetworkItem × List Hint))
          → RefusalKeeps r
          → Keeps w (elim r [
            | err refuse ↦ refuse w
            | ok scouted ↦ reply_scouts percent as_int conn team slot args.create_as_hint scouted w
          ])
      answered team slot (err refuse) h = h w
      answered team slot (ok s) h = reply_scouts-Keeps conn team slot args.create_as_hint s w
