-- ===== src/Room/Lifecycle/Actions.antt =====
-- crates/pahoa-room/src/room.rs: what happens to the connections of a room, one thing after another.
use pahoa.Prelude.{ℕ, Option, none, List, ◌≡◌, String}
use pahoa.Prelude.Int.{ℤ}
use pahoa.Prelude.Equality.{nat_eq}
use pahoa.Prelude.Dict.{lookup}
use pahoa.Room.Effects.{ConnId, Time}
use pahoa.Room.Client.{FeedPolicy}
use pahoa.Room.State.{World}
use pahoa.Room.Connect.{Connect}
use pahoa.Room.Lifecycle.{on_connect_with_feed}
use pahoa.Room.Lifecycle.Leave.{on_disconnect}
use pahoa.Room.Lifecycle.Join.{handle_connect}
use pahoa.Room.Lifecycle.Update.{ConnectUpdate, handle_connect_update, handle_sync}
use pahoa.Room.Requests.{LocationScouts, CreateHints, UpdateHint, handle_update_hint}
use pahoa.Room.Requests.Scouts.{
  handle_location_checks, handle_location_scouts, handle_status_update,
}
use pahoa.Room.Requests.Create.{handle_create_hints}

module _ (as_bytes : String → List ℕ) (slot_data : ℕ → Option String) (percent : ℕ → ℕ → ℤ)
    {Value : Type 0} (as_int : Value → Option ℤ) (display : Value → String) where
  -- From a world to those that follow it: a connection opens under a number that none has, it ends, or
  -- its client sends one of eight requests: to be let in, to change its flags or tags, for its items,
  -- with locations that it has checked, for the items at some locations, to make hints, to change one,
  -- or with its status. Time passes at any moment.
  pub data Reachable (start : World) : World → Type 0 where
    started : Reachable start start
    opened :
        (w : World) (conn : ConnId) (feed : FeedPolicy)
        → Reachable start w
        → lookup conn w.room.clients ≡ none
        → Reachable start (on_connect_with_feed conn feed w)
    ended :
        (w : World) (conn : ConnId) (reason : String)
        → Reachable start w
        → Reachable start (on_disconnect conn reason w)
    asked :
        (w : World) (conn : ConnId) (args : Connect)
        → Reachable start w
        → Reachable start (handle_connect as_bytes slot_data percent conn args w)
    updated :
        (w : World) (conn : ConnId) (args : ConnectUpdate)
        → Reachable start w
        → Reachable start (handle_connect_update conn args w)
    synced : (w : World) (conn : ConnId) → Reachable start w → Reachable start (handle_sync conn w)
    checked :
        (w : World) (conn : ConnId) (locations : List Value)
        → Reachable start w
        → Reachable start (handle_location_checks percent as_int conn locations w)
    scouted :
        (w : World) (conn : ConnId) (args : LocationScouts Value)
        → Reachable start w
        → Reachable start (handle_location_scouts percent as_int conn args w)
    hinted :
        (w : World) (conn : ConnId) (args : CreateHints Value)
        → Reachable start w
        → Reachable start (handle_create_hints percent as_int display conn args w)
    changed :
        (w : World) (conn : ConnId) (args : UpdateHint)
        → Reachable start w
        → Reachable start (handle_update_hint conn args w)
    reported :
        (w : World) (conn : ConnId) (status : ℤ)
        → Reachable start w
        → Reachable start (handle_status_update percent as_int conn status w)
    elapsed :
        (w : World) (now : Time)
        → Reachable start w
        → Reachable start (record w { room = record w.room { clock = now } })
