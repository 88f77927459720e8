-- ===== src/Room/LifecycleTests.antt =====
-- Connections that come to the game of two players and a group, and go.
use pahoa.Prelude.{ℕ, true, Option, none, some, List, [], ◌∷◌, String, refl}
use pahoa.Prelude.Int.{ℤ, pos}
use pahoa.Prelude.Text.{show_ℤ}
use pahoa.Prelude.Equality.{contains}
use pahoa.Prelude.Dict.{lookup}
use pahoa.Prelude.Sorting.{dedup_sorted}
use pahoa.Room.Client.{full, with_feed}
use pahoa.Room.State.{World}
use pahoa.Room.Requests.{given}
use pahoa.Room.Requests.Scouts.{handle_location_checks}
use pahoa.Room.Connect.{Connect, refusals}
use pahoa.Room.StateTests.{room, percent}
use pahoa.Room.Lifecycle.{on_connect_with_feed}
use pahoa.Room.Lifecycle.Leave.{on_disconnect}
use pahoa.Room.Lifecycle.Join.{handle_connect}
use pahoa.Room.Lifecycle.Update.{handle_sync}
use pahoa.Room.Lifecycle.Actions.{started, opened, ended, asked, synced, checked}
use pahoa.Room.Lifecycle.Indexed.{IsIndexed, is_listed, is_member}
use pahoa.Room.Lifecycle.Reached.{Reachable-IsIndexed}
use pahoa.Room.Lifecycle.Seated.{IsSeated, handle_connect-IsSeated}

-- The game before anyone is there.
abbrev empty_world : World
empty_world = record { room = record room { clients = []; by_slot = [] }; redundant = []; out = [] }

abbrev anns_connect : Connect
anns_connect = record {
  password = given none;
  game = given (some "g");
  name = given "ann";
  version = record { major = 0; minor = 6; build = 7 };
  items_handling = given 7;
  tags = "AP" ∷ [];
  slot_data = true;
}

abbrev codes : String → List ℕ
codes s = []

abbrev no_data : ℕ → Option String
no_data slot = none

-- The numbers of the requests are whole.
abbrev whole : ℤ → Option ℤ
whole n = some n

abbrev open_world : World
open_world = on_connect_with_feed 4 full empty_world

abbrev joined_world : World
joined_world = handle_connect codes no_data percent 4 anns_connect open_world

empty-IsIndexed : IsIndexed empty_world.room
unfolding is_listed is_member lookup contains
empty-IsIndexed conn key = refl

abbrev checking_world : World
checking_world = handle_location_checks percent whole 4 (pos 5 ∷ []) (handle_sync 4 joined_world)

Reachable-IsIndexed_example : IsIndexed (on_disconnect 4 "gone" checking_world).room
unfolding lookup
Reachable-IsIndexed_example =
    Reachable-IsIndexed codes no_data percent whole show_ℤ empty_world
      (on_disconnect 4 "gone" checking_world) empty-IsIndexed
      (ended checking_world 4 "gone" (
        checked (handle_sync 4 joined_world) 4 (pos 5 ∷ []) (
          synced joined_world 4
            (asked open_world 4 anns_connect (opened empty_world 4 full started refl)))))

handle_connect-IsSeated_example : IsSeated 4 (0, 1) open_world.room joined_world.room
unfolding lookup on_connect_with_feed refusals dedup_sorted
handle_connect-IsSeated_example =
    handle_connect-IsSeated codes no_data percent open_world 4 (0, 1) anns_connect
      (with_feed 4 full) refl refl refl refl
