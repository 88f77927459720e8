-- ===== src/Room/Lifecycle/Reached.antt =====
-- crates/pahoa-room/src/room.rs: what holds of the connections in every room that is reached.
use pahoa.Prelude.{ℕ, Option, List, String}
use pahoa.Prelude.Int.{ℤ}
use pahoa.Room.State.{World}
use pahoa.Room.Lifecycle.Actions.{
  Reachable, started, opened, ended, asked, updated, synced, checked, scouted, hinted, changed,
  reported, elapsed,
}
use pahoa.Room.Lifecycle.Update.{handle_sync}
use pahoa.Room.Lifecycle.Indexed.{IsIndexed}
use pahoa.Room.Lifecycle.Kept.{
  opened-IsIndexed, ended-IsIndexed, updated-IsIndexed, resent-IsIndexed,
}
use pahoa.Room.Lifecycle.Seated.{asked-IsIndexed}
use pahoa.Room.Lifecycle.Asked.{handle_update_hint-Keeps}
use pahoa.Room.Lifecycle.Created.{handle_create_hints-Keeps}
use pahoa.Room.Lifecycle.Hinted.{
  handle_location_checks-Keeps, handle_location_scouts-Keeps, handle_status_update-Keeps,
}

module _ (as_bytes : String → List ℕ) (slot_data : ℕ → Option String) (percent : ℕ → ℕ → ℤ)
    {Value : Type 0} (as_int : Value → Option ℤ) (display : Value → String) where
  -- From a room whose lists of connections are those that are authenticated to each slot, every room that
  -- is reached has such lists, however connections come and go, as long as one that opens has a number
  -- that no other has, and whatever clients send as Connect, ConnectUpdate, Sync, LocationChecks,
  -- LocationScouts, CreateHints, UpdateHint and StatusUpdate.
  pub Reachable-IsIndexed :
      (start w : World)
      → IsIndexed start.room
      → Reachable as_bytes slot_data percent as_int display start w
      → IsIndexed w.room
  unfolding handle_sync
  Reachable-IsIndexed start w indexed started = indexed
  Reachable-IsIndexed start w indexed (opened v conn feed before new) =
      opened-IsIndexed v conn feed new (Reachable-IsIndexed start v indexed before)
  Reachable-IsIndexed start w indexed (ended v conn reason before) =
      ended-IsIndexed v conn reason (Reachable-IsIndexed start v indexed before)
  Reachable-IsIndexed start w indexed (asked v conn args before) =
      asked-IsIndexed as_bytes slot_data percent v conn args
        (Reachable-IsIndexed start v indexed before)
  Reachable-IsIndexed start w indexed (updated v conn args before) =
      updated-IsIndexed v conn args (Reachable-IsIndexed start v indexed before)
  Reachable-IsIndexed start w indexed (synced v conn before) =
      resent-IsIndexed v conn (Reachable-IsIndexed start v indexed before)
  Reachable-IsIndexed start w indexed (checked v conn locations before) =
      handle_location_checks-Keeps percent as_int conn locations v
        (Reachable-IsIndexed start v indexed before)
  Reachable-IsIndexed start w indexed (scouted v conn args before) =
      handle_location_scouts-Keeps percent as_int conn args v
        (Reachable-IsIndexed start v indexed before)
  Reachable-IsIndexed start w indexed (hinted v conn args before) =
      handle_create_hints-Keeps percent as_int display conn args v
        (Reachable-IsIndexed start v indexed before)
  Reachable-IsIndexed start w indexed (changed v conn args before) =
      handle_update_hint-Keeps conn args v (Reachable-IsIndexed start v indexed before)
  Reachable-IsIndexed start w indexed (reported v conn status before) =
      handle_status_update-Keeps percent as_int conn status v
        (Reachable-IsIndexed start v indexed before)
  Reachable-IsIndexed start w indexed (elapsed v now before) =
      Reachable-IsIndexed start v indexed before
