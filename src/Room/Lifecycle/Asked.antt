-- ===== src/Room/Lifecycle/Asked.antt =====
-- crates/pahoa-room/src/room.rs: the index of connections is kept by what clients ask of locations, hints
-- and their status.
use pahoa.Prelude.{ℕ, Bool, Option, none, some, List, sym, subst, if_both, String}
use pahoa.Prelude.Int.{ℤ}
use pahoa.Prelude.Equality.{◌==◌, nat_eq, int_eq, pair_eq, contains as mem}
use pahoa.Prelude.Dict.{lookup, insert}
use pahoa.Multidata.Types.{Hint, HintStatus, ClientStatus, unknown, found, status_eq}
use pahoa.Proto.Packets.{PrintJsonType}
use pahoa.Proto.Packets.Flags.{is_auto}
use pahoa.Room.Hints.{SlotKey, effective, find}
use pahoa.Room.Effects.{ConnId, Trigger, mark_dirty, journal_event, goal_event}
use pahoa.Room.Client.{Client}
use pahoa.Room.State.{World, emit, status, slot_alias, slot_game, slot_set}
use pahoa.Room.Messages.{slot_announcement, bad_arguments, raise_protocol_error}
use pahoa.Room.Checks.Frame.{each_changed-room}
use pahoa.Room.Sweeps.{
  auto_collect, auto_release, on_goal_achieved, reach_goal, set_status, is_goal,
}
use pahoa.Room.Sweeps.Goal.{announce_team_completion-room}
use pahoa.Room.Announce.{notify_new, notify_hints}
use pahoa.Room.Requests.Banked.{notify_new-room}
use pahoa.Room.Lifecycle.Indexed.{IsIndexed}
use pahoa.Room.Lifecycle.Delivered.{Keeps, release_player-Keeps, collect_player-Keeps}
use pahoa.Room.Requests.{
  Arg, missing, wrong, given, UpdateHint, set_each, team_keys, concerned_slots, reprioritize,
  set_requested, read_status, update_found, update_by, handle_update_hint,
}

pub refused-Keeps :
    (conn : ConnId) (cmd text : String) (w : World) → Keeps w (bad_arguments conn cmd text w)
unfolding bad_arguments
refused-Keeps conn cmd text w indexed = indexed

pub closed-Keeps :
    (conn : ConnId) (text : String) (w : World) → Keeps w (raise_protocol_error conn text w)
unfolding raise_protocol_error
closed-Keeps conn text w indexed = indexed

-- Of UpdateHint.
reprioritize-Keeps :
    (team : ℕ) (hint : Hint) (status : HintStatus) (w : World)
    → Keeps w (reprioritize team hint status w)
unfolding reprioritize
reprioritize-Keeps team hint status w indexed =
    let slots = concerned_slots w.room.seed hint in
    let hints = set_each team slots hint.finding_player hint.location status w.room.hints in
    let changed = record w { room = record w.room { hints = hints } } in
    if_both (λ (v : World). IsIndexed v.room) (effective status hint == hint.status) (λ e. indexed)
      (λ e.
        subst IsIndexed (sym (each_changed-room (team_keys team slots) (emit mark_dirty changed)))
          indexed)

set_requested-Keeps :
    (conn team : ℕ) (hint : Hint) (o : Option (Option HintStatus)) (w : World)
    → Keeps w (set_requested conn team hint o w)
set_requested-Keeps conn team hint none w indexed = indexed
set_requested-Keeps conn team hint (some none) w indexed = refused-Keeps conn _ _ w indexed
set_requested-Keeps conn team hint (some (some status)) w indexed =
    if_both (λ (v : World). IsIndexed v.room) (status == found)
      (λ e. refused-Keeps conn _ _ w indexed) (λ e. reprioritize-Keeps team hint status w indexed)

update_found-Keeps :
    (conn team slot : ℕ) (status : Option ℤ) (o : Option Hint) (w : World)
    → Keeps w (update_found conn team slot status o w)
update_found-Keeps conn team slot status none w indexed = indexed
update_found-Keeps conn team slot status (some hint) w indexed =
    if_both (λ (v : World). IsIndexed v.room)
      (mem (slot_set w.room.seed hint.receiving_player) slot)
      (λ e. set_requested-Keeps conn team hint (read_status status) w indexed)
      (λ e. refused-Keeps conn _ _ w indexed)

update_by-Keeps :
    (conn team slot : ℕ) (p : Arg ℕ) (l : Arg ℤ) (o : Arg (Option ℤ)) (w : World)
    → Keeps w (update_by conn team slot (record { player = p; location = l; status = o }) w)
update_by-Keeps conn team slot (given p) (given l) (given o) w =
    update_found-Keeps conn team slot o (find w.room.hints (team, p) p l) w
update_by-Keeps conn team slot (given p) (given l) missing w = refused-Keeps conn _ _ w
update_by-Keeps conn team slot (given p) (given l) wrong w = refused-Keeps conn _ _ w
update_by-Keeps conn team slot (given p) missing o w = refused-Keeps conn _ _ w
update_by-Keeps conn team slot (given p) wrong o w = refused-Keeps conn _ _ w
update_by-Keeps conn team slot missing l o w = refused-Keeps conn _ _ w
update_by-Keeps conn team slot wrong l o w = refused-Keeps conn _ _ w

pub handle_update_hint-Keeps :
    (conn : ConnId) (args : UpdateHint) (w : World) → Keeps w (handle_update_hint conn args w)
unfolding handle_update_hint
handle_update_hint-Keeps conn args w = by_found (lookup conn w.room.clients)
  where
    by_found :
        (o : Option Client)
        → Keeps w (elim o [ none ↦ w | some c ↦ update_by conn c.team c.slot args w ])
    by_found none indexed = indexed
    by_found (some c) indexed =
        update_by-Keeps conn c.team c.slot args.player args.location args.status w indexed

module _ (percent : ℕ → ℕ → ℤ) where
  -- Of the status.
  auto_collect-Keeps : (key : SlotKey) (w : World) → Keeps w (auto_collect percent key w)
  auto_collect-Keeps key w indexed =
      if_both (λ (v : World). IsIndexed v.room) (is_auto w.room.options.collect_mode)
        (λ e. collect_player-Keeps percent key Trigger.goal w indexed) (λ e. indexed)

  auto_release-Keeps : (key : SlotKey) (w : World) → Keeps w (auto_release percent key w)
  auto_release-Keeps key w indexed =
      if_both (λ (v : World). IsIndexed v.room) (is_auto w.room.options.release_mode)
        (λ e. release_player-Keeps percent key Trigger.goal w indexed) (λ e. indexed)

  on_goal_achieved-Keeps : (key : SlotKey) (w : World) → Keeps w (on_goal_achieved percent key w)
  unfolding on_goal_achieved
  on_goal_achieved-Keeps key w indexed =
      let announced =
        emit
          (slot_announcement PrintJsonType.goal key (slot_alias w.room key)
            ") has completed their goal.")
          w in
      auto_release-Keeps key (auto_collect percent key announced)
        (auto_collect-Keeps key announced indexed)

  reach_goal-Keeps :
      (key : SlotKey) (state : ClientStatus) (w : World) → Keeps w (reach_goal percent key state w)
  reach_goal-Keeps key ClientStatus.goal w indexed =
      let journaled =
        emit
          (journal_event
            (goal_event w.room.clock key (slot_alias w.room key) (slot_game w.room key.1)))
          w in
      subst IsIndexed
        (sym (announce_team_completion-room key.0 (on_goal_achieved percent key journaled)))
        (on_goal_achieved-Keeps key journaled indexed)
  reach_goal-Keeps key unknown w indexed = indexed
  reach_goal-Keeps key ClientStatus.connected w indexed = indexed
  reach_goal-Keeps key ClientStatus.ready w indexed = indexed
  reach_goal-Keeps key ClientStatus.playing w indexed = indexed

  pub set_status-Keeps :
      (key : SlotKey) (state : ClientStatus) (w : World) → Keeps w (set_status percent key state w)
  unfolding set_status
  set_status-Keeps key state w indexed =
      let changed = record w {
        room = record w.room { client_game_state = insert key state w.room.client_game_state };
      } in
      if_both (λ (v : World). IsIndexed v.room) (is_goal (status w.room key)) (λ e. indexed)
        (λ e. reach_goal-Keeps key state (emit mark_dirty changed) indexed)

  notify_new-Keeps :
      (team : ℕ) (persist : Bool) (recipients : Option (List ℕ)) (hs : List Hint) (w : World)
      → Keeps w (notify_new percent team persist recipients hs w)
  notify_new-Keeps team persist recipients hs w indexed =
      subst IsIndexed (sym (notify_new-room percent team persist recipients hs w)) indexed

  pub notify_hints-Keeps :
      (team : ℕ) (hs : List Hint) (only_new persist : Bool) (recipients : Option (List ℕ))
      (w : World)
      → Keeps w (notify_hints percent team hs only_new persist recipients w).0
  unfolding notify_hints
  notify_hints-Keeps team hs only_new persist recipients w =
      notify_new-Keeps team persist recipients _ w
