-- ===== src/Room/Sweeps/Goal.antt =====
-- crates/pahoa-room/src/room.rs: the status of a slot, which stays at the goal.
use pahoa.Prelude.{ℕ, not, ◌&&◌, ◌≡◌, refl, ap, ◌∙◌, arith, if◌then◌else◌, if_both}
use pahoa.Prelude.Int.{ℤ}
use pahoa.Prelude.Equality.{◌==◌, nat_eq, pair_eq}
use pahoa.Prelude.Dict.{Dict, insert, get_or, get_or-insert}
use pahoa.Multidata.Types.{ClientStatus, unknown}
use pahoa.Proto.Packets.Flags.{is_auto}
use pahoa.Room.Hints.{SlotKey}
use pahoa.Room.Effects.{Trigger, mark_dirty, journal_event, goal_event}
use pahoa.Room.State.{Room, World, emit, status, slot_alias, slot_game}
use pahoa.Proto.Packets.{PrintJsonType}
use pahoa.Room.Messages.{slot_announcement}
use pahoa.Room.Sweeps.{
  on_goal_achieved, reach_goal, auto_collect, auto_release, announce_team_completion, all_goal,
  is_goal, set_status,
}
use pahoa.Room.Sweeps.Frame.{release_player_untouched, collect_player_untouched, IsUntouched}

abbrev states : Room → Dict SlotKey ClientStatus
states room = room.client_game_state

states-IsUntouched : IsUntouched states
states-IsUntouched room clients checks queues activity hints collected = refl

pub announce_team_completion-room :
    (team : ℕ) (w : World) → (announce_team_completion team w).room ≡ w.room
unfolding announce_team_completion
announce_team_completion-room team w =
    if_both (λ (v : World). v.room ≡ w.room) (all_goal w.room team w.room.seed.slot_info)
      (λ e. refl) (λ e. refl)

module _ (percent : ℕ → ℕ → ℤ) where
  auto_collect-states :
      (key : SlotKey) (w : World) → states (auto_collect percent key w).room ≡ states w.room
  auto_collect-states key w =
      if_both (λ (v : World). states v.room ≡ states w.room) (is_auto w.room.options.collect_mode)
        (λ e. collect_player_untouched percent states states-IsUntouched key Trigger.goal w)
        (λ e. refl)

  auto_release-states :
      (key : SlotKey) (w : World) → states (auto_release percent key w).room ≡ states w.room
  auto_release-states key w =
      if_both (λ (v : World). states v.room ≡ states w.room) (is_auto w.room.options.release_mode)
        (λ e. release_player_untouched percent states states-IsUntouched key Trigger.goal w)
        (λ e. refl)

  on_goal_achieved-states :
      (key : SlotKey) (w : World) → states (on_goal_achieved percent key w).room ≡ states w.room
  unfolding on_goal_achieved
  on_goal_achieved-states key w =
      let announced =
        emit
          (slot_announcement PrintJsonType.goal key (slot_alias w.room key)
            ") has completed their goal.")
          w in
      auto_release-states key (auto_collect percent key announced)
      ∙ auto_collect-states key announced

  reach_goal-states :
      (key : SlotKey) (state : ClientStatus) (w : World)
      → states (reach_goal percent key state w).room ≡ states w.room
  reach_goal-states key ClientStatus.goal w =
      let journaled =
        emit
          (journal_event
            (goal_event w.room.clock key (slot_alias w.room key) (slot_game w.room key.1)))
          w in
      ap states (announce_team_completion-room key.0 (on_goal_achieved percent key journaled))
      ∙ on_goal_achieved-states key journaled
  reach_goal-states key unknown w = refl
  reach_goal-states key ClientStatus.connected w = refl
  reach_goal-states key ClientStatus.ready w = refl
  reach_goal-states key ClientStatus.playing w = refl

  -- A slot that is not at the goal gets the status that is set, whatever the automatic collect and
  -- release do; at the goal it keeps it, and no other slot's status changes.
  pub status-set_status :
      (key other : SlotKey) (state : ClientStatus) (w : World)
      → status (set_status percent key state w).room other
        ≡ (if key == other && not (is_goal (status w.room key)) then state else status w.room other)
  unfolding status set_status
  status-set_status key other state w =
      let changed = record w {
        room = record w.room { client_game_state = insert key state w.room.client_game_state };
      } in
      if_both
        (λ (v : World). get_or (states v.room) other unknown ≡ (
          if key == other && not (is_goal (get_or (states w.room) key unknown))
          then state
          else get_or (states w.room) other unknown))
        (is_goal (get_or (states w.room) key unknown)) (λ e. ground (arith, e))
        (λ e.
          ap (λ d. get_or d other unknown) (reach_goal-states key state (emit mark_dirty changed))
          ∙ ground (arith, e, get_or-insert other key state unknown (states w.room)))
