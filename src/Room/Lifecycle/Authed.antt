-- ===== src/Room/Lifecycle/Authed.antt =====
-- crates/pahoa-room/src/room.rs: what authenticates a connection.
use pahoa.Prelude.{ℕ, ◌||◌, Option, List, ◌∷◌, String, ◌≡◌, refl, ap, if_both}
use pahoa.Prelude.Int.{ℤ}
use pahoa.Prelude.Equality.{nat_eq}
use pahoa.Room.Effects.{ConnId}
use pahoa.Room.State.{World}
use pahoa.Room.Connect.{Connect, refusals}
use pahoa.Room.Messages.{bad_arguments}
use pahoa.Proto.Packets.Refusal.{ConnectionRefusedReason}
use pahoa.Room.Lifecycle.Join.{handle_connect, answer_connect, is_bad, is_missing}

module _ (as_bytes : String → List ℕ) (slot_data : ℕ → Option String) (percent : ℕ → ℕ → ℤ) where
  -- A Connect that is malformed, or that there is a reason to refuse, changes nothing of the room.
  pub room-handle_connect :
      (conn : ConnId) (args : Connect) (w : World) (reason : ConnectionRefusedReason)
      (reasons : List ConnectionRefusedReason)
      → refusals as_bytes w.room args ≡ reason ∷ reasons
      → (handle_connect as_bytes slot_data percent conn args w).room ≡ w.room
  unfolding handle_connect bad_arguments
  room-handle_connect conn args w reason reasons refused =
      if_both (λ (t : World). t.room ≡ w.room) (is_bad args.password || is_missing args.game)
        (λ bad. refl)
        (λ fine.
          ap
            (λ (errors : List ConnectionRefusedReason).
              (answer_connect as_bytes slot_data percent conn args errors w).room)
            refused)
