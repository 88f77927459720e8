-- ===== src/Room/Effects.antt =====
-- crates/pahoa-room/src/effect.rs: what the room asks of the transport, as the recording sink keeps it.
use pahoa.Prelude.{ℕ, Bool, Option, String, List}
use pahoa.Prelude.Int.{ℤ}
use pahoa.Room.Hints.{SlotKey}
use pahoa.Proto.Packets.{ServerPacket}
use pahoa.Room.Filter.{Filter}

-- A number of seconds, which the room only copies: the bits of the `f64`.
abbrev pub Time : Type 0
Time = ℕ

abbrev pub ConnId : Type 0
ConnId = ℕ

pub data Recipients : Type 0 where
  all : Recipients
  all_text : Recipients
  to_slot : SlotKey → Recipients
  slot_text : SlotKey → Recipients
  all_text_about : SlotKey → Recipients
  all_text_full : Recipients
  slot_scoped_text : SlotKey → Recipients
  these : List ConnId → Recipients

pub data CloseReason : Type 0 where
  protocol_error : String → CloseReason
  too_slow server_shutdown kicked : CloseReason

pub data Trigger : Type 0 where
  goal admin player group : Trigger

unfoldable pub trigger_text : Trigger → String
trigger_text goal = "goal"
trigger_text admin = "admin"
trigger_text player = "player"
trigger_text group = "group"

pub record CheckRecord : Type 0 where
  pub at : Time
  pub finder : ℕ
  pub receiver : ℕ
  pub item : ℤ
  pub location : ℤ
  pub flags : ℕ

-- The fields of the JSON objects, in the constructors' order; the two sweeps have the same ones.
pub data JournalEvent : Type 0 where
  connected_event : Time → SlotKey → String → String → String → List String → JournalEvent
  disconnected_event : Time → SlotKey → String → List String → Bool → String → JournalEvent
  tags_changed_event : Time → SlotKey → String → List String → List String → JournalEvent
  goal_event : Time → SlotKey → String → String → JournalEvent
  release_or_collect : Time → String → SlotKey → String → String → ℕ → JournalEvent

pub data Effect : Type 0 where
  send : ConnId → List ServerPacket → Effect
  broadcast : Recipients → List ServerPacket → Effect
  close : ConnId → CloseReason → Effect
  mark_dirty : Effect
  membership_changed : ConnId → Bool → Bool → Option SlotKey → Effect
  filter_changed : ConnId → Option (Filter Time) → Effect
  journal_check : CheckRecord → Effect
  journal_event : JournalEvent → Effect
